-- ===== src/Wire/Invite.antt =====
-- wire/src/lib.rs, lines 84 to 216 and 246 to 313: invite codes.
-- The crate `data_encoding` is a parameter, `Encodings`: hex of bytes and unpadded base32.
pub mod RoundTrip
use wispers_access.Prelude.{
  Bool, List, Option, Result, Text, [], codes, err, false, if◌then◌else◌, is_some, length, none, ok,
  ok_or, some, split, strip_prefix, trim, true, ℕ, ◌++◌, ◌==◌, ◌>>=◌, ◌∷◌,
}
use wispers_access.Wire.Transport.{Transport, from_tag, tag}

-- What the codes use of `data_encoding` and of UTF-8 decoding. Bytes and characters are numbers.
pub record Encodings : Type 0 where
  -- `HEXLOWER.encode`, `HEXLOWER_PERMISSIVE.decode`
  pub hex_encode : List ℕ → Text
  pub hex_decode : Text → Option (List ℕ)
  -- `BASE32_NOPAD.encode` of the bytes of a URL then `to_lowercase`, and `to_uppercase` then
  -- `BASE32_NOPAD.decode` then `from_utf8`
  pub base32_encode : Text → Text
  pub base32_decode : Text → Option Text

pub data Invite : Type 0 where
  wispers_connect : (registration_token activation_code : Text) (backend : Option Text) → Invite
  iroh : (endpoint_id secret : List ℕ) → Invite

-- The reasons of `Malformed`.
pub data Reason : Type 0 where
  missing_registration_token missing_activation_code : Reason
  backend_not_base32 backend_not_https : Reason
  bad_endpoint_id bad_secret : Reason

pub data InviteError : Type 0 where
  not_an_invite : InviteError
  unsupported_transport : Text → InviteError
  malformed : Reason → InviteError

-- `fields.next().unwrap_or("")`, and the fields behind it.
abbrev pub next_field : List Text → Text
next_field [] = []
next_field (f ∷ fs) = f

abbrev pub later_fields : List Text → List Text
later_fields [] = []
later_fields (f ∷ fs) = fs

abbrev pub is_empty : Text → Bool
is_empty [] = true
is_empty (c ∷ s) = false

module _ (enc : Encodings) where
  -- `FromStr` of a type of `hex_bytes!`: the number of bytes is checked.
  unfoldable pub hex_bytes : ℕ → Text → Option (List ℕ)
  hex_bytes len s = elim (enc.hex_decode s) [
    | none ↦ none
    | some bytes ↦ if length bytes == len then some bytes else none
  ]

  https_only : Text → Result InviteError Text
  https_only url =
      if is_some (strip_prefix (codes "https://") url)
      then ok url
      else err (malformed backend_not_https)

  unfoldable pub decode_backend : Text → Result InviteError Text
  unfolding https_only strip_prefix
  decode_backend field =
      ok_or (enc.base32_decode field) (malformed backend_not_base32) >>= https_only

  -- `fields.next().map(decode_backend).transpose()`
  unfoldable pub read_backend : List Text → Result InviteError (Option Text)
  unfolding decode_backend
  read_backend [] = ok none
  read_backend (f ∷ fs) = decode_backend f >>= λ url. ok (some url)

  unfoldable pub parse_wispers_connect : List Text → Result InviteError Invite
  unfolding read_backend
  parse_wispers_connect fields =
      let token = next_field fields in
      let code = next_field (later_fields fields) in
      if is_empty token
      then err (malformed missing_registration_token)
      else if is_empty code
      then err (malformed missing_activation_code)
      else (read_backend (later_fields (later_fields fields)) >>= λ backend.
          ok (wispers_connect token code backend))

  unfoldable pub parse_iroh : List Text → Result InviteError Invite
  unfolding hex_bytes
  parse_iroh fields = ok_or (hex_bytes 32 (next_field fields)) (malformed bad_endpoint_id) >>= λ id.
      ok_or (hex_bytes 16 (next_field (later_fields fields))) (malformed bad_secret) >>= λ secret.
      ok (iroh id secret)

  unfoldable pub parse_tagged : Text → Option Transport → List Text → Result InviteError Invite
  unfolding parse_wispers_connect parse_iroh
  parse_tagged t (some Transport.wispers_connect) fields = parse_wispers_connect fields
  parse_tagged t (some Transport.iroh) fields = parse_iroh fields
  parse_tagged t (some Transport.tailscale) fields = err (unsupported_transport t)
  parse_tagged t none fields = err (unsupported_transport t)

  unfoldable pub parse_version_1 : List Text → Result InviteError Invite
  unfolding parse_tagged from_tag
  parse_version_1 fields =
      let t = next_field fields in
      if is_empty t then err not_an_invite else parse_tagged t (from_tag t) (later_fields fields)

  unfoldable pub parse_version_0 : Option Text → Result InviteError Invite
  parse_version_0 (some rest) = parse_wispers_connect (split b'_' rest)
  parse_version_0 none = err not_an_invite

  unfoldable pub parse_trimmed : Text → Option Text → Result InviteError Invite
  parse_trimmed code (some rest) = parse_version_1 (split b'_' rest)
  parse_trimmed code none = parse_version_0 (strip_prefix (codes "wax_") code)

  unfoldable pub parse : Text → Result InviteError Invite
  unfolding parse_trimmed
  parse code = let code' = trim code in parse_trimmed code' (strip_prefix (codes "wax1_") code')

  unfoldable pub backend_part : Option Text → Text
  backend_part none = []
  backend_part (some url) = b'_' ∷ enc.base32_encode url

  unfoldable pub to_code : Invite → Text
  unfolding backend_part tag
  to_code (wispers_connect token code backend) =
      codes "wax1_"
      ++ (tag Transport.wispers_connect
          ++ (b'_' ∷ (token ++ (b'_' ∷ (code ++ backend_part backend)))))
  to_code (iroh endpoint_id secret) =
      codes "wax1_"
      ++ (tag Transport.iroh
          ++ (b'_' ∷ (enc.hex_encode endpoint_id ++ (b'_' ∷ enc.hex_encode secret))))

unfoldable pub transport : Invite → Transport
transport (wispers_connect _ _ _) = Transport.wispers_connect
transport (iroh _ _) = Transport.iroh
