-- ===== src/Wire/Invite/RoundTrip.antt =====
-- wire/src/lib.rs, lines 116 to 216: parsed invites, and the fields of their codes.

use wispers_access.Prelude.{
  &&-eq-true, all-append, ap, append-nil, split_field, split_none, trim_none, ◌∙◌,
}
use wispers_access.Wire.Invite.{decode_backend, read_backend, from_tag, backend_part, to_code}
use wispers_access.Prelude.Searches.{all_implies}
use wispers_access.Wire.Transport.{from_tag, tag}
use wispers_access.Prelude.{Bool-cases, [], inl, inr, refl, split, trim, ◌++◌, ◌∷◌}
use wispers_access.Wire.Invite.{
  later_fields, next_field, parse, parse_tagged, parse_trimmed, parse_version_0, parse_version_1,
}
use wispers_access.Wire.Transport.{Transport}
use wispers_access.Prelude.{
  Bool, List, Option, Text, all, arith, codes, is_some, is_whitespace, length, none, not, ok, some,
  strip_prefix, true, ℕ, ◌&&◌, ◌==◌, ◌≡◌,
}
use wispers_access.Wire.Invite.{
  Encodings, Invite, hex_bytes, iroh, is_empty, parse_iroh, parse_wispers_connect, wispers_connect,
}

-- A character of a field: no delimiter and no white space.
unfoldable pub is_plain : ℕ → Bool
is_plain c = not (c == b'_') && not (is_whitespace c)

-- Decoding gives back what was encoded, and the encodings are of letters and digits.
pub record IsLawful (enc : Encodings) : Type 0 where
  pub hex_round : (bytes : List ℕ) → enc.hex_decode (enc.hex_encode bytes) ≡ some bytes
  pub hex_plain : (bytes : List ℕ) → all is_plain (enc.hex_encode bytes) ≡ true
  pub base32_round : (url : Text) → enc.base32_decode (enc.base32_encode url) ≡ some url
  pub base32_plain : (url : Text) → all is_plain (enc.base32_encode url) ≡ true

unfoldable pub is_https : Text → Bool
is_https url = is_some (strip_prefix (codes "https://") url)

abbrev backend_ok : Option Text → Bool
backend_ok none = true
backend_ok (some url) = is_https url

-- The invites that `parse` returns.
unfoldable pub is_valid : Invite → Bool
unfolding is_https
is_valid (wispers_connect token code backend) =
    not (is_empty token) && (not (is_empty code) && backend_ok backend)
is_valid (iroh endpoint_id secret) = length endpoint_id == 32 && length secret == 16

-- The fields of a Wispers Connect invite hold no delimiter and no white space.
unfoldable pub is_printable : Invite → Bool
is_printable (wispers_connect token code backend) = all is_plain token && all is_plain code
is_printable (iroh _ _) = true

parse_iroh-is_valid :
    (enc : Encodings) (fields : List Text) (i : Invite)
    → parse_iroh enc fields ≡ ok i
    → is_valid i ≡ true
unfolding is_valid parse_iroh
parse_iroh-is_valid enc fields i h = ground arith

parse_wispers_connect-is_valid :
    (enc : Encodings) (fields : List Text) (i : Invite)
    → parse_wispers_connect enc fields ≡ ok i
    → is_valid i ≡ true
unfolding is_valid parse_wispers_connect
parse_wispers_connect-is_valid enc fields i h = ground arith

parse_tagged-is_valid :
    (enc : Encodings) (t : Text) (o : Option Transport) (fields : List Text) (i : Invite)
    → parse_tagged enc t o fields ≡ ok i
    → is_valid i ≡ true
unfolding parse_tagged
parse_tagged-is_valid enc t (some Transport.wispers_connect) fields i h =
    parse_wispers_connect-is_valid enc fields i h
parse_tagged-is_valid enc t (some Transport.iroh) fields i h = parse_iroh-is_valid enc fields i h
parse_tagged-is_valid enc t (some Transport.tailscale) fields i h = cc h
parse_tagged-is_valid enc t none fields i h = cc h

parse_version_1-is_valid :
    (enc : Encodings) (fields : List Text) (i : Invite)
    → parse_version_1 enc fields ≡ ok i
    → is_valid i ≡ true
unfolding parse_version_1
parse_version_1-is_valid enc fields i h = elim (Bool-cases (is_empty (next_field fields))) [
  | inl e ↦ absurd (ground (arith, e, h))
  | inr e ↦ parse_tagged-is_valid enc _ _ (later_fields fields) i (rw (e, parse_version_1) at h)
]

parse_version_0-is_valid :
    (enc : Encodings) (o : Option Text) (i : Invite)
    → parse_version_0 enc o ≡ ok i
    → is_valid i ≡ true
unfolding parse_version_0
parse_version_0-is_valid enc (some rest) i h =
    parse_wispers_connect-is_valid enc (split b'_' rest) i h
parse_version_0-is_valid enc none i h = cc h

parse_trimmed-is_valid :
    (enc : Encodings) (code : Text) (o : Option Text) (i : Invite)
    → parse_trimmed enc code o ≡ ok i
    → is_valid i ≡ true
unfolding parse_trimmed
parse_trimmed-is_valid enc code (some rest) i h = parse_version_1-is_valid enc (split b'_' rest) i h
parse_trimmed-is_valid enc code none i h = parse_version_0-is_valid enc _ i h

-- Whatever the code and its version, a parsed Wispers Connect invite has a registration token, an
-- activation code and no backend but an https:// one, and a parsed iroh invite has an
-- endpoint id of 32 bytes and a secret of 16.
pub parse-is_valid :
    (enc : Encodings) (code : Text) (i : Invite) → parse enc code ≡ ok i → is_valid i ≡ true
unfolding parse
parse-is_valid enc code i h =
    parse_trimmed-is_valid enc (trim code) (strip_prefix (codes "wax1_") (trim code)) i h

no_space : (s : Text) → all is_plain s ≡ true → all (λ c. not (is_whitespace c)) s ≡ true
unfolding is_plain
no_space s = all_implies is_plain (λ c. not (is_whitespace c)) s (λ c h. ground arith)

no_delimiter : (s : Text) → all is_plain s ≡ true → all (λ c. not (c == b'_')) s ≡ true
unfolding is_plain
no_delimiter s = all_implies is_plain (λ c. not (c == b'_')) s (λ c h. ground arith)

abbrev Spaceless : Text → Type 0
Spaceless s = all (λ c. not (is_whitespace c)) s ≡ true

Spaceless-version : (s : Text) → Spaceless s → Spaceless (codes "wax1_" ++ s)
unfolding is_whitespace
Spaceless-version s h = h

Spaceless-fields : (a b : Text) → Spaceless a → Spaceless b → Spaceless (a ++ (b'_' ∷ b))
unfolding is_whitespace
Spaceless-fields a b h k = all-append _ a (b'_' ∷ b) h k

-- A code of version 1 with no white space is split at its delimiters.
parse_fields :
    (enc : Encodings) (t rest : Text)
    → Spaceless t
    → Spaceless rest
    → all (λ c. not (c == b'_')) t ≡ true
    → parse enc (codes "wax1_" ++ (t ++ (b'_' ∷ rest))) ≡ parse_version_1 enc (t ∷ split b'_' rest)
unfolding parse strip_prefix
parse_fields enc t rest ht hr hd =
    rw (trim_none _ (Spaceless-version (t ++ (b'_' ∷ rest)) (Spaceless-fields t rest ht hr)))
      (rw (split_field b'_' t rest hd))

abbrev backend_fields : Encodings → Option Text → List Text
backend_fields enc none = []
backend_fields enc (some url) = enc.base32_encode url ∷ []

split_code :
    (enc : Encodings) (law : IsLawful enc) (token code : Text) (backend : Option Text)
    → all is_plain token ≡ true
    → all is_plain code ≡ true
    → split b'_' (token ++ (b'_' ∷ (code ++ backend_part enc backend)))
      ≡ token ∷ code ∷ backend_fields enc backend
unfolding backend_part
split_code enc law token code none p q =
    split_field b'_' token _ (no_delimiter token p)
    ∙ ap (◌∷◌ token) (rw append-nil (split_none b'_' code (no_delimiter code q)))
split_code enc law token code (some url) p q =
    split_field b'_' token _ (no_delimiter token p)
    ∙ ap (◌∷◌ token) (
        split_field b'_' code _ (no_delimiter code q)
        ∙ ap (◌∷◌ code)
            (split_none b'_' (enc.base32_encode url) (no_delimiter _ (law.base32_plain url))))

Spaceless-backend :
    (enc : Encodings) (law : IsLawful enc) (backend : Option Text)
    → Spaceless (backend_part enc backend)
unfolding backend_part is_whitespace
Spaceless-backend enc law none = refl
Spaceless-backend enc law (some url) = no_space (enc.base32_encode url) (law.base32_plain url)

parse-wispers_connect :
    (enc : Encodings) (law : IsLawful enc) (token code : Text) (backend : Option Text)
    → is_valid (wispers_connect token code backend) ≡ true
    → parse_version_1 enc (codes "wc" ∷ token ∷ code ∷ backend_fields enc backend)
      ≡ ok (wispers_connect token code backend)
unfolding is_valid parse_version_1 parse_tagged from_tag parse_wispers_connect read_backend
    decode_backend
parse-wispers_connect enc law token code none v = ground arith
parse-wispers_connect enc law token code (some url) v = ground (arith, law.base32_round url)

parse-iroh :
    (enc : Encodings) (law : IsLawful enc) (endpoint_id secret : List ℕ)
    → is_valid (iroh endpoint_id secret) ≡ true
    → parse_version_1 enc (codes "iroh" ∷ enc.hex_encode endpoint_id ∷ enc.hex_encode secret ∷ [])
      ≡ ok (iroh endpoint_id secret)
unfolding is_valid parse_version_1 parse_tagged from_tag parse_iroh hex_bytes
parse-iroh enc law endpoint_id secret v =
    ground (arith, law.hex_round endpoint_id, law.hex_round secret)

-- The code of a valid invite whose token and code hold no "_" and no white space is parsed as the
-- invite, if the encodings decode what they encode.
pub parse-to_code :
    (enc : Encodings) (i : Invite)
    → IsLawful enc
    → is_valid i ≡ true
    → is_printable i ≡ true
    → parse enc (to_code enc i) ≡ ok i
unfolding to_code is_valid is_printable tag
parse-to_code enc (wispers_connect token code backend) law v p =
    let (pt, pc) = &&-eq-true (all is_plain token) (all is_plain code) p in
    let rest = token ++ (b'_' ∷ (code ++ backend_part enc backend)) in
    parse_fields enc (codes "wc") rest (unfold is_whitespace in refl)
      (Spaceless-fields token _ (no_space token pt)
        (all-append _ code _ (no_space code pc) (Spaceless-backend enc law backend)))
      refl
    ∙ ap (λ (fs : List Text). parse_version_1 enc (codes "wc" ∷ fs))
        (split_code enc law token code backend pt pc)
    ∙ parse-wispers_connect enc law token code backend v
parse-to_code enc (iroh endpoint_id secret) law v p =
    let id = enc.hex_encode endpoint_id in
    let key = enc.hex_encode secret in
    parse_fields enc (codes "iroh") (id ++ (b'_' ∷ key)) (unfold is_whitespace in refl)
      (Spaceless-fields id key (no_space id (law.hex_plain endpoint_id))
        (no_space key (law.hex_plain secret)))
      refl
    ∙ ap (λ (fs : List Text). parse_version_1 enc (codes "iroh" ∷ fs))
        (split_field b'_' id key (no_delimiter id (law.hex_plain endpoint_id))
          ∙ ap (◌∷◌ id) (split_none b'_' key (no_delimiter key (law.hex_plain secret))))
    ∙ parse-iroh enc law endpoint_id secret v
