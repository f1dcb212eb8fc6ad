-- ===== src/Tests/OfWire.antt =====
-- The wire's theorems at concrete inputs.

use wispers_access.Prelude.{
  false, List, [], codes, err, if◌then◌else◌, is_whitespace, ltb, none, ok, refl, some, split,
  strip_prefix, trim, trim_end, trim_start, true, ℕ, ◌++◌, ◌∷◌, ◌≡◌,
}
use wispers_access.Tests.Sample.{shifting, shifting-IsLawful}
use wispers_access.Wire.ConfigHash.{matches_if_none_match}
use wispers_access.Wire.ConfigHash.Tags.{listed, matches_if_none_match-listed}
use wispers_access.Wire.Framing.{
  read_message, read_message-write_message, to_be_bytes, too_long, write_message,
}
use wispers_access.Wire.Invite.{
  parse, wispers_connect, Invite, parse_trimmed, parse_version_0, parse_wispers_connect,
  read_backend, to_code,
}
use wispers_access.Wire.Invite.RoundTrip.{
  is_https, is_plain, is_printable, is_valid, parse-is_valid, parse-to_code,
}

abbrev shared : Invite
shared = wispers_connect (codes "ab12cd") (codes "1-xyz789") (some (codes "https://hub"))

parse-to_code_example : parse shifting (to_code shifting shared) ≡ ok shared
unfolding is_valid is_printable is_plain is_whitespace is_https strip_prefix
parse-to_code_example = parse-to_code shifting shared shifting-IsLawful refl refl

parse-is_valid_example : is_valid (wispers_connect (codes "a") (codes "b") none) ≡ true
unfolding parse trim strip_prefix split parse_trimmed parse_version_0 parse_wispers_connect
    read_backend is_whitespace trim_start trim_end
parse-is_valid_example =
    parse-is_valid shifting (codes " wax_a_b") (wispers_connect (codes "a") (codes "b") none) refl

abbrev hello : List ℕ
hello = 34 ∷ 104 ∷ 105 ∷ 34 ∷ []

read_message-write_message_example :
    read_message (λ (m : List ℕ). m) some (to_be_bytes 4 ++ (hello ++ (1 ∷ [])))
    ≡ (if ltb 65536 4 then err (too_long 4) else ok (hello, 1 ∷ []))
unfolding write_message to_be_bytes
read_message-write_message_example =
    read_message-write_message (λ (m : List ℕ). m) some hello (to_be_bytes 4 ++ hello) (1 ∷ []) refl
      refl

matches_if_none_match-listed_example :
    matches_if_none_match 3 (listed (5, false) ((3, true) ∷ [])) ≡ true
matches_if_none_match-listed_example =
    matches_if_none_match-listed 3 refl (5, false) ((3, true) ∷ []) refl
