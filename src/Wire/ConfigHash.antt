-- ===== src/Wire/ConfigHash.antt =====
-- wire/src/lib.rs, lines 735 to 774: config hashes, their entity tags and their text form.
pub mod Tags
use wispers_access.Prelude.{◌-◌, ◌*◌, ◌∙◌, Bool-cases, inl, inr, ap}
use wispers_access.Prelude.{
  Bool-cases, leb, Bool, Option, Text, [], all, all-append, any, arith, codes, false, if◌then◌else◌,
  is_whitespace, ltb, none, not, refl, some, split, split_field, split_none, strip_prefix, suc,
  text_eq, text_eq_refl, trim, trim_none, true, zero, ℕ, ◌%◌, ◌&&◌, ◌++◌, ◌+◌, ◌/◌, ◌==◌, ◌||◌, ◌∷◌,
  ◌≡◌,
}
use wispers_access.Prelude.Searches.{all_implies}
use wispers_access.Wire.Transport.{tag}

hex_digit : ℕ → ℕ
hex_digit d = if ltb d 10 then 48 + d else 87 + d

-- The last `count` hex digits of a number, before `acc`.
hex_digits : ℕ → ℕ → Text → Text
unfolding hex_digit
hex_digits zero n acc = acc
hex_digits (suc count) n acc = hex_digits count (n / 16) (hex_digit (n % 16) ∷ acc)

-- `{:016x}` of a u64.
unfoldable pub hex16 : ℕ → Text
unfolding hex_digits
hex16 n = hex_digits 16 n []

unfoldable pub etag : ℕ → Text
unfolding hex16
etag h = codes "\"" ++ (hex16 h ++ codes "\"")

abbrev is_text : Text → Option Text → Bool
is_text t none = false
is_text t (some s) = text_eq s t

unfoldable pub tag_matches : Text → Text → Bool
unfolding strip_prefix text_eq
tag_matches mine tag =
    text_eq tag (codes "*") || (text_eq tag mine || is_text mine (strip_prefix (codes "W/") tag))

unfoldable pub matches_if_none_match : ℕ → Text → Bool
unfolding etag tag_matches
matches_if_none_match h header =
    let mine = etag h in any (λ tag. tag_matches mine (trim tag)) (split b',' header)

abbrev is_tag_char : ℕ → Bool
is_tag_char c = not (is_whitespace c) && not (c == b',')

hex_digit-is_tag_char : (n : ℕ) → is_tag_char (hex_digit (n % 16)) ≡ true
unfolding hex_digit is_whitespace
hex_digit-is_tag_char n = ground arith

hex_digits-is_tag_char :
    (count n : ℕ) (acc : Text)
    → all is_tag_char acc ≡ true
    → all is_tag_char (hex_digits count n acc) ≡ true
unfolding hex_digits
hex_digits-is_tag_char zero n acc h = h
hex_digits-is_tag_char (suc count) n acc h =
    hex_digits-is_tag_char count (n / 16) (hex_digit (n % 16) ∷ acc)
      (rw (hex_digit-is_tag_char n) h)

etag-is_tag_char : (h : ℕ) → all is_tag_char (etag h) ≡ true
unfolding etag hex16 is_whitespace
etag-is_tag_char h =
    all-append is_tag_char (hex_digits 16 h []) (codes "\"") (hex_digits-is_tag_char 16 h [] refl)
      refl

no_space : (h : ℕ) → all (λ c. not (is_whitespace c)) (etag h) ≡ true
no_space h = all_implies is_tag_char _ (etag h) (λ c p. ground arith) (etag-is_tag_char h)

trim-etag : (h : ℕ) → trim (etag h) ≡ etag h
trim-etag h = trim_none (etag h) (no_space h)

no_comma : (h : ℕ) → all (λ c. not (c == b',')) (etag h) ≡ true
no_comma h = all_implies is_tag_char _ (etag h) (λ c p. ground arith) (etag-is_tag_char h)

-- An entity tag that is listed alone or first matches the hash that it is of.
pub matches_if_none_match-etag :
    (h : ℕ) (rest : Text)
    → (matches_if_none_match h (etag h) ≡ true)
      × (matches_if_none_match h (etag h ++ (b',' ∷ rest)) ≡ true)
unfolding matches_if_none_match tag_matches
matches_if_none_match-etag h rest = (
  rw (split_none b',' (etag h) (no_comma h))
      (rw (trim-etag h) (ground (arith, text_eq_refl (etag h)))),
  rw (split_field b',' (etag h) rest (no_comma h))
      (rw (trim-etag h) (ground (arith, text_eq_refl (etag h)))),
)

-- The value of a hex digit, in either case.
hex_value : ℕ → Option ℕ
hex_value c =
    if leb 48 c && leb c 57
    then some (c - 48)
    else if leb 97 c && leb c 102
    then some (c - 87)
    else if leb 65 c && leb c 70
    then some (c - 55)
    else none

-- The value of a run of hex digits, none when one is no digit.
radix_value : ℕ → Text → Option ℕ
unfolding hex_value
radix_value n [] = some n
radix_value n (c ∷ s) = elim (hex_value c) [ none ↦ none | some d ↦ radix_value (n * 16 + d) s ]

skip_plus : Text → Text
skip_plus [] = []
skip_plus (c ∷ s) = if c == b'+' then s else c ∷ s

abbrev is_empty : Text → Bool
is_empty [] = true
is_empty (c ∷ s) = false

-- `ConfigHash::from_str`, which is `u64::from_str_radix(s, 16)`: digits after at most one `+`, of
-- a value below 2 ^ 64.
unfoldable pub parse_hash : Text → Option ℕ
unfolding radix_value skip_plus
parse_hash s =
    let digits = skip_plus s in
    elim (radix_value 0 digits) [
      | none ↦ none
      | some n ↦
          if is_empty digits then none else if ltb n 0x1_0000_0000_0000_0000 then some n else none
    ]

-- What is left of a number when `count` hex digits are taken off.
shifted : ℕ → ℕ → ℕ
shifted zero n = n
shifted (suc count) n = shifted count (n / 16)

hex_value-hex_digit : (n : ℕ) → hex_value (hex_digit (n % 16)) ≡ some (n % 16)
unfolding hex_value hex_digit
hex_value-hex_digit n = elim (Bool-cases (ltb (n % 16) 10)) [
  | inl e ↦ ground (arith, e)
  | inr e ↦ ground (arith, e)
]

radix_value-digit :
    (n c d : ℕ) (s : Text)
    → hex_value c ≡ some d
    → radix_value n (c ∷ s) ≡ radix_value (n * 16 + d) s
unfolding radix_value
radix_value-digit n c d s h = rw (radix_value, h)

radix_value-hex_digits :
    (count n : ℕ) (acc : Text)
    → shifted count n ≡ 0
    → radix_value 0 (hex_digits count n acc) ≡ radix_value n acc
unfolding shifted hex_digits radix_value
radix_value-hex_digits zero n acc h = rw h
radix_value-hex_digits (suc count) n acc h =
    radix_value-hex_digits count (n / 16) (hex_digit (n % 16) ∷ acc) h
    ∙ (radix_value-digit (n / 16) (hex_digit (n % 16)) (n % 16) acc (hex_value-hex_digit n)
        ∙ ap (λ m. radix_value m acc) (omega arith))

hex_digits-is_empty :
    (count n : ℕ) (acc : Text) → is_empty acc ≡ false → is_empty (hex_digits count n acc) ≡ false
unfolding hex_digits
hex_digits-is_empty zero n acc h = h
hex_digits-is_empty (suc count) n acc h =
    hex_digits-is_empty count (n / 16) (hex_digit (n % 16) ∷ acc) refl

abbrev no_plus : ℕ → Bool
no_plus c = not (c == b'+')

hex_digits-no_plus :
    (count n : ℕ) (acc : Text)
    → all no_plus acc ≡ true
    → all no_plus (hex_digits count n acc) ≡ true
unfolding hex_digits hex_digit
hex_digits-no_plus zero n acc h = h
hex_digits-no_plus (suc count) n acc h =
    hex_digits-no_plus count (n / 16) (hex_digit (n % 16) ∷ acc) (ground arith)

skip_plus_none : (s : Text) → all no_plus s ≡ true → skip_plus s ≡ s
unfolding skip_plus
skip_plus_none [] h = refl
skip_plus_none (c ∷ s) h = ground arith

shifted-zero : (n : ℕ) → ltb n 0x1_0000_0000_0000_0000 ≡ true → shifted 16 n ≡ 0
unfolding shifted
shifted-zero n h = ground arith

parse_hash_of :
    (s : Text) (n : ℕ)
    → skip_plus s ≡ s
    → radix_value 0 s ≡ some n
    → is_empty s ≡ false
    → ltb n 0x1_0000_0000_0000_0000 ≡ true
    → parse_hash s ≡ some n
unfolding parse_hash
parse_hash_of s n e v h b = rw (parse_hash, e, v, e, h, b)

-- A 64-bit hash is read back from its 16 hex digits.
pub parse_hash-hex16 :
    (h : ℕ) → ltb h 0x1_0000_0000_0000_0000 ≡ true → parse_hash (hex16 h) ≡ some h
unfolding hex16 radix_value
parse_hash-hex16 h b =
    parse_hash_of (hex_digits 16 h []) h
      (skip_plus_none (hex_digits 16 h []) (hex_digits-no_plus 16 h [] refl))
      (radix_value-hex_digits 16 h [] (shifted-zero h b))
      (hex_digits-is_empty 15 (h / 16) (hex_digit (h % 16) ∷ []) refl) b
