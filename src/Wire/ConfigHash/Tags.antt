-- ===== src/Wire/ConfigHash/Tags.antt =====
-- Entity tags of different hashes, wire/src/lib.rs, lines 739 to 752.
use wispers_access.Prelude.{
  Bool, List, all, any, codes, if◌then◌else◌, map, not, split, split_field, text_eq_refl, trim,
  trim_none, is_whitespace, Bool-cases, Text, [], ap, arith, false, inl, inr, length, length-append,
  ltb, refl, split_none, strip_prefix, sym, text_eq, text_eq_iff, true, ℕ, ◌++◌, ◌==◌, ◌∙◌, ◌∷◌,
  ◌≡◌,
}
use wispers_access.Wire.ConfigHash.{
  trim-etag, no_space, no_comma, etag, hex16, matches_if_none_match, matches_if_none_match-etag,
  parse_hash, parse_hash-hex16, tag_matches,
}

append_one_injective : (c : ℕ) (s t : Text) → s ++ (c ∷ []) ≡ t ++ (c ∷ []) → s ≡ t
append_one_injective c [] [] h = refl
append_one_injective c [] (y ∷ t) h = absurd (omega (arith, ap length h, length-append t (c ∷ [])))
append_one_injective c (x ∷ s) [] h = absurd (omega (arith, ap length h, length-append s (c ∷ [])))
append_one_injective c (x ∷ s) (y ∷ t) h = ground (arith, append_one_injective c s t)

hex16-injective :
    (h k : ℕ)
    → ltb h 0x1_0000_0000_0000_0000 ≡ true
    → ltb k 0x1_0000_0000_0000_0000 ≡ true
    → hex16 h ≡ hex16 k
    → h ≡ k
hex16-injective h k b c e =
    let p = sym (parse_hash-hex16 h b) ∙ (ap parse_hash e ∙ parse_hash-hex16 k c) in cc p

etag-injective :
    (h k : ℕ)
    → ltb h 0x1_0000_0000_0000_0000 ≡ true
    → ltb k 0x1_0000_0000_0000_0000 ≡ true
    → etag h ≡ etag k
    → h ≡ k
unfolding etag
etag-injective h k b c e =
    hex16-injective h k b c (append_one_injective 34 (hex16 h) (hex16 k) (cc e))

tag_matches_other :
    (h k : ℕ) → text_eq (etag k) (etag h) ≡ false → tag_matches (etag h) (etag k) ≡ false
unfolding tag_matches etag text_eq strip_prefix
tag_matches_other h k e = ground arith

-- A 64-bit hash is matched by its own entity tag and by that of no other.
pub matches_if_none_match_one :
    (h k : ℕ)
    → ltb h 0x1_0000_0000_0000_0000 ≡ true
    → ltb k 0x1_0000_0000_0000_0000 ≡ true
    → matches_if_none_match h (etag k) ≡ (k == h)
unfolding matches_if_none_match
matches_if_none_match_one h k b c = elim (Bool-cases (k == h)) [
  | inl e ↦
      let same : k ≡ h = ground (arith, e) in
      rw e (ap (λ n. matches_if_none_match h (etag n)) same ∙ (matches_if_none_match-etag h []).0)
  | inr e ↦ elim (Bool-cases (text_eq (etag k) (etag h))) [
    | inl f ↦
        absurd (ground (arith, e, etag-injective k h c b ((text_eq_iff (etag k) (etag h)).0 f)))
    | inr f ↦
        rw (split_none b',' (etag k) (no_comma k))
          (rw (trim-etag k) (rw (tag_matches_other h k f) (sym e)))
  ]
]

text_eq-etag :
    (h k : ℕ)
    → ltb h 0x1_0000_0000_0000_0000 ≡ true
    → ltb k 0x1_0000_0000_0000_0000 ≡ true
    → text_eq (etag k) (etag h) ≡ (k == h)
text_eq-etag h k b c = elim (Bool-cases (k == h)) [
  | inl e ↦
      let same : k ≡ h = ground (arith, e) in
      rw e (ap (λ n. text_eq (etag n) (etag h)) same ∙ text_eq_refl (etag h))
  | inr e ↦ elim (Bool-cases (text_eq (etag k) (etag h))) [
    | inl f ↦
        absurd (ground (arith, e, etag-injective k h c b ((text_eq_iff (etag k) (etag h)).0 f)))
    | inr f ↦ rw (e, f) refl
  ]
]

-- The entity tag of a hash, strong or weak.
abbrev pub marked : ℕ × Bool → Text
marked (h, weak) = if weak then codes "W/" ++ etag h else etag h

weak_tag : (v s : Text) → tag_matches (b'"' ∷ v) (codes "W/" ++ s) ≡ text_eq s (b'"' ∷ v)
unfolding tag_matches text_eq strip_prefix
weak_tag v s = refl

strong_tag : (v w : Text) → tag_matches (b'"' ∷ v) (b'"' ∷ w) ≡ text_eq (b'"' ∷ w) (b'"' ∷ v)
unfolding tag_matches text_eq strip_prefix
strong_tag v w = ground arith

tag_matches-marked :
    (h : ℕ) (t : ℕ × Bool) → tag_matches (etag h) (marked t) ≡ text_eq (etag t.0) (etag h)
unfolding etag
tag_matches-marked h (k, true) = weak_tag (hex16 h ++ codes "\"") (etag k)
tag_matches-marked h (k, false) = strong_tag (hex16 h ++ codes "\"") (hex16 k ++ codes "\"")

no_comma-marked : (t : ℕ × Bool) → all (λ c. not (c == b',')) (marked t) ≡ true
no_comma-marked (h, true) = no_comma h
no_comma-marked (h, false) = no_comma h

trim-marked : (t : ℕ × Bool) → trim (marked t) ≡ marked t
unfolding is_whitespace
trim-marked (h, true) = trim_none (codes "W/" ++ etag h) (no_space h)
trim-marked (h, false) = trim-etag h

trim-space : (s : Text) → trim (b' ' ∷ s) ≡ trim s
unfolding trim
trim-space s = refl

-- Fields with commas between them.
joined : Text → List Text → Text
joined f [] = f
joined f (g ∷ fs) = f ++ (b',' ∷ joined g fs)

split-joined :
    (f : Text) (fs : List Text)
    → all (all (λ c. not (c == b','))) (f ∷ fs) ≡ true
    → split b',' (joined f fs) ≡ f ∷ fs
unfolding joined
split-joined f [] h = split_none b',' f (ground (arith, h))
split-joined f (g ∷ fs) h =
    split_field b',' f (joined g fs) (ground (arith, h))
    ∙ ap (◌∷◌ f) (split-joined g fs (ground (arith, h)))

abbrev spaced : ℕ × Bool → Text
spaced t = b' ' ∷ marked t

-- An `If-None-Match` of entity tags with a space after each comma.
unfoldable pub listed : ℕ × Bool → List (ℕ × Bool) → Text
unfolding joined
listed t ts = joined (marked t) (map spaced ts)

abbrev pub fits : ℕ × Bool → Bool
fits t = ltb t.0 0x1_0000_0000_0000_0000

module _ (h : ℕ) (bound : ltb h 0x1_0000_0000_0000_0000 ≡ true) where
  marked-matches :
      (t : ℕ × Bool) → fits t ≡ true → tag_matches (etag h) (trim (marked t)) ≡ (t.0 == h)
  marked-matches t c = rw (trim-marked t) (tag_matches-marked h t ∙ text_eq-etag h t.0 bound c)

  any-spaced :
      (ts : List (ℕ × Bool))
      → all fits ts ≡ true
      → any (λ tag. tag_matches (etag h) (trim tag)) (map spaced ts) ≡ any (λ t. t.0 == h) ts
  any-spaced [] c = refl
  any-spaced (t ∷ ts) c =
      rw
        (
          trim-space (marked t),
          marked-matches t (ground (arith, c)),
          any-spaced ts (ground (arith, c)),
        )
        refl

  no_commas : (ts : List (ℕ × Bool)) → all (all (λ c. not (c == b','))) (map spaced ts) ≡ true
  no_commas [] = refl
  no_commas (t ∷ ts) = ground (arith, no_comma-marked t, no_commas ts)

  -- A list of the entity tags of 64-bit hashes, each strong or weak, matches a 64-bit hash exactly
  -- when the hash is one of them, at whatever place.
  pub matches_if_none_match-listed :
      (t : ℕ × Bool) (ts : List (ℕ × Bool))
      → all fits (t ∷ ts) ≡ true
      → matches_if_none_match h (listed t ts) ≡ any (λ u. u.0 == h) (t ∷ ts)
  unfolding matches_if_none_match listed
  matches_if_none_match-listed t ts c =
      rw (split-joined (marked t) (map spaced ts) (ground (arith, no_comma-marked t, no_commas ts)))
        (rw (marked-matches t (ground (arith, c)), any-spaced ts (ground (arith, c))) refl)
