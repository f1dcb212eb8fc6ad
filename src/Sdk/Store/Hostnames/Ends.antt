-- ===== src/Sdk/Store/Hostnames/Ends.antt =====
-- The loop of `write_deduped_hostname`, sdk/src/storage.rs, lines 138 to 168: how many candidates it
-- tries.
use wispers_access.Sdk.Store.Rows.{is_text}
use wispers_access.Prelude.{
  Option, none, some, text_eq_iff, sym, ◌∙◌, Bool, Bool-cases, List, Text, any, ap, arith,
  delete_where, false, inl, inr, leb, length, length-append, ltb, refl, strip_prefix,
  strip_prefix-append, suc, text_eq, true, zero, ℕ, ◌&&◌, ◌++◌, ◌==◌, ◌∷◌, ◌≡◌,
}
use wispers_access.Prelude.Decimals.{to_decimal, to_decimal-injective}
use wispers_access.Prelude.Searches.{any-delete_where_other, length-delete_where_some}
use wispers_access.Sdk.Store.Db.{ShareRow}
use wispers_access.Sdk.Store.Hostnames.{candidate, taken_by}

append_cancel : (s t u : Text) → s ++ t ≡ s ++ u → t ≡ u
append_cancel s t u h =
    ground (arith, strip_prefix-append s t, strip_prefix-append s u, ap (strip_prefix s) h)

append_longer : (s : Text) (c : ℕ) (t : Text) → ¬ (s ≡ s ++ (c ∷ t))
append_longer s c t h = omega (arith, ap length h, length-append s (c ∷ t))

candidate-first : (hostname : Text) (n : ℕ) → (n == 1) ≡ true → candidate hostname n ≡ hostname
unfolding candidate
candidate-first hostname n h = rw (candidate, h)

candidate-later :
    (hostname : Text) (n : ℕ)
    → (n == 1) ≡ false
    → candidate hostname n ≡ hostname ++ (b'-' ∷ to_decimal n)
unfolding candidate
candidate-later hostname n h = rw (candidate, h)

pub candidate-injective :
    (hostname : Text) (m n : ℕ) → candidate hostname m ≡ candidate hostname n → m ≡ n
candidate-injective hostname m n h = elim (Bool-cases (m == 1)) [
  | inl a ↦ elim (Bool-cases (n == 1)) [
    | inl b ↦ ground (arith, a, b)
    | inr b ↦ absurd (
        append_longer hostname b'-' (to_decimal n)
          (ground (arith, candidate-first hostname m a, candidate-later hostname n b, h)))
  ]
  | inr a ↦ elim (Bool-cases (n == 1)) [
    | inl b ↦ absurd (
        append_longer hostname b'-' (to_decimal m)
          (ground (arith, candidate-later hostname m a, candidate-first hostname n b, h)))
    | inr b ↦ to_decimal-injective m n (
        ground (
          arith,
          append_cancel hostname (b'-' ∷ to_decimal m) (b'-' ∷ to_decimal n)
              (sym (candidate-later hostname m a) ∙ (h ∙ candidate-later hostname n b)),
        ))
  ]
]

-- Each of `count` candidates from the nth on is taken.
unfoldable pub all_taken : ℕ → Text → ℕ → ℕ → List ShareRow → Bool
unfolding text_eq
all_taken id hostname zero n rows = true
all_taken id hostname (suc count) n rows =
    any (taken_by id (candidate hostname n)) rows && all_taken id hostname count (suc n) rows

is_text_one : (s t : Text) (o : Option Text) → is_text s o ≡ true → is_text t o ≡ true → s ≡ t
is_text_one s t none h k = cc h
is_text_one s t (some u) h k = ground (arith, text_eq_iff u s, text_eq_iff u t)

taken_by_one :
    (id : ℕ) (hostname : Text) (m n : ℕ) (r : ShareRow)
    → ltb n m ≡ true
    → taken_by id (candidate hostname m) r ≡ true
    → taken_by id (candidate hostname n) r ≡ false
taken_by_one id hostname m n r l h = elim (Bool-cases (is_text (candidate hostname n) r.hostname)) [
  | inl e ↦
      let a : is_text (candidate hostname m) r.hostname ≡ true = ground arith in
      absurd (
        ground (
          arith,
          candidate-injective hostname m n
              (is_text_one (candidate hostname m) (candidate hostname n) r.hostname a e),
        ))
  | inr e ↦ rw e (ground arith)
]

all_taken-delete_where :
    (id : ℕ) (hostname : Text) (n count m : ℕ) (rows : List ShareRow)
    → ltb n m ≡ true
    → all_taken id hostname count m rows ≡ true
    → all_taken id hostname count m (delete_where (taken_by id (candidate hostname n)) rows) ≡ true
unfolding all_taken
all_taken-delete_where id hostname n zero m rows l h = refl
all_taken-delete_where id hostname n (suc count) m rows l h = ground (
  arith,
  any-delete_where_other (taken_by id (candidate hostname n)) (taken_by id (candidate hostname m))
      rows (λ r. taken_by_one id hostname m n r l),
  all_taken-delete_where id hostname n count (suc m) rows (ground arith),
)

-- Candidates differ, so that as many rows hold them.
pub all_taken-length :
    (id : ℕ) (hostname : Text) (count n : ℕ) (rows : List ShareRow)
    → all_taken id hostname count n rows ≡ true
    → leb count (length rows) ≡ true
unfolding all_taken
all_taken-length id hostname zero n rows h = ground arith
all_taken-length id hostname (suc count) n rows h =
    let p = taken_by id (candidate hostname n) in
    ground (
      arith,
      length-delete_where_some p rows,
      all_taken-length id hostname count (suc n) (delete_where p rows)
          (all_taken-delete_where id hostname n count (suc n) rows (ground arith) (ground arith)),
    )
