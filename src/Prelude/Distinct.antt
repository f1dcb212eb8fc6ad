-- ===== src/Prelude/Distinct.antt =====
-- Rows that no two of which have the same key: the SQL constraints PRIMARY KEY and UNIQUE.
use mathlib.Core.Logic.{inl, inr}
use mathlib.Core.Path.{◌≡◌, refl}
use mathlib.Core.Bool.{Bool, true, false}
use mathlib.Core.List.{List, [], ◌∷◌, ◌++◌}
use mathlib.Core.Option.{some}
use native.Mathlib.Omega.{arith}
use wispers_access.Prelude.Tests.{if◌then◌else◌, Bool-cases}
use wispers_access.Prelude.Lists.{any, find, delete_where, update_where}

module _ {ℓ} {A : Type ℓ} (same : A → A → Bool) where
  abbrev pub Distinct : List A → Type ℓ
  Distinct [] = Unit
  Distinct (x ∷ xs) = (any (same x) xs ≡ false) × Distinct xs

  any-append_one :
      (x v : A) (xs : List A)
      → any (same x) xs ≡ false
      → same x v ≡ false
      → any (same x) (xs ++ v ∷ []) ≡ false
  any-append_one x v [] h k = rw k
  any-append_one x v (y ∷ ys) h k = ground (arith, any-append_one x v ys)

  -- A new row goes in at the end when its key is free.
  pub Distinct-append_one :
      (v : A) (xs : List A) → Distinct xs → any (λ x. same x v) xs ≡ false → Distinct (xs ++ v ∷ [])
  Distinct-append_one v [] d h = (refl, tt)
  Distinct-append_one v (x ∷ xs) d h =
      (any-append_one x v xs d.0 (ground arith), Distinct-append_one v xs d.1 (ground arith))

  pub any-delete_where :
      (p q : A → Bool) (xs : List A) → any q xs ≡ false → any q (delete_where p xs) ≡ false
  any-delete_where p q [] h = refl
  any-delete_where p q (x ∷ xs) h = ground (arith, any-delete_where p q xs)

  pub Distinct-delete_where :
      (p : A → Bool) (xs : List A) → Distinct xs → Distinct (delete_where p xs)
  Distinct-delete_where p [] d = tt
  Distinct-delete_where p (x ∷ xs) d = elim (Bool-cases (p x)) [
    | inl e ↦ rw e (Distinct-delete_where p xs d.1)
    | inr e ↦ rw e (any-delete_where p (same x) xs d.0, Distinct-delete_where p xs d.1)
  ]

  module _ (f : A → A) (left : (a b : A) → same (f a) b ≡ same a b)
      (right : (a b : A) → same a (f b) ≡ same a b) (p : A → Bool) where
    same-update : (a x : A) → same a (if p x then f x else x) ≡ same a x
    same-update a x = ground (arith, right a x)

    any-update_where : (a : A) (xs : List A) → any (same a) (update_where p f xs) ≡ any (same a) xs
    any-update_where a [] = refl
    any-update_where a (x ∷ xs) = rw (same-update a x, any-update_where a xs)

    any-head : (x : A) (xs : List A) → any (same (f x)) xs ≡ any (same x) xs
    any-head x [] = refl
    any-head x (y ∷ ys) = rw (left x y, any-head x ys)

    -- An update that leaves the key alone.
    pub Distinct-update_where : (xs : List A) → Distinct xs → Distinct (update_where p f xs)
    Distinct-update_where [] d = tt
    Distinct-update_where (x ∷ xs) d = (
      ground (arith, any-update_where x xs, any-update_where (f x) xs, any-head x xs),
      Distinct-update_where xs d.1,
    )

  same-of_find :
      (x a : A) (p : A → Bool) (xs : List A)
      → any (same x) xs ≡ false
      → find p xs ≡ some a
      → same x a ≡ false
  same-of_find x a p [] h e = cc
  same-of_find x a p (y ∷ ys) h e = ground (arith, same-of_find x a p ys)

  -- A row that any search finds is found by its key.
  pub find_by_key :
      (refl_same : (a : A) → same a a ≡ true) (a : A) (p : A → Bool) (xs : List A)
      → Distinct xs
      → find p xs ≡ some a
      → find (λ x. same x a) xs ≡ some a
  find_by_key r a p [] d e = e
  find_by_key r a p (x ∷ xs) d e = elim (Bool-cases (p x)) [
    | inl t ↦ ground (arith, r x)
    | inr t ↦ ground (arith, same-of_find x a p xs, find_by_key r a p xs)
  ]
