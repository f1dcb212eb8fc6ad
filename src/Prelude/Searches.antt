-- ===== src/Prelude/Searches.antt =====
-- Searches in rows that were appended, updated or deleted.
use mathlib.Core.Path.{◌≡◌, refl, subst, ap}
use mathlib.Core.Logic.{inl, inr}
use mathlib.Core.Bool.{Bool, true, false, not, ◌&&◌}
use mathlib.Core.List.{List, [], ◌∷◌, ◌++◌}
use mathlib.Core.Option
use mathlib.Core.Option.{Option, none, some}
use native.Mathlib.Omega.{arith}
use wispers_access.Prelude.Tests.{if◌then◌else◌, Bool-cases, leb, ltb}
use wispers_access.Prelude.Lists.{All, any, all, find, length, delete_where, update_where}

module _ {ℓ} {A : Type ℓ} (q : A → Bool) where
  pub find-append : (a : A) (xs ys : List A) → find q xs ≡ some a → find q (xs ++ ys) ≡ some a
  find-append a [] ys h = cc
  find-append a (x ∷ xs) ys h = ground (arith, find-append a xs ys)

  pub find_last :
      (v : A) (xs : List A)
      → any q xs ≡ false
      → find q (xs ++ v ∷ []) ≡ (if q v then some v else none)
  find_last v [] h = refl
  find_last v (x ∷ xs) h = ground (arith, find_last v xs)

  pub find-none : (xs : List A) → any q xs ≡ false → find q xs ≡ none
  find-none [] h = refl
  find-none (x ∷ xs) h = ground (arith, find-none xs)

  pub any-find : (a : A) (xs : List A) → find q xs ≡ some a → any q xs ≡ true
  any-find a [] h = cc
  any-find a (x ∷ xs) h = ground (arith, any-find a xs)

  -- What a search finds meets the condition.
  pub find_holds : (a : A) (xs : List A) → find q xs ≡ some a → q a ≡ true
  find_holds a [] h = cc
  find_holds a (x ∷ xs) h = ground (arith, find_holds a xs)

  pub find-update_where :
      (p : A → Bool) (f : A → A) (xs : List A)
      → ((a : A) → q (f a) ≡ q a)
      → find q (update_where p f xs) ≡ Option.map (λ x. if p x then f x else x) (find q xs)
  find-update_where p f [] keep = refl
  find-update_where p f (x ∷ xs) keep = ground (arith, keep x, find-update_where p f xs keep)

  pub find-delete_where :
      (p : A → Bool) (a : A) (xs : List A)
      → find q xs ≡ some a
      → p a ≡ false
      → find q (delete_where p xs) ≡ some a
  find-delete_where p a [] h k = cc
  find-delete_where p a (x ∷ xs) h k = ground (arith, find-delete_where p a xs)

  pub all-find :
      (p : A → Bool) (a : A) (xs : List A) → all p xs ≡ true → find q xs ≡ some a → p a ≡ true
  all-find p a [] h k = cc
  all-find p a (x ∷ xs) h k = ground (arith, all-find p a xs)

module _ {ℓ} {A : Type ℓ} (q : A → Bool) where
  pub all-update_where :
      (p : A → Bool) (f : A → A) (xs : List A)
      → ((a : A) → q (f a) ≡ q a)
      → all q (update_where p f xs) ≡ all q xs
  all-update_where p f [] keep = refl
  all-update_where p f (x ∷ xs) keep = ground (arith, keep x, all-update_where p f xs keep)

  pub all-delete_where :
      (p : A → Bool) (xs : List A) → all q xs ≡ true → all q (delete_where p xs) ≡ true
  all-delete_where p [] h = refl
  all-delete_where p (x ∷ xs) h = ground (arith, all-delete_where p xs)

module _ {ℓ} {A : Type ℓ} (q : A → Bool) where
  pub any_of_find : (xs : List A) → find q xs ≡ none → any q xs ≡ false
  any_of_find [] h = refl
  any_of_find (x ∷ xs) h = ground (arith, any_of_find xs)

  pub All_find {κ} : (P : A → Type κ) (a : A) (xs : List A) → All P xs → find q xs ≡ some a → P a
  All_find P a [] h e = absurd (cc e)
  All_find P a (x ∷ xs) h e = elim (Bool-cases (q x)) [
    | inl t ↦ let e' : x ≡ a = ground arith in subst P e' h.0
    | inr t ↦ All_find P a xs h.1 (ground arith)
  ]

  pub find_of_any : (xs : List A) → any q xs ≡ true → (a : A) × (find q xs ≡ some a)
  find_of_any [] h = absurd (cc h)
  find_of_any (x ∷ xs) h = elim (Bool-cases (q x)) [
    | inl t ↦ (x, rw t)
    | inr t ↦ let (a, e) = find_of_any xs (ground arith) in (a, rw t e)
  ]

  pub any_of_found :
      (p : A → Bool) (a : A) (xs : List A) → find q xs ≡ some a → p a ≡ true → any p xs ≡ true
  any_of_found p a [] h k = cc h
  any_of_found p a (x ∷ xs) h k = ground (arith, any_of_found p a xs)

pub all_implies {ℓ} :
    {A : Type ℓ} (p q : A → Bool) (xs : List A)
    → ((x : A) → p x ≡ true → q x ≡ true)
    → all p xs ≡ true
    → all q xs ≡ true
all_implies p q [] f h = refl
all_implies p q (x ∷ xs) f h = ground (arith, f x, all_implies p q xs f)

pub length-delete_where {ℓ} :
    {A : Type ℓ} (p : A → Bool) (xs : List A) → leb (length (delete_where p xs)) (length xs) ≡ true
length-delete_where p [] = refl
length-delete_where p (x ∷ xs) = ground (arith, length-delete_where p xs)

-- A deletion that deletes something.
pub length-delete_where_some {ℓ} :
    {A : Type ℓ} (p : A → Bool) (xs : List A)
    → any p xs ≡ true
    → ltb (length (delete_where p xs)) (length xs) ≡ true
length-delete_where_some p [] h = cc h
length-delete_where_some p (x ∷ xs) h =
    ground (arith, length-delete_where p xs, length-delete_where_some p xs)

pub any-delete_where_other {ℓ} :
    {A : Type ℓ} (p q : A → Bool) (xs : List A)
    → ((x : A) → q x ≡ true → p x ≡ false)
    → any q xs ≡ true
    → any q (delete_where p xs) ≡ true
any-delete_where_other p q [] other h = h
any-delete_where_other p q (x ∷ xs) other h =
    ground (arith, other x, any-delete_where_other p q xs other)

pub all-update_where_to {ℓ} :
    {A : Type ℓ} (q p : A → Bool) (f : A → A) (xs : List A)
    → ((a : A) → q a ≡ true → q (f a) ≡ true)
    → all q xs ≡ true
    → all q (update_where p f xs) ≡ true
all-update_where_to q p f [] to h = refl
all-update_where_to q p f (x ∷ xs) to h = ground (arith, to x, all-update_where_to q p f xs to)

pub delete_where_none {ℓ} :
    {A : Type ℓ} (p : A → Bool) (xs : List A)
    → all (λ x. not (p x)) xs ≡ true
    → delete_where p xs ≡ xs
delete_where_none p [] h = refl
delete_where_none p (x ∷ xs) h = ground (arith, delete_where_none p xs)

pub any_never {ℓ} :
    {A : Type ℓ} (p : A → Bool) (xs : List A) → ((x : A) → p x ≡ false) → any p xs ≡ false
any_never p [] h = refl
any_never p (x ∷ xs) h = ground (arith, h x, any_never p xs h)

pub any-update_where_key {ℓ} :
    {A : Type ℓ} (q p : A → Bool) (f : A → A) (xs : List A)
    → ((a : A) → q (f a) ≡ q a)
    → any q (update_where p f xs) ≡ any q xs
any-update_where_key q p f [] keep = refl
any-update_where_key q p f (x ∷ xs) keep =
    ground (arith, keep x, any-update_where_key q p f xs keep)

pub any_swap {ℓ} :
    {A : Type ℓ} (p q : A → Bool) (xs : List A) → ((x : A) → p x ≡ q x) → any p xs ≡ any q xs
any_swap p q [] h = refl
any_swap p q (x ∷ xs) h = ground (arith, h x, any_swap p q xs h)

pub any-append_left {ℓ} :
    {A : Type ℓ} (p : A → Bool) (xs ys : List A) → any p xs ≡ true → any p (xs ++ ys) ≡ true
any-append_left p [] ys h = cc h
any-append_left p (x ∷ xs) ys h = ground (arith, any-append_left p xs ys)

-- A row that is not deleted is still there.
pub any-delete_where_kept {ℓ} :
    {A : Type ℓ} (p q : A → Bool) (xs : List A)
    → any q xs ≡ true
    → any (λ x. q x && p x) xs ≡ false
    → any q (delete_where p xs) ≡ true
any-delete_where_kept p q [] h k = h
any-delete_where_kept p q (x ∷ xs) h k = ground (arith, any-delete_where_kept p q xs)

pub update_where_none {ℓ} :
    {A : Type ℓ} (p : A → Bool) (f : A → A) (xs : List A)
    → any p xs ≡ false
    → update_where p f xs ≡ xs
update_where_none p f [] h = refl
update_where_none p f (x ∷ xs) h = ground (arith, update_where_none p f xs)

-- What a deletion leaves does not depend on an update of what it deletes.
pub delete_where-update_where {ℓ} :
    {A : Type ℓ} (p : A → Bool) (f : A → A) (xs : List A)
    → ((a : A) → p (f a) ≡ p a)
    → delete_where p (update_where p f xs) ≡ delete_where p xs
delete_where-update_where p f [] keep = refl
delete_where-update_where p f (x ∷ xs) keep = elim (Bool-cases (p x)) [
  | inl e ↦ rw (e, keep x, e) (delete_where-update_where p f xs keep)
  | inr e ↦ rw (e, e) (ap (◌∷◌ x) (delete_where-update_where p f xs keep))
]

pub delete_where_last {ℓ} :
    {A : Type ℓ} (p : A → Bool) (a : A) (xs : List A)
    → p a ≡ true
    → delete_where p (xs ++ a ∷ []) ≡ delete_where p xs
delete_where_last p a [] h = rw h refl
delete_where_last p a (x ∷ xs) h = ground (arith, delete_where_last p a xs h)

pub delete_where_twice {ℓ} :
    {A : Type ℓ} (p : A → Bool) (xs : List A)
    → delete_where p (delete_where p xs) ≡ delete_where p xs
delete_where_twice p [] = refl
delete_where_twice p (x ∷ xs) = ground (arith, delete_where_twice p xs)

pub delete_where_swap {ℓ} :
    {A : Type ℓ} (p q : A → Bool) (xs : List A)
    → ((x : A) → p x ≡ q x)
    → delete_where p xs ≡ delete_where q xs
delete_where_swap p q [] h = refl
delete_where_swap p q (x ∷ xs) h = ground (arith, h x, delete_where_swap p q xs h)
