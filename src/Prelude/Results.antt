-- ===== src/Prelude/Results.antt =====
-- Rust's `Result`, with `?` as bind.
use wispers_access.Prelude.Lists.{All}
use mathlib.Core.Path.{subst}
use mathlib.Core.Path.{◌≡◌, refl}
use mathlib.Core.Bool.{Bool, true, false}
use mathlib.Core.Option.{Option, none, some}
use mathlib.Core.List.{List, [], ◌∷◌}

pub data Result {ℓ} (E A : Type ℓ) : Type ℓ where
  ok : A → Result E A
  err : E → Result E A

module _ {ℓ} {E A B : Type ℓ} where
  infixl 5 ◌>>=◌
  abbrev pub ◌>>=◌ : Result E A → (A → Result E B) → Result E B
  ok a >>= f = f a
  err e >>= f = err e

  pub bind-eq-ok :
      (m : Result E A) (f : A → Result E B) {b : B}
      → (m >>= f) ≡ ok b
      → (a : A) × (m ≡ ok a) × (f a ≡ ok b)
  bind-eq-ok (ok a) f h = (a, refl, h)
  bind-eq-ok (err e) f h = cc

module _ {ℓ} {E A B : Type ℓ} where
  -- `iter().map(f).collect::<Result<Vec<_>, _>>()`: the first error wins.
  abbrev pub try_map : (A → Result E B) → List A → Result E (List B)
  try_map f [] = ok []
  try_map f (x ∷ xs) = f x >>= λ y. try_map f xs >>= λ ys. ok (y ∷ ys)

module _ {ℓ} {E A : Type ℓ} where
  abbrev pub ok_or : Option A → E → Result E A
  ok_or none e = err e
  ok_or (some a) e = ok a

  pub ok_or-eq-ok : (o : Option A) (e : E) {a : A} → ok_or o e ≡ ok a → o ≡ some a
  ok_or-eq-ok none e h = cc h
  ok_or-eq-ok (some x) e h = cc h

  abbrev pub guard : Bool → E → Result E A → Result E A
  guard true e rest = rest
  guard false e rest = err e

module _ {ℓ} {E F A : Type ℓ} where
  abbrev pub map_err : (E → F) → Result E A → Result F A
  map_err f (ok a) = ok a
  map_err f (err e) = err (f e)

module _ {ℓ} {E F A : Type ℓ} where
  pub map_err-eq-ok : (f : E → F) (m : Result E A) {a : A} → map_err f m ≡ ok a → m ≡ ok a
  map_err-eq-ok f (ok x) h = cc h
  map_err-eq-ok f (err e) h = cc h

pub ok-injective {ℓ} : {E A : Type ℓ} {a b : A} → Path (Result E A) (ok a) (ok b) → a ≡ b
ok-injective h = cc h

-- What holds of each result of `f` holds of the results of `try_map f`.
pub try_map-All {ℓ κ} :
    {E A B : Type ℓ} (f : A → Result E B) (P : B → Type κ)
    → ((a : A) (b : B) → f a ≡ ok b → P b)
    → (xs : List A) (ys : List B) → try_map f xs ≡ ok ys
    → All P ys
try_map-All f P step [] ys h = subst (λ (l : List _). All P l) (ok-injective h) tt
try_map-All f P step (x ∷ xs) ys h =
    let (y, e, k) = bind-eq-ok (f x) (λ y. try_map f xs >>= λ ys. ok (y ∷ ys)) h in
    let (zs, e', k') = bind-eq-ok (try_map f xs) (λ ys. ok (y ∷ ys)) k in
    subst (λ (l : List _). All P l) (ok-injective k') (step x y e, try_map-All f P step xs zs e')
