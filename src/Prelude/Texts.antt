-- ===== src/Prelude/Texts.antt =====
-- Texts are lists of code points. These are the `str` methods that the program calls.
use Prim.Native.Nat.{ℕ, ◌+◌}
use Prim.Native.Char.{code}
use Prim.Native.String.{String}
use mathlib.Core.Path.{◌≡◌, refl}
use mathlib.Core.Logic.{◌↔◌}
use mathlib.Core.Bool.{Bool, true, false, not, ◌&&◌, ◌||◌}
use mathlib.Core.List.{List, [], ◌∷◌, ◌++◌}
use mathlib.Core.Option.{Option, none, some}
use native.Mathlib.Omega.{arith}
use wispers_access.Prelude.Tests.{ltb, leb, ◌==◌, if◌then◌else◌, ==_refl}
use wispers_access.Prelude.Lists.{all}

abbrev pub Text : Type 0
Text = List ℕ

abbrev pub codes : String → Text
codes String.[] = []
codes (String.◌∷◌ c s) = code c ∷ codes s

unfoldable pub text_eq : Text → Text → Bool
text_eq [] [] = true
text_eq [] (y ∷ ys) = false
text_eq (x ∷ xs) [] = false
text_eq (x ∷ xs) (y ∷ ys) = x == y && text_eq xs ys

pub text_eq_iff : (s t : Text) → (text_eq s t ≡ true) ↔ (s ≡ t)
unfolding text_eq
text_eq_iff [] [] = ground arith
text_eq_iff [] (y ∷ ys) = ground arith
text_eq_iff (x ∷ xs) [] = ground arith
text_eq_iff (x ∷ xs) (y ∷ ys) = ground (arith, text_eq_iff xs ys)

pub text_eq_refl : (s : Text) → text_eq s s ≡ true
text_eq_refl s = (text_eq_iff s s).1 refl

pub text_eq_sym : (s t : Text) → text_eq s t ≡ text_eq t s
text_eq_sym s t = ground (arith, text_eq_iff s t, text_eq_iff t s)

-- `str::strip_prefix` of a text.
unfoldable pub strip_prefix : Text → Text → Option Text
strip_prefix [] s = some s
strip_prefix (p ∷ ps) [] = none
strip_prefix (p ∷ ps) (c ∷ s) = if p == c then strip_prefix ps s else none

pub strip_prefix-append : (p s : Text) → strip_prefix p (p ++ s) ≡ some s
unfolding strip_prefix
strip_prefix-append [] s = refl
strip_prefix-append (c ∷ p) s = rw (==_refl c) (strip_prefix-append p s)

abbrev cons_head : ℕ → List Text → List Text
cons_head c [] = (c ∷ []) ∷ []
cons_head c (f ∷ fs) = (c ∷ f) ∷ fs

-- `str::split` at a character: at least one field.
unfoldable pub split : ℕ → Text → List Text
split sep [] = [] ∷ []
split sep (c ∷ s) = let rest = split sep s in if c == sep then [] ∷ rest else cons_head c rest

pub split_none : (sep : ℕ) (f : Text) → all (λ c. not (c == sep)) f ≡ true → split sep f ≡ f ∷ []
unfolding split
split_none sep [] h = refl
split_none sep (c ∷ f) h = ground (arith, split_none sep f)

pub split_field :
    (sep : ℕ) (f rest : Text)
    → all (λ c. not (c == sep)) f ≡ true
    → split sep (f ++ sep ∷ rest) ≡ f ∷ split sep rest
unfolding split
split_field sep [] rest h = rw (==_refl sep)
split_field sep (c ∷ f) rest h = ground (arith, split_field sep f rest)

-- `char::is_whitespace`: the code points with the Unicode property White_Space.
unfoldable pub is_whitespace : ℕ → Bool
is_whitespace c =
    (leb 0x9 c && leb c 0xd)
    || c == 0x20
    || c == 0x85
    || c == 0xa0
    || c == 0x1680
    || (leb 0x2000 c && leb c 0x200a)
    || c == 0x2028
    || c == 0x2029
    || c == 0x202f
    || c == 0x205f
    || c == 0x3000

unfoldable pub trim_start : Text → Text
trim_start [] = []
trim_start (c ∷ s) = let rest = trim_start s in if is_whitespace c then rest else c ∷ s

abbrev is_nil : Text → Bool
is_nil [] = true
is_nil (c ∷ s) = false

unfoldable pub trim_end : Text → Text
trim_end [] = []
trim_end (c ∷ s) = let rest = trim_end s in if is_nil rest && is_whitespace c then [] else c ∷ rest

unfoldable pub trim : Text → Text
unfolding trim_start trim_end is_whitespace
trim s = trim_end (trim_start s)

trim_start_none : (s : Text) → all (λ c. not (is_whitespace c)) s ≡ true → trim_start s ≡ s
unfolding trim_start
trim_start_none [] h = refl
trim_start_none (c ∷ s) h = ground arith

trim_end_none : (s : Text) → all (λ c. not (is_whitespace c)) s ≡ true → trim_end s ≡ s
unfolding trim_end
trim_end_none [] h = refl
trim_end_none (c ∷ s) h = ground (arith, trim_end_none s)

pub trim_none : (s : Text) → all (λ c. not (is_whitespace c)) s ≡ true → trim s ≡ s
unfolding trim
trim_none s h = rw (trim_start_none s h) (trim_end_none s h)

-- The length of a character in UTF-8, and `str::len`.
unfoldable pub utf8_len : ℕ → ℕ
utf8_len c = if ltb c 0x80 then 1 else if ltb c 0x800 then 2 else if ltb c 0x10000 then 3 else 4

unfoldable pub byte_len : Text → ℕ
unfolding utf8_len
byte_len [] = 0
byte_len (c ∷ s) = utf8_len c + byte_len s
