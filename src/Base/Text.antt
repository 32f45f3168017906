-- ===== src/Base/Text.antt =====
-- A Go string is a sequence of bytes.
use Prim.Native.Nat.{ℕ}
use mathlib.Core.Path.{◌≡◌, refl}
use mathlib.Core.Logic.{◌↔◌}
use mathlib.Core.Bool.{Bool, true, false, ◌&&◌, ◌||◌}
use mathlib.Core.List.{List, [], ◌∷◌, ◌++◌}
use native.Mathlib.Omega.{arith}
use grid_kv.Base.Tests.{◌==◌}

abbrev pub Str : Type 0
Str = List ℕ

-- `s == t`
unfoldable pub str_eq : Str → Str → Bool
str_eq [] [] = true
str_eq (x ∷ xs) (y ∷ ys) = (x == y) && str_eq xs ys
str_eq _ _ = false

-- `s == ""`
abbrev pub is_empty : Str → Bool
is_empty [] = true
is_empty (x ∷ xs) = false

pub str_eq_refl : (s : Str) → str_eq s s ≡ true
unfolding str_eq
str_eq_refl [] = refl
str_eq_refl (x ∷ xs) = ground (arith, str_eq_refl xs)

str_eq→eq : (s t : Str) → str_eq s t ≡ true → s ≡ t
unfolding str_eq
str_eq→eq [] [] h = refl
str_eq→eq (x ∷ xs) (y ∷ ys) h = ground (arith, str_eq→eq xs ys)
str_eq→eq [] (y ∷ ys) h = cc
str_eq→eq (x ∷ xs) [] h = cc

eq→str_eq : (s t : Str) → s ≡ t → str_eq s t ≡ true
eq→str_eq s t e = rw e (str_eq_refl t)

pub str_eq_iff : (s t : Str) → (str_eq s t ≡ true) ↔ (s ≡ t)
str_eq_iff s t = (str_eq→eq s t, eq→str_eq s t)

-- `s` is one of `ss`.
unfoldable pub contains : Str → List Str → Bool
contains s [] = false
contains s (t ∷ ss) = str_eq t s || contains s ss

-- No string stands twice.
abbrev pub NoRepeat : List Str → Type 0
NoRepeat [] = Unit
NoRepeat (s ∷ ss) = (contains s ss ≡ false) × NoRepeat ss

pub contains-append :
    (s : Str) (xs ys : List Str) → contains s (xs ++ ys) ≡ contains s xs || contains s ys
unfolding contains
contains-append s [] ys = refl
contains-append s (x ∷ xs) ys = ground (arith, contains-append s xs ys)

pub NoRepeat-snoc :
    (s : Str) (xs : List Str) → NoRepeat xs → contains s xs ≡ false → NoRepeat (xs ++ s ∷ [])
unfolding contains
NoRepeat-snoc s [] n c = (refl, tt)
NoRepeat-snoc s (x ∷ xs) n c =
    ground
      (arith, NoRepeat-snoc s xs n.1, contains-append x xs (s ∷ []), str_eq_iff x s, str_eq_iff s x)
