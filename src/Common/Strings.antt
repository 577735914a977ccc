-- ===== src/Common/Strings.antt =====
-- Go's `string` and `[]byte`: a list of bytes. `=?` is Go's `==` on strings, as a decision whose
-- split gives a proof the equation or its negation.
use Prim.Native.Nat.{ℕ}
use Prim.Native.Char.{code}
use Prim.Native.String.{String}
use mathlib.Core.Path.{◌≡◌, refl}
use mathlib.Core.Logic.{ite}
use mathlib.Core.Bool.{Bool, true, false, ◌||◌}
use mathlib.Core.List.{List, [], ◌∷◌}
use native.Mathlib.Omega.{arith}
use native.Mathlib.Decide.{ℕ_discrete}

abbrev pub Bytes : Type 0
Bytes = List ℕ

-- The code points of a literal; these are its bytes, since every literal here is ASCII.
abbrev pub codes : String → Bytes
codes String.[] = []
codes (String.◌∷◌ c s) = code c ∷ codes s

cons-dec : (x y : ℕ) (xs ys : Bytes) → Dec (x ≡ y) → Dec (xs ≡ ys) → Dec (x ∷ xs ≡ y ∷ ys)
cons-dec x y xs ys (yes p) (yes q) = yes (cc)
cons-dec x y xs ys (yes p) (no q) = no (λ e. q (cc))
cons-dec x y xs ys (no p) d = no (λ e. p (cc))

unfoldable pub bytes_dec : Discrete Bytes
unfolding ℕ_discrete cons-dec
bytes_dec [] [] = yes refl
bytes_dec [] (y ∷ ys) = no (λ e. cc)
bytes_dec (x ∷ xs) [] = no (λ e. cc)
bytes_dec (x ∷ xs) (y ∷ ys) = cons-dec x y xs ys (ℕ_discrete x y) (bytes_dec xs ys)

infix 50 ◌=?◌
abbrev pub ◌=?◌ : Bytes → Bytes → Bool
a =? b = ite (bytes_dec a b) true false

pub =?_refl : (a : Bytes) → (a =? a) ≡ true
=?_refl a = ground arith

-- Membership, as the source tests it by a loop or by a map of the names seen.
abbrev pub contains : List Bytes → Bytes → Bool
contains [] a = false
contains (x ∷ xs) a = (a =? x) || contains xs a
