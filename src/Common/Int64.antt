-- ===== src/Common/Int64.antt =====
-- Go's `int` and `int64`: a bit pattern below 2 ^ 64, read as two's complement. The comparisons
-- move the signed order to the order of the patterns by flipping the top bit.
use Prim.Native.Nat.{ℕ, ◌+◌, ◌-◌, ◌*◌, ◌%◌, ◌^◌}
use mathlib.Core.Bool.{Bool}
use nova_key_daemon.Common.Tests.{ltb, leb}

abbrev pub modulus : ℕ
modulus = 2 ^ 64

-- The smallest pattern that stands for a negative number.
abbrev pub sign_bit : ℕ
sign_bit = 2 ^ 63

abbrev pub add : ℕ → ℕ → ℕ
add a b = (a + b) % modulus

abbrev pub sub : ℕ → ℕ → ℕ
sub a b = (a + (modulus - b)) % modulus

abbrev pub mul : ℕ → ℕ → ℕ
mul a b = (a * b) % modulus

abbrev pub flip : ℕ → ℕ
flip a = (a + sign_bit) % modulus

-- The signed `<` and `<=`.
abbrev pub lt : ℕ → ℕ → Bool
lt a b = ltb (flip a) (flip b)

abbrev pub le : ℕ → ℕ → Bool
le a b = leb (flip a) (flip b)

-- The pattern of -n.
abbrev pub neg : ℕ → ℕ
neg n = (modulus - n) % modulus
