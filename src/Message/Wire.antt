-- ===== src/Message/Wire.antt =====
-- Big-endian numbers and slices, as `encoding/binary` and Go's slice expressions give them.
use nova_key_daemon.Common.{
  ℕ, zero, suc, ◌+◌, ◌-◌, ◌*◌, ◌/◌, ◌%◌, ◌^◌, ◌<◌, ◌≡◌, [], ◌∷◌, ◌++◌, arith, Bytes, take, drop,
  length, take-append, drop-append, sym,
}

-- `b[i]`. Go panics out of range; every use stands behind a test of the length.
abbrev pub byte_at : Bytes → ℕ → ℕ
byte_at [] i = 0
byte_at (c ∷ s) zero = c
byte_at (c ∷ s) (suc i) = byte_at s i

-- `b[i:j]`, in range behind the tests of the length.
abbrev pub slice : Bytes → ℕ → ℕ → Bytes
slice b i j = take (j - i) (drop i b)

-- `BigEndian.Uint16`, `Uint32`, `Uint64` of a slice of that width.
abbrev pub be_from : ℕ → Bytes → ℕ
be_from n [] = n
be_from n (c ∷ s) = be_from (n * 256 + c) s

abbrev pub be : Bytes → ℕ
be = be_from 0

-- `PutUint16` and so on: the lowest byte of the number, and of the number shifted by 8, 16, …
abbrev pub put_u16 : ℕ → Bytes
put_u16 n = n / 256 % 256 ∷ n % 256 ∷ []

abbrev pub put_u32 : ℕ → Bytes
put_u32 n = n / 2 ^ 24 % 256 ∷ n / 2 ^ 16 % 256 ∷ n / 256 % 256 ∷ n % 256 ∷ []

abbrev pub put_u64 : ℕ → Bytes
put_u64 n =
    n / 2 ^ 56 % 256
    ∷ n / 2 ^ 48 % 256
    ∷ n / 2 ^ 40 % 256
    ∷ n / 2 ^ 32 % 256
    ∷ n / 2 ^ 24 % 256
    ∷ n / 2 ^ 16 % 256
    ∷ n / 256 % 256
    ∷ n % 256
    ∷ []

pub be-put_u16 : (n : ℕ) → n < 2 ^ 16 → be (put_u16 n) ≡ n
be-put_u16 n h = omega arith

pub be-put_u32 : (n : ℕ) → n < 2 ^ 32 → be (put_u32 n) ≡ n
be-put_u32 n h = omega arith

pub be-put_u64 : (n : ℕ) → n < 2 ^ 64 → be (put_u64 n) ≡ n
be-put_u64 n h = omega arith

abbrev pub IsByte : ℕ → Type 0
IsByte c = c < 256

-- The slice that holds the second of three parts.
pub slice_middle :
    (p q r : Bytes) (i j : ℕ)
    → i ≡ length p
    → j ≡ length p + length q
    → slice (p ++ (q ++ r)) i j ≡ q
slice_middle p q r i j hi hj =
    rw (drop-append i p (q ++ r) (sym hi)) (take-append (j - i) q r (omega arith))
