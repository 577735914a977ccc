-- ===== src/Common/Hex.antt =====
-- Go's `encoding/hex`: `EncodeToString`, and `DecodeString` with its error as `none`.
use Prim.Native.Nat.{ℕ, ◌+◌, ◌-◌, ◌*◌, ◌/◌, ◌%◌, ◌<◌}
use mathlib.Core.Path.{◌≡◌, refl, subst}
use mathlib.Core.Bool.{true, ◌&&◌}
use mathlib.Core.Option.{Option, none, some}
use mathlib.Core.List.{[], ◌∷◌}
use native.Mathlib.Omega.{arith}
use nova_key_daemon.Common.Tests.{ltb, leb, if◌then◌else◌}
use nova_key_daemon.Common.Lists.{All, length}
use nova_key_daemon.Common.Strings.{Bytes}

unfoldable pub digit : ℕ → ℕ
digit n = if ltb n 10 then b'0' + n else b'a' + n - 10

unfoldable pub encode : Bytes → Bytes
unfolding digit
encode [] = []
encode (c ∷ s) = digit (c / 16) ∷ digit (c % 16) ∷ encode s

unfoldable pub from_digit : ℕ → Option ℕ
from_digit c =
    if leb b'0' c && leb c b'9'
    then some (c - b'0')
    else if leb b'a' c && leb c b'f'
    then some (c - b'a' + 10)
    else if leb b'A' c && leb c b'F'
    then some (c - b'A' + 10)
    else none

unfoldable pub pair : Option ℕ → Option ℕ → Option Bytes → Option Bytes
pair (some a) (some b) (some s) = some ((a * 16 + b) ∷ s)
pair _ _ _ = none

-- A text of odd length is refused.
unfoldable pub decode : Bytes → Option Bytes
unfolding from_digit pair
decode [] = some []
decode (c ∷ []) = none
decode (c ∷ d ∷ s) = pair (from_digit c) (from_digit d) (decode s)

from_digit-digit : (n : ℕ) → n < 16 → from_digit (digit n) ≡ some n
unfolding from_digit digit
from_digit-digit n h = ground arith

-- Every byte string is read back from its hexadecimal text.
pub decode-encode : (s : Bytes) → All (λ c. c < 256) s → decode (encode s) ≡ some s
unfolding decode encode pair
decode-encode [] h = refl
decode-encode (c ∷ s) (hc, hs) = ground (
  arith,
  from_digit-digit (c / 16) (omega arith),
  from_digit-digit (c % 16) (omega arith),
  decode-encode s hs,
)

pub length-encode : (s : Bytes) → length (encode s) ≡ 2 * length s
unfolding encode
length-encode [] = refl
length-encode (c ∷ s) = omega (arith, length-encode s)

from_digit-lt : (c n : ℕ) → from_digit c ≡ some n → n < 16
unfolding from_digit
from_digit-lt c n h = ground arith

pair-All :
    (a b : Option ℕ) (o : Option Bytes) (r : Bytes)
    → ((n : ℕ) → a ≡ some n → n < 16)
    → ((n : ℕ) → b ≡ some n → n < 16)
    → ((s : Bytes) → o ≡ some s → All (λ c. c < 256) s)
    → pair a b o ≡ some r
    → All (λ c. c < 256) r
unfolding pair
pair-All none b o r ha hb ho h = cc
pair-All (some x) none o r ha hb ho h = cc
pair-All (some x) (some y) none r ha hb ho h = cc
pair-All (some x) (some y) (some s) r ha hb ho h =
    let lt : x * 16 + y < 256 = omega (arith, ha x refl, hb y refl) in
    subst (All (λ c. c < 256)) (some_inj h) (lt, ho s refl)
  where
    some_inj : {u v : Bytes} → some u ≡ some v → u ≡ v
    some_inj e = cc

-- What is decoded is bytes.
pub decode-All : (s r : Bytes) → decode s ≡ some r → All (λ c. c < 256) r
unfolding decode
decode-All [] r h = subst (All (λ c. c < 256)) (none_left h) tt
  where
    none_left : {u v : Bytes} → some u ≡ some v → u ≡ v
    none_left e = cc
decode-All (c ∷ []) r h = cc
decode-All (c ∷ d ∷ s) r h =
    pair-All (from_digit c) (from_digit d) (decode s) r (from_digit-lt c) (from_digit-lt d)
      (decode-All s) h

digit-lt : (n : ℕ) → n < 16 → ltb (digit n) 128 ≡ true
unfolding digit
digit-lt n h = ground arith

-- The digits are ASCII.
pub is_ascii-encode : (s : Bytes) → All (λ c. c < 256) s → All (λ c. ltb c 128 ≡ true) (encode s)
unfolding encode
is_ascii-encode [] h = tt
is_ascii-encode (c ∷ s) (hc, hs) =
    (digit-lt (c / 16) (omega arith), (digit-lt (c % 16) (omega arith), is_ascii-encode s hs))
