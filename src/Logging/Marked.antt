-- ===== src/Logging/Marked.antt =====
-- ASCII text, and the text that stands where a value stood.
use nova_key_daemon.Common.{
  ℕ, zero, suc, ◌+◌, ◌≤◌, ◌<◌, ◌≡◌, refl, ap, Bool, true, ◌&&◌, [], ◌∷◌, ◌++◌, map, some, arith,
  ltb, Bytes, length, drop, Option-cases, inl, inr,
}
use nova_key_daemon.Common.Text.{index, has_prefix, is_ascii, lower_byte}
use nova_key_daemon.Logging.{value_length, mark}

-- Whether a text begins with a prefix shows in as many bytes as the prefix has.
has_prefix_long : (s y k : Bytes) → length k ≤ length s → has_prefix (s ++ y) k ≡ has_prefix s k
unfolding has_prefix
has_prefix_long s y [] h = ground arith
has_prefix_long [] y (p ∷ k) h = absurd (omega arith)
has_prefix_long (c ∷ s) y (p ∷ k) h = ground (arith, has_prefix_long s y k)

-- The first match stays the first, whatever is put behind it.
pub index_stable :
    (a y z k : Bytes) (i : ℕ)
    → index (a ++ y) k ≡ some i
    → i + length k ≤ length a
    → 0 < length k
    → index (a ++ z) k ≡ some i
unfolding index
index_stable [] y z k i h le pos = absurd (omega arith)
index_stable (c ∷ a) y z k i h le pos = elim (Option-cases (index (a ++ y) k)) [
  | inl e ↦ ground (arith, has_prefix_long (c ∷ a) y k, has_prefix_long (c ∷ a) z k)
  | inr (j, e) ↦
      ground
        (arith, has_prefix_long (c ∷ a) y k, has_prefix_long (c ∷ a) z k, index_stable a y z k j)
]

pub map-lower-append :
    (a b : Bytes) → map lower_byte (a ++ b) ≡ map lower_byte a ++ map lower_byte b
map-lower-append [] b = refl
map-lower-append (c ∷ a) b = ap (λ s. lower_byte c ∷ s) (map-lower-append a b)

pub length-map-lower : (a : Bytes) → length (map lower_byte a) ≡ length a
length-map-lower [] = refl
length-map-lower (c ∷ a) = omega (arith, length-map-lower a)

pub is_ascii-append : (a b : Bytes) → is_ascii (a ++ b) ≡ (is_ascii a && is_ascii b)
unfolding is_ascii
is_ascii-append [] b = refl
is_ascii-append (c ∷ a) b = ground (arith, is_ascii-append a b)

is_ascii-drop : (n : ℕ) (s : Bytes) → is_ascii s ≡ true → is_ascii (drop n s) ≡ true
unfolding is_ascii
is_ascii-drop zero s h = h
is_ascii-drop (suc n) [] h = h
is_ascii-drop (suc n) (c ∷ s) h = is_ascii-drop n s (ground arith)

pub plain_marked :
    (a v : Bytes) (n : ℕ)
    → (is_ascii a && is_ascii v) ≡ true
    → (is_ascii a && is_ascii (mark ++ drop n v)) ≡ true
plain_marked a v n h =
    both (is_ascii a) (is_ascii v) (is_ascii (mark ++ drop n v)) h
      (λ e. marked n v (is_ascii-drop n v e))
  where
    marked : (n : ℕ) (v : Bytes) → is_ascii (drop n v) ≡ true → is_ascii (mark ++ drop n v) ≡ true
    marked n v e = unfold is_ascii in e

    both : (p q r : Bool) → (p && q) ≡ true → (q ≡ true → r ≡ true) → (p && r) ≡ true
    both p q r h f = ground arith

pub marked_value : (x : Bytes) → ltb 0 (value_length (mark ++ x)) ≡ true
unfolding value_length
marked_value x = ground arith
