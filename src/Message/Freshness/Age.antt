-- ===== src/Message/Freshness/Age.antt =====
-- Which timestamps pass the two tests of their age.
use nova_key_daemon.Common.{ℕ, ◌+◌, ◌^◌, ◌≤◌, ◌<◌, ◌≡◌, ◌↔◌, none, arith}
use nova_key_daemon.Common.Int64.{sign_bit}
use nova_key_daemon.Message.Freshness.{age_error}

-- A timestamp that is not negative passes exactly when it is at most 120 s ahead of the clock and
-- at most 300 s behind it, for a clock reading below 2 ^ 62.
pub age_error-eq-none_iff :
    (now ts : ℕ)
    → now < 2 ^ 62
    → ts < sign_bit
    → (age_error now ts ≡ none) ↔ ((ts ≤ now + 120) × (now ≤ ts + 300))
unfolding age_error
age_error-eq-none_iff now ts hn ht = (λ h. ground arith, λ h. ground arith)

-- A timestamp so far in the past that `now-ts` leaves int64 passes as fresh: every negative one
-- from -2 ^ 63 to `now` - 2 ^ 63 seconds.
pub age_error_wraps :
    (now ts : ℕ) → now < 2 ^ 62 → sign_bit ≤ ts → ts ≤ sign_bit + now → age_error now ts ≡ none
unfolding age_error
age_error_wraps now ts hn lo hi = ground arith
