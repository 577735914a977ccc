-- ===== src/Gates/Clock.antt =====
-- Go's `time.Time.Add` and `time.Duration`.
use nova_key_daemon.Common.{ℕ, ◌+◌, ◌-◌, if◌then◌else◌, ltb}
use nova_key_daemon.Common.Int64.{modulus, sign_bit, mul}

-- `t.Add(d)`; a pattern from `sign_bit` on is a negative duration.
unfoldable pub add_time : ℕ → ℕ → ℕ
add_time t d = if ltb d sign_bit then t + d else t - (modulus - d)

-- `time.Duration(ms) * time.Millisecond`, which wraps around.
unfoldable pub milliseconds : ℕ → ℕ
milliseconds ms = mul ms 1_000_000
