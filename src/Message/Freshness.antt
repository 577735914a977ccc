-- ===== src/Message/Freshness.antt =====
-- `validateFreshnessAndRate` of cmd/novakey/crypto.go: the timestamp, the rate window of the
-- device, and the nonces that the device used.
--
-- Timestamps and clock readings are int64 patterns, so `now-ts` wraps around as it does in Go.
-- A call holds `replayMu` from its first look at the maps to its return.
pub mod Age
pub mod Replay
pub mod Rate
use nova_key_daemon.Common.{
  ℕ, Bool, true, false, ◌||◌, Option, none, some, [], if◌then◌else◌, ltb, ◌==◌, not, Bytes, Result,
  ok, err, is_some,
}
use nova_key_daemon.Common.Dict.{Dict, lookup, insert, retain}
use nova_key_daemon.Common.Int64
use nova_key_daemon.Common.Hex

abbrev pub max_clock_skew_sec : ℕ
max_clock_skew_sec = 120

abbrev pub max_msg_age_sec : ℕ
max_msg_age_sec = 300

abbrev pub replay_cache_ttl : ℕ
replay_cache_ttl = 600

abbrev pub max_requests_per_device_per_min : ℕ
max_requests_per_device_per_min = 60

-- Also the window of the pairing limiter (cmd/novakey/pairing_proto.go).
pub record RateWindow : Type 0 where
  pub window_start : ℕ
  pub count : ℕ

-- `replayCache` (device, nonce in hexadecimal, clock reading) and `rateState`.
pub record ReplayState : Type 0 where
  pub replay_cache : Dict (Dict ℕ)
  pub rate_state : Dict RateWindow

abbrev pub no_requests : ReplayState
no_requests = record { replay_cache = []; rate_state = [] }

pub data FreshnessError : Type 0 where
  in_future too_old rate_limited replayed : FreshnessError

-- A missing map is made on first use.
abbrev pub or_empty : Option (Dict ℕ) → Dict ℕ
or_empty none = []
or_empty (some m) = m

-- A missing window reads as the zero value.
abbrev pub or_zero : Option RateWindow → RateWindow
or_zero none = record { window_start = 0; count = 0 }
or_zero (some rw) = rw

-- The window, started afresh where there is none or it is over.
abbrev pub current_window : RateWindow → ℕ → RateWindow
current_window rw now =
    if rw.window_start == 0 || Int64.le 60 (Int64.sub now rw.window_start)
    then record { window_start = now; count = 0 }
    else rw

abbrev pub rate_limit : ℕ → ℕ
rate_limit max_requests_per_min =
    if Int64.lt 0 max_requests_per_min
    then max_requests_per_min
    else max_requests_per_device_per_min

-- An entry is evicted once it is older than the cache's lifetime.
abbrev pub unexpired : ℕ → ℕ → Bool
unexpired now seen_at = not (Int64.lt replay_cache_ttl (Int64.sub now seen_at))

-- The device's nonces after the eviction.
abbrev pub fresh_nonces : ReplayState → ℕ → Bytes → Dict ℕ
fresh_nonces st now device_id = retain (unexpired now) (or_empty (lookup device_id st.replay_cache))

-- What follows the freshness test, on the device's nonces after the eviction (which is done in
-- place, so it stays also where the request is refused) and the device's window.
unfoldable pub rate_and_replay :
    ReplayState
    → ℕ
    → ℕ
    → Bytes
    → Bytes
    → Dict ℕ
    → RateWindow
    → Result FreshnessError (Unit {0}) × ReplayState
unfolding lookup insert
rate_and_replay st now limit device_id nonce_hex m rw =
    let evicted = record st { replay_cache = insert device_id m st.replay_cache } in
    if Int64.lt limit (Int64.add rw.count 1)
    then (err rate_limited, evicted)
    else if is_some (lookup nonce_hex m)
    then (err replayed, evicted)
    else (
      ok tt,
      record {
        replay_cache = insert device_id (insert nonce_hex now m) st.replay_cache;
        rate_state = insert device_id (record rw { count = Int64.add rw.count 1 }) st.rate_state;
      },
    )

-- The two tests of the timestamp; `now-ts` is computed in int64.
unfoldable pub age_error : ℕ → ℕ → Option FreshnessError
age_error now ts =
    if Int64.lt (Int64.add now max_clock_skew_sec) ts
    then some in_future
    else if Int64.lt max_msg_age_sec (Int64.sub now ts)
    then some too_old
    else none

unfoldable pub validate_freshness_and_rate :
    ReplayState → ℕ → ℕ → Bytes → Bytes → ℕ → Result FreshnessError (Unit {0}) × ReplayState
unfolding age_error rate_and_replay retain Hex.encode
validate_freshness_and_rate st now max_requests_per_min device_id nonce ts =
    elim (age_error now ts) [
      | some e ↦ (err e, st)
      | none ↦
          rate_and_replay st now (rate_limit max_requests_per_min) device_id (Hex.encode nonce)
            (fresh_nonces st now device_id)
            (current_window (or_zero (lookup device_id st.rate_state)) now)
    ]
