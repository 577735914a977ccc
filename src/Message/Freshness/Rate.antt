-- ===== src/Message/Freshness/Rate.antt =====
-- The rate limit: how many requests of a device pass within one window.
use nova_key_daemon.Common.{
  ℕ, ◌+◌, ◌%◌, ◌^◌, ◌≤◌, ◌<◌, ◌≡◌, ◌≢◌, refl, List, [], ◌∷◌, arith, if◌then◌else◌, Bytes, bytes_dec,
  ◌=?◌, is_ok, Option-cases, inl, inr,
}
use nova_key_daemon.Common.Dict.{Dict, lookup, lookup-insert}
use nova_key_daemon.Common.Hex
use nova_key_daemon.Message.Freshness.{
  ReplayState, RateWindow, or_zero, current_window, rate_limit, age_error, rate_and_replay,
  fresh_nonces,
}
use nova_key_daemon.Message.Freshness.Replay.{Request, answer, step, validate_fresh, validate_stale}

module _ (dev : Bytes) where
  -- 1 where the request is one of the device and is let through.
  pass : ReplayState → Request → ℕ
  pass st r = if r.device =? dev then (if is_ok (answer st r) then 1 else 0) else 0

  pub passes : ReplayState → List Request → ℕ
  passes st [] = 0
  passes st (r ∷ rs) = pass st r + passes (step st r) rs

  abbrev pub window_of : ReplayState → RateWindow
  window_of st = or_zero (lookup dev st.rate_state)

  -- Every clock reading lies in the minute that begins at `w`, and the limit is the same throughout.
  abbrev pub InWindow : ℕ → ℕ → List Request → Type 0
  InWindow w limit [] = Unit {0}
  InWindow w limit (r ∷ rs) =
      (w ≤ r.now) × (r.now < w + 60) × (rate_limit r.limit ≡ limit) × InWindow w limit rs

  rate_and_replay_count :
      (st : ReplayState) (now limit : ℕ) (nonce_hex : Bytes) (m : Dict ℕ) (rw : RateWindow)
      → limit < 2 ^ 62
      → rw.count ≤ limit
      → window_of st ≡ rw
      → let out = rate_and_replay st now limit dev nonce_hex m rw in
        ((window_of out.1).window_start ≡ rw.window_start)
        × ((window_of out.1).count ≡ rw.count + (if is_ok out.0 then 1 else 0))
        × ((window_of out.1).count ≤ limit)
  unfolding rate_and_replay
  rate_and_replay_count st now limit nonce_hex m rw small h e =
      ground
        (arith, lookup-insert dev dev (record rw { count = (rw.count + 1) % 2 ^ 64 }) st.rate_state)

  other_window :
      (st : ReplayState) (now limit : ℕ) (j nonce_hex : Bytes) (m : Dict ℕ) (rw : RateWindow)
      → j ≢ dev
      → window_of (rate_and_replay st now limit j nonce_hex m rw).1 ≡ window_of st
  unfolding rate_and_replay
  other_window st now limit j nonce_hex m rw ne =
      ground
        (arith, lookup-insert dev j (record rw { count = (rw.count + 1) % 2 ^ 64 }) st.rate_state)

  abbrev Open : ℕ → ℕ → ReplayState → Type 0
  Open w limit st = ((window_of st).window_start ≡ w) × ((window_of st).count ≤ limit)

  still_current :
      (st : ReplayState) (w limit now : ℕ)
      → 0 < w
      → w < 2 ^ 62
      → w ≤ now
      → now < w + 60
      → Open w limit st
      → current_window (window_of st) now ≡ window_of st
  still_current st w limit now pos small lo hi h = ground arith

  step_window :
      (st : ReplayState) (r : Request) (w limit : ℕ)
      → 0 < w
      → w < 2 ^ 62
      → limit < 2 ^ 62
      → w ≤ r.now
      → r.now < w + 60
      → rate_limit r.limit ≡ limit
      → Open w limit st
      → Open w limit (step st r)
        × ((window_of (step st r)).count ≡ (window_of st).count + pass st r)
  unfolding step pass answer
  step_window st r w limit pos small bound lo hi el h = elim (Option-cases (age_error r.now r.ts)) [
    | inr (e, refused) ↦
        ground (arith, validate_stale st r.now r.limit r.device r.nonce r.ts e refused)
    | inl fresh ↦ elim (bytes_dec r.device dev) [
      | yes same ↦ ground (
        arith,
        same,
        validate_fresh st r.now r.limit r.device r.nonce r.ts fresh,
        validate_fresh st r.now r.limit dev r.nonce r.ts fresh,
        still_current st w limit r.now pos small lo hi h,
        rate_and_replay_count st r.now limit (Hex.encode r.nonce) (fresh_nonces st r.now dev)
            (window_of st) bound h.1 refl,
      )
      | no other ↦ ground (
        arith,
        other,
        validate_fresh st r.now r.limit r.device r.nonce r.ts fresh,
        other_window st r.now (rate_limit r.limit) r.device (Hex.encode r.nonce)
            (fresh_nonces st r.now r.device)
            (current_window (or_zero (lookup r.device st.rate_state)) r.now) other,
      )
    ]
  ]

  -- Within the minute of a window that began at `w`, a device has at most as many requests
  -- accepted as the limit leaves over, whatever else it and other devices send.
  pub passes-le-limit :
      (st : ReplayState) (w limit : ℕ) (rs : List Request)
      → 0 < w
      → w < 2 ^ 62
      → limit < 2 ^ 62
      → Open w limit st
      → InWindow w limit rs
      → passes st rs + (window_of st).count ≤ limit
  unfolding passes
  passes-le-limit st w limit [] pos small bound h rs = omega arith
  passes-le-limit st w limit (r ∷ rs) pos small bound h (lo, hi, el, more) =
      let (h', counted) = step_window st r w limit pos small bound lo hi el h in
      omega (arith, passes-le-limit (step st r) w limit rs pos small bound h' more)
