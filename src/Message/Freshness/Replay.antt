-- ===== src/Message/Freshness/Replay.antt =====
-- No message is accepted twice: the cache outlives the time in which a message is fresh.
use nova_key_daemon.Common.{
  ℕ, ◌+◌, ◌^◌, ◌≤◌, ◌<◌, ◌≡◌, ◌≢◌, ◌⊎◌, inl, inr, none, some, List, [], ◌∷◌, ◌++◌, arith, Bytes,
  bytes_dec, Result, ok, err, Option-cases,
}
use nova_key_daemon.Common.Dict.{Dict, lookup, insert, retain, lookup-insert, lookup-retain-some}
use nova_key_daemon.Common.Int64.{sign_bit}
use nova_key_daemon.Common.Hex
use nova_key_daemon.Message.Freshness.{
  FreshnessError, ReplayState, RateWindow, or_empty, or_zero, unexpired, current_window, rate_limit,
  fresh_nonces, age_error, rate_and_replay, validate_freshness_and_rate,
}
use nova_key_daemon.Message.Freshness.Age.{age_error-eq-none_iff}

pub validate_fresh :
    (st : ReplayState) (now limit : ℕ) (dev nonce : Bytes) (ts : ℕ)
    → age_error now ts ≡ none
    → validate_freshness_and_rate st now limit dev nonce ts
      ≡ rate_and_replay st now
          (rate_limit limit)
          dev
          (Hex.encode nonce)
          (fresh_nonces st now dev)
          (current_window (or_zero (lookup dev st.rate_state)) now)
unfolding validate_freshness_and_rate
validate_fresh st now limit dev nonce ts e = rw (e, validate_freshness_and_rate)

pub validate_stale :
    (st : ReplayState) (now limit : ℕ) (dev nonce : Bytes) (ts : ℕ) (e : FreshnessError)
    → age_error now ts ≡ some e
    → validate_freshness_and_rate st now limit dev nonce ts ≡ (err e, st)
unfolding validate_freshness_and_rate
validate_stale st now limit dev nonce ts e h = rw (h, validate_freshness_and_rate)

-- A request as `validateFreshnessAndRate` sees it, with the clock reading and the configured limit.
pub record Request : Type 0 where
  pub now : ℕ
  pub limit : ℕ
  pub device : Bytes
  pub nonce : Bytes
  pub ts : ℕ

unfoldable pub answer : ReplayState → Request → Result FreshnessError (Unit {0})
answer st r = (validate_freshness_and_rate st r.now r.limit r.device r.nonce r.ts).0

unfoldable pub step : ReplayState → Request → ReplayState
step st r = (validate_freshness_and_rate st r.now r.limit r.device r.nonce r.ts).1

unfoldable pub run : ReplayState → List Request → ReplayState
run st [] = st
run st (r ∷ rs) = run (step st r) rs

-- The clock never goes back, and stays below 2 ^ 62.
abbrev pub Clocked : ℕ → List Request → Type 0
Clocked t [] = Unit {0}
Clocked t (r ∷ rs) = (t ≤ r.now) × (r.now < 2 ^ 62) × Clocked r.now rs

module _ (t : ℕ) (dev hex : Bytes) where
  -- The nonce that was accepted at `t` is still in the cache, or more than 600 s have passed.
  abbrev Remembers : ReplayState → ℕ → Type 0
  Remembers st now = (lookup hex (or_empty (lookup dev st.replay_cache)) ≡ some t) ⊎ (t + 600 < now)

  keep_or_expire :
      (m : Dict ℕ) (now : ℕ)
      → t ≤ now
      → now < 2 ^ 62
      → lookup hex m ≡ some t
      → (lookup hex (retain (unexpired now) m) ≡ some t) ⊎ (t + 600 < now)
  keep_or_expire m now h b e = ground (arith, lookup-retain-some (unexpired now) hex m t)

  lookup-rate_and_replay :
      (st : ReplayState) (now limit : ℕ) (j nonce_hex : Bytes) (m : Dict ℕ) (rw : RateWindow)
      → j ≡ dev
      → (lookup hex m ≡ some t) ⊎ (t + 600 < now)
      → Remembers (rate_and_replay st now limit j nonce_hex m rw).1 now
  unfolding rate_and_replay
  lookup-rate_and_replay st now limit j nonce_hex m rw e h = ground (
    arith,
    lookup-insert dev j m st.replay_cache,
    lookup-insert dev j (insert nonce_hex now m) st.replay_cache,
    lookup-insert hex nonce_hex now m,
  )

  other_device :
      (st : ReplayState) (now limit : ℕ) (j nonce_hex : Bytes) (m : Dict ℕ) (rw : RateWindow)
      → j ≢ dev
      → Remembers st now
      → Remembers (rate_and_replay st now limit j nonce_hex m rw).1 now
  unfolding rate_and_replay
  other_device st now limit j nonce_hex m rw ne h = ground (
    arith,
    lookup-insert dev j m st.replay_cache,
    lookup-insert dev j (insert nonce_hex now m) st.replay_cache,
  )

  later : (st : ReplayState) (now now' : ℕ) → now ≤ now' → Remembers st now → Remembers st now'
  later st now now' h (inl e) = inl e
  later st now now' h (inr e) = inr (omega arith)

  kept :
      (st : ReplayState) (now : ℕ)
      → t ≤ now
      → now < 2 ^ 62
      → Remembers st now
      → (lookup hex (retain (unexpired now) (or_empty (lookup dev st.replay_cache))) ≡ some t)
        ⊎ (t + 600 < now)
  kept st now h b (inl e) = keep_or_expire (or_empty (lookup dev st.replay_cache)) now h b e
  kept st now h b (inr e) = inr e

  step-Remembers :
      (st : ReplayState) (r : Request)
      → t ≤ r.now
      → r.now < 2 ^ 62
      → Remembers st r.now
      → Remembers (step st r) r.now
  unfolding step validate_freshness_and_rate
  step-Remembers st r h b old = elim (Option-cases (age_error r.now r.ts)) [
    | inr (e, refused) ↦ rw (refused, step, validate_freshness_and_rate) old
    | inl fresh ↦
        rw (fresh, step, validate_freshness_and_rate)
          (elim (bytes_dec r.device dev) [
            | yes same ↦
                lookup-rate_and_replay st r.now _ r.device (Hex.encode r.nonce) _ _ same
                  (rw same (kept st r.now h b old))
            | no other ↦ other_device st r.now _ r.device (Hex.encode r.nonce) _ _ other old
          ])
  ]

  run-Remembers :
      (st : ReplayState) (now : ℕ) (rs : List Request) (last : Request)
      → t ≤ now
      → Clocked now (rs ++ last ∷ [])
      → Remembers st now
      → Remembers (run st rs) last.now × (t ≤ last.now) × (last.now < 2 ^ 62)
  unfolding run
  run-Remembers st now [] last h (c, b, _) old = (later st now last.now c old, omega arith, b)
  run-Remembers st now (r ∷ rs) last h (c, b, cs) old =
      run-Remembers (step st r) r.now rs last (omega arith) cs
        (step-Remembers st r (omega arith) b (later st now r.now c old))

-- What an accepted request shows: it was in time, and its nonce is now in the cache.
accepted :
    (st : ReplayState) (r : Request)
    → answer st r ≡ ok tt
    → (age_error r.now r.ts ≡ none)
      × (lookup (Hex.encode r.nonce) (or_empty (lookup r.device (step st r).replay_cache))
          ≡ some r.now)
unfolding answer step validate_freshness_and_rate rate_and_replay
accepted st r h = ground (
  arith,
  lookup-insert r.device r.device
      (insert (Hex.encode r.nonce) r.now
        (retain (unexpired r.now) (or_empty (lookup r.device st.replay_cache))))
      st.replay_cache,
  lookup-insert (Hex.encode r.nonce) (Hex.encode r.nonce) r.now
      (retain (unexpired r.now) (or_empty (lookup r.device st.replay_cache))),
)

-- A nonce in the cache is refused, however the other tests come out.
answer_cached :
    (st : ReplayState) (r : Request) (t : ℕ)
    → lookup
        (Hex.encode r.nonce)
        (retain (unexpired r.now) (or_empty (lookup r.device st.replay_cache)))
      ≡ some t
    → answer st r ≢ ok tt
unfolding answer validate_freshness_and_rate rate_and_replay
answer_cached st r t h e = ground arith

-- No replay: once a message of a device was accepted, the same nonce and timestamp of that device
-- is never accepted again, after any further requests of any devices, as long as the clock does
-- not go back or reach 2 ^ 62 and the timestamp is not negative.
pub answer-run_replayed :
    (st : ReplayState) (r again : Request) (rs : List Request)
    → answer st r ≡ ok tt
    → again.device ≡ r.device
    → again.nonce ≡ r.nonce
    → again.ts ≡ r.ts
    → r.ts < sign_bit
    → r.now < 2 ^ 62
    → Clocked r.now (rs ++ again ∷ [])
    → answer (run (step st r) rs) again ≢ ok tt
answer-run_replayed st r again rs first ed en et positive bound clock second =
    let (fresh, cached) = accepted st r first in
    let (seen, after, b) =
      run-Remembers r.now r.device (Hex.encode r.nonce) (step st r) r.now rs again (omega arith)
        clock (inl cached) in
    let (in_time, _) = accepted (run (step st r) rs) again second in
    elim (kept r.now r.device (Hex.encode r.nonce) (run (step st r) rs) again.now after b seen) [
      | inl e ↦ answer_cached (run (step st r) rs) again r.now (rw (ed, en) e) second
      | inr gone ↦ absurd (
          omega (
            arith,
            (age_error-eq-none_iff r.now r.ts bound positive).0 fresh,
            (age_error-eq-none_iff again.now again.ts b (omega arith)).0 in_time,
          ))
    ]
