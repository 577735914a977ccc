-- ===== src/Gates/TwoMan.antt =====
-- cmd/novakey/two_man.go.
pub mod Laws
pub mod History
use nova_key_daemon.Common.{
  ℕ, Bool, true, false, Option, none, some, [], if◌then◌else◌, ltb, not, Bytes,
}
use nova_key_daemon.Common.Dict.{Dict, lookup, insert, erase, retain}
use nova_key_daemon.Common.Int64
use nova_key_daemon.Gates.Clock.{add_time, milliseconds}

pub record TwoManGate : Type 0 where
  pub until : Dict ℕ

abbrev pub new_two_man_gate : TwoManGate
new_two_man_gate = record { until = [] }

-- `!now.After(u)`
abbrev pub alive : ℕ → ℕ → Bool
alive now u = not (ltb u now)

unfoldable pub cleanup_locked : TwoManGate → ℕ → TwoManGate
unfolding retain
cleanup_locked g now = record g { until = retain (alive now) g.until }

-- The clock is read twice: for the cleanup, and for the window.
unfoldable pub approve : TwoManGate → ℕ → ℕ → Bytes → ℕ → ℕ × TwoManGate
unfolding cleanup_locked add_time insert
approve g now_cleanup now device_id d =
    let u = add_time now d in
    let g' = cleanup_locked g now_cleanup in (u, record g' { until = insert device_id u g'.until })

unfoldable pub consume_entry : TwoManGate → ℕ → Bytes → Bool → Option ℕ → Bool × TwoManGate
unfolding erase
consume_entry g now device_id consumes none = (false, g)
consume_entry g now device_id consumes (some u) =
    if ltb u now
    then (false, g)
    else (true, if consumes then record g { until = erase device_id g.until } else g)

unfoldable pub consume : TwoManGate → ℕ → Bytes → Bool → Bool × TwoManGate
unfolding cleanup_locked lookup consume_entry
consume g now device_id consumes =
    let g' = cleanup_locked g now in
    consume_entry g' now device_id consumes (lookup device_id g'.until)

-- A missing key reads as the zero time.
abbrev pub or_zero : Option ℕ → ℕ
or_zero none = 0
or_zero (some u) = u

unfoldable pub approved_until : TwoManGate → Bytes → ℕ
unfolding lookup
approved_until g device_id = or_zero (lookup device_id g.until)

-- `cfg.ApproveWindowMs` as a duration, 15 s where it is not positive.
unfoldable pub approve_window : ℕ → ℕ
unfolding milliseconds
approve_window approve_window_ms =
    milliseconds (if Int64.le approve_window_ms 0 then 15000 else approve_window_ms)
