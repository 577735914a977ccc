-- ===== src/Gates/Arm.antt =====
-- cmd/novakey/arm_gate.go.
pub mod History
use nova_key_daemon.Common.{ℕ, Bool, true, false, if◌then◌else◌, ltb, ◌==◌}
use nova_key_daemon.Gates.Clock.{add_time}

pub record ArmGate : Type 0 where
  pub armed_until : ℕ

abbrev pub disarmed : ArmGate
disarmed = record { armed_until = 0 }

-- The expiry time, and the gate.
unfoldable pub arm_for : ArmGate → ℕ → ℕ → ℕ × ArmGate
unfolding add_time
arm_for g now dur = (add_time now dur, record g { armed_until = add_time now dur })

unfoldable pub disarm : ArmGate → ArmGate
disarm g = record g { armed_until = 0 }

unfoldable pub consume : ArmGate → ℕ → Bool → Bool × ArmGate
consume g now consumes =
    if g.armed_until == 0
    then (false, g)
    else if ltb g.armed_until now
    then (false, record g { armed_until = 0 })
    else (true, if consumes then record g { armed_until = 0 } else g)
