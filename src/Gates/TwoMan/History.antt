-- ===== src/Gates/TwoMan/History.antt =====
-- Histories of the two-man gate: calls by any devices, at any clock readings.
use nova_key_daemon.Common.{ℕ, ◌+◌, true, List, [], ◌∷◌, if◌then◌else◌, Bytes, ◌=?◌, is_some}
use nova_key_daemon.Common.Dict.{lookup}
use nova_key_daemon.Gates.TwoMan.{TwoManGate, approve, consume}

-- A call of `Approve` or `Consume`, with its clock readings and its device.
pub data Call : Type 0 where
  approves : ℕ → ℕ → Bytes → ℕ → Call
  consumes : ℕ → Bytes → Call

-- Every attempt consumes: `approve_consume_on_inject`, on by default.
unfoldable pub step : TwoManGate → Call → TwoManGate
step g (approves t now dev d) = (approve g t now dev d).1
step g (consumes now dev) = (consume g now dev true).1

module _ (dev : Bytes) where
  -- 1 where the call lets an injection of the device through.
  pass : TwoManGate → Call → ℕ
  pass g (consumes now j) = if dev =? j then (if (consume g now j true).0 then 1 else 0) else 0
  pass g _ = 0

  pub passes : TwoManGate → List Call → ℕ
  passes g [] = 0
  passes g (c ∷ cs) = pass g c + passes (step g c) cs

  approval : Call → ℕ
  approval (approves t now j d) = if dev =? j then 1 else 0
  approval _ = 0

  pub approvals : List Call → ℕ
  approvals [] = 0
  approvals (c ∷ cs) = approval c + approvals cs

  abbrev pub held : TwoManGate → ℕ
  held g = if is_some (lookup dev g.until) then 1 else 0
