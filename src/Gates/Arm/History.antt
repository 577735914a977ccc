-- ===== src/Gates/Arm/History.antt =====
-- Histories of the arm gate: any sequence of calls, at any clock readings.
use nova_key_daemon.Common.{
  ℕ, ◌+◌, ◌≤◌, ◌≡◌, ◌≢◌, ◌⊎◌, refl, Bool, true, false, List, [], ◌∷◌, arith, All, if◌then◌else◌,
  ◌==◌,
}
use nova_key_daemon.Gates.Clock.{add_time}
use nova_key_daemon.Gates.Arm.{ArmGate, disarmed, arm_for, disarm, consume}

-- A call of `ArmFor`, `Disarm` or `Consume`, with its clock reading.
pub data Call : Type 0 where
  arms : ℕ → ℕ → Call
  disarms : Call
  consumes : ℕ → Bool → Call

unfoldable pub step : ArmGate → Call → ArmGate
unfolding arm_for disarm consume
step g (arms now dur) = (arm_for g now dur).1
step g disarms = disarm g
step g (consumes now c) = (consume g now c).1

unfoldable pub run : ArmGate → List Call → ArmGate
unfolding step
run g [] = g
run g (c ∷ cs) = run (step g c) cs

-- 1 where the call is a `Consume` that lets an injection through.
pass : ArmGate → Call → ℕ
unfolding consume
pass g (consumes now c) = if (consume g now c).0 then 1 else 0
pass g _ = 0

pub passes : ArmGate → List Call → ℕ
passes g [] = 0
passes g (c ∷ cs) = pass g c + passes (step g c) cs

arm : Call → ℕ
arm (arms now dur) = 1
arm _ = 0

pub armings : List Call → ℕ
armings [] = 0
armings (c ∷ cs) = arm c + armings cs

abbrev pub armed : ArmGate → ℕ
armed g = if g.armed_until == 0 then 0 else 1

abbrev pub Consumes : Call → Type 0
Consumes (consumes now c) = c ≡ true
Consumes _ = Unit

step_credit : (g : ArmGate) (c : Call) → Consumes c → pass g c + armed (step g c) ≤ arm c + armed g
unfolding step pass arm arm_for disarm consume
step_credit g (arms now dur) h = ground arith
step_credit g disarms h = ground arith
step_credit g (consumes now c) h = ground arith

-- One shot: where every attempt consumes (the default), a history lets through no more injections
-- than it has armings, plus one if the gate was armed at the start.
pub passes-le-armings :
    (g : ArmGate) (cs : List Call) → All Consumes cs → passes g cs ≤ armings cs + armed g
unfolding passes armings
passes-le-armings g [] h = omega arith
passes-le-armings g (c ∷ cs) (hc, hs) =
    omega (arith, step_credit g c hc, passes-le-armings (step g c) cs hs)

-- The end of the window that the last `ArmFor` opened, or 0 where a `Disarm` came after it; told
-- from the calls alone.
unfoldable pub window : ℕ → List Call → ℕ
window w [] = w
window w (arms now dur ∷ cs) = window (add_time now dur) cs
window w (disarms ∷ cs) = window 0 cs
window w (consumes now c ∷ cs) = window w cs

abbrev Agrees : ℕ → ArmGate → Type 0
Agrees w g = g.armed_until ≢ 0 → g.armed_until ≡ w

run-window : (g : ArmGate) (w : ℕ) (cs : List Call) → Agrees w g → Agrees (window w cs) (run g cs)
unfolding run step window arm_for disarm consume
run-window g w [] h = h
run-window g w (arms now dur ∷ cs) h = run-window (step g (arms now dur)) _ cs (λ _. refl)
run-window g w (disarms ∷ cs) h = run-window (step g disarms) 0 cs (λ _. refl)
run-window g w (consumes now c ∷ cs) h =
    run-window (step g (consumes now c)) w cs (λ p. ground (arith, h))

-- After any history of a daemon that started disarmed, an attempt passes only inside the window of
-- the last arming, and never after a disarming that no arming followed.
pub consume-run-within :
    (cs : List Call) (now : ℕ) (c : Bool)
    → (consume (run disarmed cs) now c).0 ≡ true
    → (now ≤ window 0 cs) × (window 0 cs ≢ 0)
unfolding consume
consume-run-within cs now c h = ground (arith, run-window disarmed 0 cs (λ _. refl))

-- An attempt that is refused leaves the gate disarmed, so that every later one is refused too,
-- until the gate is armed again.
pub consume_refused :
    (g : ArmGate) (now later : ℕ) (c c' : Bool)
    → (consume g now c).0 ≡ false
    → ((consume g now c).1.armed_until ≡ 0) × ((consume (consume g now c).1 later c').0 ≡ false)
unfolding consume
consume_refused g now later c c' h = ground arith

-- A consuming attempt passes at the cost of an armed gate.
pub consume_paid :
    (g : ArmGate) (now : ℕ) (c : Bool)
    → c ≡ true
    → (if (consume g now c).0 then 1 else 0) + armed (consume g now c).1 ≤ armed g
unfolding consume
consume_paid g now c h = ground arith

pub consume_lowers :
    (g : ArmGate) (now : ℕ) (c : Bool)
    → ((consume g now c).1.armed_until ≡ 0) ⊎ ((consume g now c).1 ≡ g)
unfolding consume
consume_lowers g now c = ground arith
