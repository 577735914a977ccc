-- ===== src/Gates.antt =====
-- cmd/novakey/arm_gate.go and two_man.go. A method that holds the gate's mutex is one function of
-- the gate and of the clock readings it takes.
--
-- `time.Time` is a number of nanoseconds since its zero value, so that `IsZero` is `== 0`, and
-- `time.Duration` an int64 pattern. A clock reading is at least 2 ^ 63 ns (the year 293), so adding
-- a negative duration never reaches below zero, where `-` on ℕ would stop.
pub mod Clock
pub mod Arm
pub mod TwoMan
