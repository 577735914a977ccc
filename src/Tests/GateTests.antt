-- ===== src/Tests/GateTests.antt =====
-- The gates at concrete histories.
use nova_key_daemon.Common.{◌≤◌, ◌≡◌, ◌≢◌, refl, true, List, [], ◌∷◌, codes, bytes_dec}
use nova_key_daemon.Common.Dict.{lookup, NodupKeys}
use nova_key_daemon.Gates.Arm
use nova_key_daemon.Gates.Arm.History
use nova_key_daemon.Gates.TwoMan
use nova_key_daemon.Gates.TwoMan.Laws
use nova_key_daemon.Gates.TwoMan.History as Approvals

abbrev gate : TwoMan.TwoManGate
gate = record { until = (codes "d", 90) ∷ (codes "e", 40) ∷ [] }

gate_nodup : NodupKeys gate.until
unfolding lookup bytes_dec
gate_nodup = (refl, (refl, tt))

abbrev calls : List History.Call
calls = History.arms 10 50 ∷ History.consumes 20 true ∷ History.consumes 30 true ∷ []

consume-run-within_example :
    (20 ≤ History.window 0 (History.arms 10 50 ∷ []))
    × (History.window 0 (History.arms 10 50 ∷ []) ≢ 0)
unfolding Arm.consume History.run
consume-run-within_example = History.consume-run-within (History.arms 10 50 ∷ []) 20 true refl

consume-eq-within_example : (TwoMan.consume gate 50 (codes "d") true).0 ≡ true
unfolding bytes_dec lookup
consume-eq-within_example = Laws.consume-eq-within gate 50 (codes "d") true gate_nodup
