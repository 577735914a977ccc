-- ===== src/Tests/HandlerTests.antt =====
-- One connection, and a few, at concrete values.
use nova_key_daemon.Common.{
  ◌+◌, ◌≤◌, ◌≡◌, ◌≢◌, refl, List, [], ◌∷◌, none, some, arith, codes, bytes_dec,
}
use nova_key_daemon.Common.Dict.{lookup, NodupKeys}
use nova_key_daemon.Gates.Arm
use nova_key_daemon.Gates.TwoMan
use nova_key_daemon.Message.Crypto.Toy.{toy}
use nova_key_daemon.Message.Inner.{msg_type_arm}
use nova_key_daemon.Message.Receive.{decrypt_message_frame}
use nova_key_daemon.Policy.InjectText.{validate_inject_text}
use nova_key_daemon.Policy.Target.{enforce_target_policy}
use nova_key_daemon.Handler.{Daemon}
use nova_key_daemon.Handler.Actions.{injected, copied}
use nova_key_daemon.Handler.Inject.{inject_path, after_injection}
use nova_key_daemon.Handler.Inject.Laws.{inject_path-injected}
use nova_key_daemon.Handler.Inject.GateUse.{inject_path_unarmed}
use nova_key_daemon.Handler.Serve.{
  handle_msg_conn, handle_frame, arm_message, approve_message, route,
}
use nova_key_daemon.Handler.Serve.Safety.{
  handle_msg_conn-copied, Permitted, handle_msg_conn-Permitted,
}
use nova_key_daemon.Handler.Serve.Opening.{
  Message, Approves, handle_msg_conn-arm_gate, handle_msg_conn-approval_gate,
}
use nova_key_daemon.Handler.Serve.History.{Connection, injections, armings, injections-le-armings}
use nova_key_daemon.Tests.{formats, desk, clock, daemon, closed_daemon, input_with}

cons_ne {ℓ} : {A : Type ℓ} {x : A} {xs l : List A} → l ≡ x ∷ xs → l ≢ []
cons_ne e h = cc

nodup : NodupKeys daemon.approval_gate.until
unfolding lookup
nodup = (refl, tt)

inject_path-injected_example :
    injected (inject_path formats.unicode desk clock 7 daemon (codes "d") (codes "pw")).0
    ≡ codes "pw" ∷ []
unfolding validate_inject_text enforce_target_policy Arm.consume TwoMan.consume bytes_dec
inject_path-injected_example =
    inject_path-injected formats.unicode desk clock 7 daemon (codes "d") (codes "pw")

-- The arm gate ran out at 40.
abbrev late : Daemon
late = record daemon { arm_gate = record { armed_until = 40 } }

inject_path_unarmed_example :
    (injected (inject_path formats.unicode desk clock 7 late (codes "d") (codes "pw")).0 ≡ [])
    × (lookup
          (codes "d")
          (inject_path formats.unicode desk clock 7 late
            (codes "d")
            (codes "pw")).1.approval_gate.until
        ≡ none)
unfolding validate_inject_text enforce_target_policy Arm.consume bytes_dec
inject_path_unarmed_example =
    inject_path_unarmed formats.unicode desk clock 7 late (codes "d") (codes "pw") nodup refl refl
      refl refl

handle_msg_conn-copied_example :
    copied (handle_msg_conn toy formats desk clock daemon (input_with 1 10)).0 ≡ []
handle_msg_conn-copied_example =
    handle_msg_conn-copied toy formats desk clock daemon (input_with 1 10) refl refl

injects :
    injected (handle_msg_conn toy formats desk clock daemon (input_with 1 53)).0 ≡ (53 ∷ []) ∷ []
unfolding handle_msg_conn handle_frame decrypt_message_frame route inject_path validate_inject_text
    enforce_target_policy Arm.consume TwoMan.consume after_injection bytes_dec
injects = refl

handle_msg_conn-Permitted_example :
    Permitted toy formats desk clock daemon
      (input_with 1 53)
      (injected (handle_msg_conn toy formats desk clock daemon (input_with 1 53)).0)
handle_msg_conn-Permitted_example =
    handle_msg_conn-Permitted toy formats desk clock daemon (input_with 1 53) (cons_ne injects)

-- An arm message meets the closed gate, and an approve message of "d" one without approvals.
armed_until :
    (handle_msg_conn toy formats desk clock closed_daemon (input_with 3 53)).1.arm_gate.armed_until
    ≡ 50
unfolding handle_msg_conn handle_frame decrypt_message_frame route arm_message Arm.arm_for bytes_dec
armed_until = refl

handle_msg_conn-arm_gate_example :
    Message toy formats desk clock closed_daemon (input_with 3 53) msg_type_arm
handle_msg_conn-arm_gate_example =
    handle_msg_conn-arm_gate toy formats desk clock closed_daemon (input_with 3 53)
      (λ e. ground (arith, armed_until)) (λ e. ground (arith, armed_until))

approved_at :
    lookup
      (codes "d")
      (handle_msg_conn toy formats desk clock closed_daemon (input_with 2 53)).1.approval_gate.until
    ≡ some 15_000_000_050
unfolding handle_msg_conn handle_frame decrypt_message_frame route approve_message TwoMan.approve
    TwoMan.approve_window bytes_dec lookup
approved_at = refl

handle_msg_conn-approval_gate_example :
    Approves toy formats desk clock closed_daemon (input_with 2 53) (codes "d")
unfolding lookup
handle_msg_conn-approval_gate_example =
    handle_msg_conn-approval_gate toy formats desk clock closed_daemon (input_with 2 53) (codes "d")
      15_000_000_050 tt approved_at (λ e. cc)

-- Two connections with the same inject message.
abbrev twice : List Connection
twice =
    record { desk = desk; clock = clock; input = input_with 1 53 }
    ∷ record { desk = desk; clock = clock; input = input_with 1 53 }
    ∷ []

injections-le-armings_example :
    injections toy formats daemon twice ≤ armings toy formats daemon twice + 1
injections-le-armings_example = injections-le-armings toy formats daemon twice refl
