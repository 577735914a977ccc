-- ===== src/Handler/Inject.antt =====
-- The inject path of `handleMsgConn`: the unsafe-text filter, the target policy, the two gates, and
-- the injection.
pub mod Laws
pub mod Effects
pub mod GateUse
use nova_key_daemon.Common.{
  ℕ, Bool, true, false, not, ◌||◌, List, [], ◌∷◌, if◌then◌else◌, Bytes, codes, bytes_dec, ◌=?◌,
  Result, ok, err,
}
use nova_key_daemon.Common.Text.{Unicode, to_lower, trim_space}
use nova_key_daemon.Config.{
  ServerConfig, bool_deref, allow_clipboard_when_blocked, allow_clipboard_on_failure,
}
use nova_key_daemon.Gates.Arm
use nova_key_daemon.Gates.TwoMan
use nova_key_daemon.Policy.InjectText.{InjectTextError, validate_inject_text}
use nova_key_daemon.Policy.Target.{TargetError, enforce_target_policy}
use nova_key_daemon.Handler.{
  Desktop, Clock, Daemon, Action, try_set_clipboard, inject_password, reply, InjectMethod, direct,
  typing, clipboard, other_method, InjectError, unavailable_wayland, inject_failed,
}
use nova_key_daemon.Handler.Reply.{
  RespStatus, status_ok, status_not_armed, status_needs_approve, status_bad_request,
  status_ok_clipboard, status_internal, ReplyReason, reason_ok, reason_clipboard_fallback,
  reason_typing_fallback, reason_inject_unavailable_wayland, reason_not_armed, reason_needs_approve,
  reason_bad_request, reason_internal, stage_inject, make_reply,
}

abbrev pub is_wayland : Unicode → Desktop → Bool
is_wayland u desk =
    (to_lower u (trim_space u desk.xdg_session_type) =? codes "wayland")
    || not (desk.wayland_display =? [])

module _ (u : Unicode) (desk : Desktop) (clock : Clock) (req_id : ℕ) where
  abbrev pub respond : RespStatus → ReplyReason → Bytes → List Action
  respond st reason msg = reply (make_reply req_id clock.unix_reply st stage_inject reason msg) ∷ []

  -- The answer to a blocked injection. The texts are those of a clipboard that failed, of one that
  -- was set, and of a clipboard that is not to be used.
  unfoldable pub blocked :
      ServerConfig → Bytes → RespStatus → ReplyReason → Bytes → Bytes → Bytes → List Action
  unfolding make_reply
  blocked cfg password st reason failed_msg set_msg msg =
      if allow_clipboard_when_blocked cfg
      then try_set_clipboard password
        ∷ (if desk.clipboard_works
            then respond status_ok_clipboard reason_clipboard_fallback set_msg
            else respond st reason failed_msg)
      else respond st reason msg

  abbrev pub method_reason : InjectMethod → ReplyReason
  method_reason direct = reason_ok
  method_reason typing = reason_typing_fallback
  method_reason clipboard = reason_clipboard_fallback
  method_reason other_method = reason_ok

  abbrev pub method_msg : InjectMethod → Bytes
  method_msg direct = codes "ok"
  method_msg typing = codes "auto-typing used"
  method_msg clipboard = codes "clipboard paste used"
  method_msg other_method = codes "ok"

  abbrev pub fallback : InjectError → List Action
  fallback unavailable_wayland =
      respond status_ok_clipboard reason_inject_unavailable_wayland
        (codes "clipboard set (wayland; paste to insert)")
  fallback inject_failed =
      respond status_ok_clipboard reason_clipboard_fallback
        (codes "clipboard set (inject failed; paste to insert)")

  unfoldable pub after_injection :
      ServerConfig → Bytes → Result InjectError InjectMethod → List Action
  unfolding make_reply
  after_injection cfg password (ok method) =
      respond status_ok (method_reason method) (method_msg method)
  after_injection cfg password (err e) =
      if allow_clipboard_on_failure cfg
      then try_set_clipboard password
        ∷ (if desk.clipboard_works
            then fallback e
            else respond status_internal reason_internal (codes "inject failed; clipboard failed"))
      else respond status_internal reason_internal (codes "inject failed")

  -- The arm gate and the injection.
  unfoldable pub arm_step : Daemon → Bytes → Bool × Arm.ArmGate → List Action × Daemon
  arm_step d password (false, g) = (
    blocked d.cfg password status_not_armed reason_not_armed (codes "not armed; clipboard failed")
        (codes "clipboard set (not armed)") (codes "not armed"),
    record d { arm_gate = g },
  )
  arm_step d password (true, g) = (
    inject_password password ∷ after_injection d.cfg password desk.injection,
    record d { arm_gate = g },
  )

  unfoldable pub arm_part : Daemon → Bytes → List Action × Daemon
  unfolding arm_step
  arm_part d password =
      arm_step d password
        (Arm.consume d.arm_gate clock.arm (bool_deref d.cfg.arm_consume_on_inject true))

  unfoldable pub approval_step : Daemon → Bytes → Bool × TwoMan.TwoManGate → List Action × Daemon
  unfolding arm_part
  approval_step d password (false, g) = (
    blocked d.cfg password status_needs_approve reason_needs_approve
        (codes "needs approve; clipboard failed") (codes "clipboard set (needs approve)")
        (codes "needs approve"),
    record d { approval_gate = g },
  )
  approval_step d password (true, g) = arm_part (record d { approval_gate = g }) password

  -- The two-man gate, where it is in use, and what follows.
  unfoldable pub approval_part : Daemon → Bytes → Bytes → List Action × Daemon
  unfolding approval_step arm_part
  approval_part d device_id password =
      if bool_deref d.cfg.two_man_enabled true
      then approval_step d password (
          TwoMan.consume d.approval_gate clock.approval device_id
            (bool_deref d.cfg.approve_consume_on_inject true))
      else arm_part d password

  abbrev pub policy_blocked : Daemon → Bytes → Bool → List Action
  policy_blocked d password true =
      blocked d.cfg password status_bad_request reason_bad_request
        (codes "target policy unavailable on wayland; clipboard failed")
        (codes "clipboard set (target policy unavailable on wayland)")
        (codes
          "target policy unavailable on wayland (disable target_policy_enabled, run under X11/Xwayland, or enable allow_clipboard_when_disarmed)")
  policy_blocked d password false =
      blocked d.cfg password status_bad_request reason_bad_request
        (codes "target policy blocked; clipboard failed")
        (codes "clipboard set (target policy blocked)") (codes "target policy blocked")

  unfoldable pub policy_part :
      Daemon → Bytes → Bytes → Result TargetError (Unit {0}) → List Action × Daemon
  unfolding approval_part
  policy_part d device_id password (ok _) = approval_part d device_id password
  policy_part d device_id password (err e) = (policy_blocked d password (is_wayland u desk), d)

  unfoldable pub text_part :
      Daemon → Bytes → Bytes → Result InjectTextError (Unit {0}) → List Action × Daemon
  unfolding policy_part
  text_part d device_id password (ok _) =
      policy_part d device_id password (enforce_target_policy u d.cfg desk.focused)
  text_part d device_id password (err e) = (
    blocked d.cfg password status_bad_request reason_bad_request
        (codes "unsafe text; clipboard failed") (codes "clipboard set (unsafe text blocked)")
        (codes "unsafe text"),
    d,
  )

  unfoldable pub inject_path : Daemon → Bytes → Bytes → List Action × Daemon
  unfolding text_part
  inject_path d device_id password =
      text_part d device_id password (validate_inject_text d.cfg password)
