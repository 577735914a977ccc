-- ===== src/Handler/Inject/Effects.antt =====
-- The copies of the inject path, and what it does to the gates.
use nova_key_daemon.Common.{
  ℕ, ◌≡◌, Bool, true, false, List, [], ◌∷◌, Bytes, Result, ok, err, Bool-cases, inl, inr,
}
use nova_key_daemon.Common.Text.{Unicode}
use nova_key_daemon.Config.{
  ServerConfig, bool_deref, allow_clipboard_when_blocked, allow_clipboard_on_failure,
}
use nova_key_daemon.Gates.Arm
use nova_key_daemon.Gates.TwoMan
use nova_key_daemon.Policy.InjectText.{InjectTextError}
use nova_key_daemon.Policy.Target.{TargetError}
use nova_key_daemon.Handler.{Desktop, Clock, Daemon, Action, inject_password}
use nova_key_daemon.Handler.Reply.{RespStatus, ReplyReason}
use nova_key_daemon.Handler.Actions.{copied}
use nova_key_daemon.Handler.Inject.{
  blocked, after_injection, arm_step, arm_part, approval_step, approval_part, is_wayland,
  policy_blocked, policy_part, text_part, inject_path,
}
use nova_key_daemon.Handler.Inject.Laws.{blocked-copied, after_injection-copied}

module _ (u : Unicode) (desk : Desktop) (clock : Clock) (req_id : ℕ) where
  -- A property of the actions that every single answer has is one of the whole path.
  module _ (P : List Action → Type 0) where
    abbrev OnBlocked : ServerConfig → Bytes → Type 0
    OnBlocked cfg p =
        (st : RespStatus) (r : ReplyReason) (a b c : Bytes)
        → P (blocked u desk clock req_id cfg p st r a b c)

    abbrev OnInjection : ServerConfig → Bytes → Type 0
    OnInjection cfg p =
        P (inject_password p ∷ after_injection u desk clock req_id cfg p desk.injection)

    arm_step_all :
        (d : Daemon) (p : Bytes) (r : Bool × Arm.ArmGate)
        → OnBlocked d.cfg p
        → OnInjection d.cfg p
        → P (arm_step u desk clock req_id d p r).0
    unfolding arm_step
    arm_step_all d p (false, g) hb hi = hb _ _ _ _ _
    arm_step_all d p (true, g) hb hi = hi

    approval_step_all :
        (d : Daemon) (p : Bytes) (r : Bool × TwoMan.TwoManGate)
        → OnBlocked d.cfg p
        → OnInjection d.cfg p
        → P (approval_step u desk clock req_id d p r).0
    unfolding approval_step arm_part
    approval_step_all d p (false, g) hb hi = hb _ _ _ _ _
    approval_step_all d p (true, g) hb hi = arm_step_all (record d { approval_gate = g }) p _ hb hi

    approval_part_all :
        (d : Daemon) (id p : Bytes)
        → OnBlocked d.cfg p
        → OnInjection d.cfg p
        → P (approval_part u desk clock req_id d id p).0
    unfolding approval_part arm_part
    approval_part_all d id p hb hi = elim (Bool-cases (bool_deref d.cfg.two_man_enabled true)) [
      | inl on ↦ rw on (approval_step_all d p _ hb hi)
      | inr off ↦ rw off (arm_step_all d p _ hb hi)
    ]

    policy_part_all :
        (d : Daemon) (id p : Bytes) (r : Result TargetError (Unit {0}))
        → OnBlocked d.cfg p
        → OnInjection d.cfg p
        → P (policy_part u desk clock req_id d id p r).0
    unfolding policy_part
    policy_part_all d id p (ok _) hb hi = approval_part_all d id p hb hi
    policy_part_all d id p (err e) hb hi = either (is_wayland u desk)
      where
        either : (w : Bool) → P (policy_blocked u desk clock req_id d p w)
        either true = hb _ _ _ _ _
        either false = hb _ _ _ _ _

    text_part_all :
        (d : Daemon) (id p : Bytes) (r : Result InjectTextError (Unit {0}))
        → OnBlocked d.cfg p
        → OnInjection d.cfg p
        → P (text_part u desk clock req_id d id p r).0
    unfolding text_part
    text_part_all d id p (ok _) hb hi = policy_part_all d id p _ hb hi
    text_part_all d id p (err e) hb hi = hb _ _ _ _ _

  -- No copy where both switches are off.
  pub inject_path-copied :
      (d : Daemon) (id p : Bytes)
      → allow_clipboard_when_blocked d.cfg ≡ false
      → allow_clipboard_on_failure d.cfg ≡ false
      → copied (inject_path u desk clock req_id d id p).0 ≡ []
  unfolding inject_path
  inject_path-copied d id p hb hf =
      text_part_all (λ l. copied l ≡ []) d id p _
        (λ st r a b c. blocked-copied u desk clock req_id d.cfg p st r a b c hb)
        (after_injection-copied u desk clock req_id d.cfg p desk.injection hf)
