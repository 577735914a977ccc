-- ===== src/Handler/Inject/Laws.antt =====
-- When the inject path injects, when it copies, and what it leaves of the gates.
use nova_key_daemon.Common.{
  ℕ, ◌≡◌, refl, ap, Bool, true, false, not, ◌&&◌, ◌||◌, [], ◌∷◌, arith, if◌then◌else◌, Bytes,
  Result, ok, err, is_ok, Bool-cases, inl, inr,
}
use nova_key_daemon.Common.Text.{Unicode}
use nova_key_daemon.Config.{
  ServerConfig, bool_deref, allow_clipboard_when_blocked, allow_clipboard_on_failure,
}
use nova_key_daemon.Gates.Arm
use nova_key_daemon.Gates.TwoMan
use nova_key_daemon.Policy.InjectText.{InjectTextError, validate_inject_text}
use nova_key_daemon.Policy.Target.{TargetError, enforce_target_policy}
use nova_key_daemon.Handler.{
  Desktop, Clock, Daemon, InjectError, unavailable_wayland, inject_failed, InjectMethod,
}
use nova_key_daemon.Handler.Actions.{injected, copied}
use nova_key_daemon.Handler.Reply.{RespStatus, ReplyReason}
use nova_key_daemon.Handler.Inject.{
  blocked, after_injection, arm_step, arm_part, approval_step, approval_part, is_wayland,
  policy_blocked, policy_part, text_part, inject_path,
}

module _ (u : Unicode) (desk : Desktop) (clock : Clock) (req_id : ℕ) where
  -- The gates' answers.
  abbrev pub armed : Daemon → Bool
  armed d = (Arm.consume d.arm_gate clock.arm (bool_deref d.cfg.arm_consume_on_inject true)).0

  abbrev pub approved : Daemon → Bytes → Bool
  approved d id =
      (TwoMan.consume d.approval_gate clock.approval id
        (bool_deref d.cfg.approve_consume_on_inject true)).0

  -- The text is safe, the target is allowed, and both gates are open.
  abbrev pub acceptable : Daemon → Bytes → Bool
  acceptable d password =
      is_ok (validate_inject_text d.cfg password)
      && is_ok (enforce_target_policy u d.cfg desk.focused)

  abbrev pub gates_open : Daemon → Bytes → Bool
  gates_open d id = (not (bool_deref d.cfg.two_man_enabled true) || approved d id) && armed d

  pub blocked-injected :
      (cfg : ServerConfig) (p : Bytes) (st : RespStatus) (r : ReplyReason) (a b c : Bytes)
      → injected (blocked u desk clock req_id cfg p st r a b c) ≡ []
  unfolding blocked
  blocked-injected cfg p st r a b c = ground arith

  pub blocked-copied :
      (cfg : ServerConfig) (p : Bytes) (st : RespStatus) (r : ReplyReason) (a b c : Bytes)
      → allow_clipboard_when_blocked cfg ≡ false
      → copied (blocked u desk clock req_id cfg p st r a b c) ≡ []
  unfolding blocked
  blocked-copied cfg p st r a b c h = ground arith

  after_injection-injected :
      (cfg : ServerConfig) (p : Bytes) (r : Result InjectError InjectMethod)
      → injected (after_injection u desk clock req_id cfg p r) ≡ []
  unfolding after_injection
  after_injection-injected cfg p (ok m) = refl
  after_injection-injected cfg p (err unavailable_wayland) = ground arith
  after_injection-injected cfg p (err inject_failed) = ground arith

  pub after_injection-copied :
      (cfg : ServerConfig) (p : Bytes) (r : Result InjectError InjectMethod)
      → allow_clipboard_on_failure cfg ≡ false
      → copied (after_injection u desk clock req_id cfg p r) ≡ []
  unfolding after_injection
  after_injection-copied cfg p (ok m) h = refl
  after_injection-copied cfg p (err e) h = ground arith

  arm_step-injected :
      (d : Daemon) (p : Bytes) (r : Bool × Arm.ArmGate)
      → injected (arm_step u desk clock req_id d p r).0 ≡ (if r.0 then p ∷ [] else [])
  unfolding arm_step
  arm_step-injected d p (false, g) = blocked-injected d.cfg p _ _ _ _ _
  arm_step-injected d p (true, g) =
      ap (λ s. p ∷ s) (after_injection-injected d.cfg p desk.injection)

  pub arm_part-injected :
      (d : Daemon) (p : Bytes)
      → injected (arm_part u desk clock req_id d p).0 ≡ (if armed d then p ∷ [] else [])
  unfolding arm_part
  arm_part-injected d p = arm_step-injected d p _

  approval_step-injected :
      (d : Daemon) (p : Bytes) (r : Bool × TwoMan.TwoManGate)
      → injected (approval_step u desk clock req_id d p r).0
        ≡ (if r.0 && armed d then p ∷ [] else [])
  unfolding approval_step
  approval_step-injected d p (false, g) = blocked-injected d.cfg p _ _ _ _ _
  approval_step-injected d p (true, g) = arm_part-injected (record d { approval_gate = g }) p

  approval_part-injected :
      (d : Daemon) (id p : Bytes)
      → injected (approval_part u desk clock req_id d id p).0
        ≡ (if gates_open d id then p ∷ [] else [])
  unfolding approval_part
  approval_part-injected d id p = elim (Bool-cases (bool_deref d.cfg.two_man_enabled true)) [
    | inl on ↦ rw on (approval_step-injected d p _)
    | inr off ↦ rw off (arm_part-injected d p)
  ]

  pub policy_blocked-injected :
      (d : Daemon) (p : Bytes) (w : Bool) → injected (policy_blocked u desk clock req_id d p w) ≡ []
  policy_blocked-injected d p true = blocked-injected d.cfg p _ _ _ _ _
  policy_blocked-injected d p false = blocked-injected d.cfg p _ _ _ _ _

  policy_part-injected :
      (d : Daemon) (id p : Bytes) (r : Result TargetError (Unit {0}))
      → injected (policy_part u desk clock req_id d id p r).0
        ≡ (if is_ok r && gates_open d id then p ∷ [] else [])
  unfolding policy_part
  policy_part-injected d id p (ok _) = approval_part-injected d id p
  policy_part-injected d id p (err e) = policy_blocked-injected d p (is_wayland u desk)

  text_part-injected :
      (d : Daemon) (id p : Bytes) (r : Result InjectTextError (Unit {0}))
      → injected (text_part u desk clock req_id d id p r).0 ≡ (
          if (is_ok r && is_ok (enforce_target_policy u d.cfg desk.focused)) && gates_open d id
          then p ∷ []
          else [])
  unfolding text_part
  text_part-injected d id p (ok _) = policy_part-injected d id p _
  text_part-injected d id p (err e) = blocked-injected d.cfg p _ _ _ _ _

  -- An inject message injects exactly its own text, exactly once, and exactly if the text is safe,
  -- the focused target is allowed, the device is approved (where two-man mode is on) and the arm
  -- gate is open.
  pub inject_path-injected :
      (d : Daemon) (id p : Bytes)
      → injected (inject_path u desk clock req_id d id p).0
        ≡ (if acceptable d p && gates_open d id then p ∷ [] else [])
  unfolding inject_path
  inject_path-injected d id p = text_part-injected d id p _

  -- An unsafe text, or a target that the policy refuses, changes no state: neither gate is consumed.
  pub inject_path_unacceptable :
      (d : Daemon) (id p : Bytes)
      → acceptable d p ≡ false
      → (inject_path u desk clock req_id d id p).1 ≡ d
  unfolding inject_path
  inject_path_unacceptable d id p h = text (validate_inject_text d.cfg p) h
    where
      policy :
          (r : Result TargetError (Unit {0}))
          → is_ok r ≡ false
          → (policy_part u desk clock req_id d id p r).1 ≡ d
      policy (ok _) k = absurd (ground arith)
      policy (err e) k = unfold policy_part in refl

      text :
          (r : Result InjectTextError (Unit {0}))
          → (is_ok r && is_ok (enforce_target_policy u d.cfg desk.focused)) ≡ false
          → (text_part u desk clock req_id d id p r).1 ≡ d
      text (ok _) k = unfold text_part in policy _ k
      text (err e) k = unfold text_part in refl
