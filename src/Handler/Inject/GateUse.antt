-- ===== src/Handler/Inject/GateUse.antt =====
-- What the inject path does to the two gates.
use nova_key_daemon.Common.{
  ℕ, ◌≡◌, ◌≤◌, ◌⊎◌, ◌+◌, refl, ◌∙◌, ap, Bool, true, false, not, ◌&&◌, ◌||◌, none, some, List, [],
  ◌∷◌, arith, if◌then◌else◌, Bytes, length, Result, ok, err, is_ok, Bool-cases, inl, inr, =?_refl,
}
use nova_key_daemon.Common.Text.{Unicode}
use nova_key_daemon.Common.Dict.{lookup, NodupKeys}
use nova_key_daemon.Config.{bool_deref}
use nova_key_daemon.Gates.Arm
use nova_key_daemon.Gates.Arm.History.{consume_paid, consume_lowers, armed}
use nova_key_daemon.Gates.TwoMan
use nova_key_daemon.Gates.TwoMan.Laws.{lookup-consume}
use nova_key_daemon.Policy.InjectText.{InjectTextError, validate_inject_text}
use nova_key_daemon.Policy.Target.{TargetError, enforce_target_policy}
use nova_key_daemon.Handler.{Desktop, Clock, Daemon, Action}
use nova_key_daemon.Handler.Actions.{injected}
use nova_key_daemon.Handler.Inject.{
  arm_step, arm_part, approval_step, approval_part, policy_part, text_part, inject_path,
}
use nova_key_daemon.Handler.Inject.Laws.{
  arm_part-injected, acceptable, approved, inject_path-injected, blocked-injected,
  policy_blocked-injected,
}
use nova_key_daemon.Handler.Inject.Laws

length_by : (l l' : List Bytes) (n m : ℕ) → l ≡ l' → length l' + n ≤ m → length l + n ≤ m
length_by l l' n m e h = rw (ap length e) h

module _ (u : Unicode) (desk : Desktop) (clock : Clock) (req_id : ℕ) where
  -- Every approval of the gate is one of the daemon's.
  abbrev Drops : Daemon → TwoMan.TwoManGate → Type 0
  Drops d g =
      NodupKeys d.approval_gate.until
      → (j : Bytes) (w : ℕ) → lookup j g.until ≡ some w
      → lookup j d.approval_gate.until ≡ some w

  -- What is injected is paid for by the arm gate; neither gate is opened; nothing else changes.
  pub record Spends (d : Daemon) (r : List Action × Daemon) : Type 0 where
    pub paid :
        bool_deref d.cfg.arm_consume_on_inject true ≡ true
        → length (injected r.0) + armed r.1.arm_gate ≤ armed d.arm_gate
    pub lowered : (r.1.arm_gate.armed_until ≡ 0) ⊎ (r.1.arm_gate ≡ d.arm_gate)
    pub approvals_drop : Drops d r.1.approval_gate
    pub cfg_stays : r.1.cfg ≡ d.cfg

  consume-Drops :
      (d : Daemon) (id : Bytes) (c : Bool)
      → Drops d (TwoMan.consume d.approval_gate clock.approval id c).1
  consume-Drops d id c nodup j w h =
      ground (arith, lookup-consume d.approval_gate clock.approval id j c nodup)

  nothing_spent :
      (d : Daemon) (l : List Action) (g : TwoMan.TwoManGate)
      → injected l ≡ []
      → Drops d g
      → Spends d (l, record d { approval_gate = g })
  nothing_spent d l g e drops = record {
    paid = λ c. ground (arith, e);
    lowered = inr refl;
    approvals_drop = drops;
    cfg_stays = refl;
  }

  arm_step-Spends :
      (d : Daemon) (p : Bytes) (r : Bool × Arm.ArmGate)
      → injected (arm_step u desk clock req_id d p r).0 ≡ (if r.0 then p ∷ [] else [])
      → (bool_deref d.cfg.arm_consume_on_inject true ≡ true
          → (if r.0 then 1 else 0) + armed r.1 ≤ armed d.arm_gate)
      → (r.1.armed_until ≡ 0) ⊎ (r.1 ≡ d.arm_gate)
      → Spends d (arm_step u desk clock req_id d p r)
  unfolding arm_step
  arm_step-Spends d p (false, g) e k low = record {
    paid = λ c. length_by _ _ _ _ e (k c);
    lowered = low;
    approvals_drop = λ nodup j w h. h;
    cfg_stays = refl;
  }
  arm_step-Spends d p (true, g) e k low = record {
    paid = λ c. length_by _ _ _ _ e (k c);
    lowered = low;
    approvals_drop = λ nodup j w h. h;
    cfg_stays = refl;
  }

  -- The arm gate's part leaves the approvals.
  gate_stays :
      (d : Daemon) (g : TwoMan.TwoManGate) (p : Bytes)
      → (arm_part u desk clock req_id (record d { approval_gate = g }) p).1.approval_gate ≡ g
  gate_stays d g p =
      unfold arm_part in
      arm (Arm.consume d.arm_gate clock.arm (bool_deref d.cfg.arm_consume_on_inject true))
    where
      arm :
          (r : Bool × Arm.ArmGate)
          → (arm_step u desk clock req_id (record d { approval_gate = g }) p r).1.approval_gate ≡ g
      arm (false, a) = unfold arm_step in refl
      arm (true, a) = unfold arm_step in refl

  arm_part-Spends : (d : Daemon) (p : Bytes) → Spends d (arm_part u desk clock req_id d p)
  unfolding arm_part
  arm_part-Spends d p =
      arm_step-Spends d p _ (arm_part-injected u desk clock req_id d p)
        (consume_paid d.arm_gate clock.arm (bool_deref d.cfg.arm_consume_on_inject true))
        (consume_lowers d.arm_gate clock.arm (bool_deref d.cfg.arm_consume_on_inject true))

  approval_step-Spends :
      (d : Daemon) (p : Bytes) (r : Bool × TwoMan.TwoManGate)
      → Drops d r.1
      → Spends d (approval_step u desk clock req_id d p r)
  unfolding approval_step
  approval_step-Spends d p (false, g) drops =
      nothing_spent d _ g (blocked-injected u desk clock req_id d.cfg p _ _ _ _ _) drops
  approval_step-Spends d p (true, g) drops =
      let s = arm_part-Spends (record d { approval_gate = g }) p in
      record {
        paid = s.paid;
        lowered = s.lowered;
        approvals_drop = λ nodup j w h. drops nodup j w (rw (gate_stays d g p) at h);
        cfg_stays = s.cfg_stays;
      }

  approval_part-Spends :
      (d : Daemon) (id p : Bytes) → Spends d (approval_part u desk clock req_id d id p)
  unfolding approval_part
  approval_part-Spends d id p = elim (Bool-cases (bool_deref d.cfg.two_man_enabled true)) [
    | inl on ↦ rw on (
        approval_step-Spends d p _
          (consume-Drops d id (bool_deref d.cfg.approve_consume_on_inject true)))
    | inr off ↦ rw off (arm_part-Spends d p)
  ]

  policy_part-Spends :
      (d : Daemon) (id p : Bytes) (r : Result TargetError (Unit {0}))
      → Spends d (policy_part u desk clock req_id d id p r)
  unfolding policy_part
  policy_part-Spends d id p (ok _) = approval_part-Spends d id p
  policy_part-Spends d id p (err e) =
      nothing_spent d _ d.approval_gate (policy_blocked-injected u desk clock req_id d p _)
        (λ nodup j w h. h)

  text_part-Spends :
      (d : Daemon) (id p : Bytes) (r : Result InjectTextError (Unit {0}))
      → Spends d (text_part u desk clock req_id d id p r)
  unfolding text_part
  text_part-Spends d id p (ok _) = policy_part-Spends d id p _
  text_part-Spends d id p (err e) =
      nothing_spent d _ d.approval_gate (blocked-injected u desk clock req_id d.cfg p _ _ _ _ _)
        (λ nodup j w h. h)

  pub inject_path-Spends :
      (d : Daemon) (id p : Bytes) → Spends d (inject_path u desk clock req_id d id p)
  unfolding inject_path
  inject_path-Spends d id p = text_part-Spends d id p _

  -- With an acceptable text and target, the two-man gate is asked, and keeps what it answered.
  approval_used :
      (d : Daemon) (id p : Bytes)
      → acceptable u desk clock req_id d p ≡ true
      → bool_deref d.cfg.two_man_enabled true ≡ true
      → (inject_path u desk clock req_id d id p).1.approval_gate
        ≡ (TwoMan.consume d.approval_gate clock.approval id
            (bool_deref d.cfg.approve_consume_on_inject true)).1
  approval_used d id p h on = unfold inject_path in text (validate_inject_text d.cfg p) h
    where
      used :
          (r : Bool × TwoMan.TwoManGate)
          → (approval_step u desk clock req_id d p r).1.approval_gate ≡ r.1
      used (false, g) = unfold approval_step in refl
      used (true, g) = unfold approval_step in gate_stays d g p

      policy :
          (r : Result TargetError (Unit {0}))
          → is_ok r ≡ true
          → (policy_part u desk clock req_id d id p r).1.approval_gate
            ≡ (TwoMan.consume d.approval_gate clock.approval id
                (bool_deref d.cfg.approve_consume_on_inject true)).1
      policy (ok _) k =
          unfold policy_part in
          unfold approval_part in
          rw on (
            used (
              TwoMan.consume d.approval_gate clock.approval id
                (bool_deref d.cfg.approve_consume_on_inject true)))
      policy (err e) k = absurd (ground arith)

      text :
          (r : Result InjectTextError (Unit {0}))
          → (is_ok r && is_ok (enforce_target_policy u d.cfg desk.focused)) ≡ true
          → (text_part u desk clock req_id d id p r).1.approval_gate
            ≡ (TwoMan.consume d.approval_gate clock.approval id
                (bool_deref d.cfg.approve_consume_on_inject true)).1
      text (ok _) k = unfold text_part in policy _ k
      text (err e) k = absurd (ground arith)

  -- The approval is consumed before the arm gate is asked: an approved device whose message meets a
  -- gate that is not armed injects nothing and has lost its approval.
  pub inject_path_unarmed :
      (d : Daemon) (id p : Bytes)
      → NodupKeys d.approval_gate.until
      → acceptable u desk clock req_id d p ≡ true
      → bool_deref d.cfg.two_man_enabled true ≡ true
      → bool_deref d.cfg.approve_consume_on_inject true ≡ true
      → Laws.armed u desk clock req_id d ≡ false
      → (injected (inject_path u desk clock req_id d id p).0 ≡ [])
        × (lookup id (inject_path u desk clock req_id d id p).1.approval_gate.until ≡ none)
  inject_path_unarmed d id p nodup good on consuming unarmed = (
    inject_path-injected u desk clock req_id d id p
        ∙ unarmed_none (acceptable u desk clock req_id d p)
            (not (bool_deref d.cfg.two_man_enabled true) || approved u desk clock req_id d id)
            (Laws.armed u desk clock req_id d) unarmed,
    ap (λ g. lookup id g.until) (approval_used d id p good on)
        ∙ lookup-consume d.approval_gate clock.approval id id
            (bool_deref d.cfg.approve_consume_on_inject true) nodup
        ∙ rw (=?_refl id, consuming) refl,
  )
    where
      unarmed_none : (a b c : Bool) → c ≡ false → (if a && (b && c) then p ∷ [] else []) ≡ []
      unarmed_none a b c h = ground arith
