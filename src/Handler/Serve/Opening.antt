-- ===== src/Handler/Serve/Opening.antt =====
-- What it takes to open a gate.
use nova_key_daemon.Common.{
  ℕ, ◌≡◌, ◌≢◌, ◌⊎◌, inl, inr, refl, Bool, true, false, some, List, [], ◌∷◌, arith, Bytes,
  if◌then◌else◌, Bool-cases, bytes_dec, ite, Option, none, sym, ◌∙◌,
}
use nova_key_daemon.Common.Dict.{lookup, NodupKeys, keep_if}
use nova_key_daemon.Config.{bool_deref}
use nova_key_daemon.Gates.Arm
use nova_key_daemon.Gates.Clock.{add_time}
use nova_key_daemon.Gates.TwoMan
use nova_key_daemon.Gates.TwoMan.Laws.{lookup-approve}
use nova_key_daemon.Message.Crypto.{Crypto}
use nova_key_daemon.Message.Inner.{msg_type_approve, msg_type_arm}
use nova_key_daemon.Message.Freshness.{ReplayState}
use nova_key_daemon.Message.Receive.Laws.{Received}
use nova_key_daemon.Handler.{Desktop, Clock, Daemon, Action, reply}
use nova_key_daemon.Handler.Inject.{inject_path}
use nova_key_daemon.Handler.Inject.GateUse.{inject_path-Spends}
use nova_key_daemon.Handler.Serve.{
  Input, Formats, arm_message, disarm_message, approve_message, handle_msg_conn,
}
use nova_key_daemon.Handler.Serve.Laws.{frame_of, numbered, serve_all}
use nova_key_daemon.Handler.Serve.Safety.{route_all}

kept_some : (f : ℕ → Bool) (o : Option ℕ) (w : ℕ) → keep_if f o ≡ some w → o ≡ some w
kept_some f none w h = cc
kept_some f (some v) w h = ground arith

-- An approval after the approve message of `id` is one of before, or the device's own.
approve_message-lookup :
    (C : Crypto) (F : Formats) (desk : Desktop) (clock : Clock) (n : ℕ) (d : Daemon) (id j : Bytes)
    (w : ℕ)
    → NodupKeys d.approval_gate.until
    → lookup j (approve_message C F desk clock n d id).1.approval_gate.until ≡ some w
    → lookup j d.approval_gate.until ≢ some w
    → (j ≡ id) × (bool_deref d.cfg.two_man_enabled true ≡ true)
unfolding approve_message
approve_message-lookup C F desk clock n d id j w nodup h k =
    elim (Bool-cases (bool_deref d.cfg.two_man_enabled true)) [
      | inr off ↦ absurd (k (rw off at h))
      | inl on ↦ (
        own (bytes_dec j id) (
            sym (
              lookup-approve d.approval_gate clock.cleanup clock.approval
                (TwoMan.approve_window d.cfg.approve_window_ms) id j nodup)
            ∙ (rw on at h)),
        on,
      )
    ]
  where
    own :
        (dec : Dec (j ≡ id))
        → (if ite dec true false
            then some (add_time clock.approval (TwoMan.approve_window d.cfg.approve_window_ms))
            else keep_if (TwoMan.alive clock.cleanup) (lookup j d.approval_gate.until))
          ≡ some w
        → j ≡ id
    own (yes p) e = p
    own (no q) e =
        absurd (k (kept_some (TwoMan.alive clock.cleanup) (lookup j d.approval_gate.until) w e))

module _ (C : Crypto) (F : Formats) (desk : Desktop) (clock : Clock) where
  -- An accepted message of the type.
  pub record Message (d : Daemon) (input : Input) (t : ℕ) : Type 0 where
    pub device_id : Bytes
    pub payload : Bytes
    pub received :
        Received C d.keys d.requests clock.unix d.cfg.max_requests_per_min
          (frame_of input)
          device_id
          t
          payload

  -- The arm gate is opened, or its window moved, by an accepted arm message only.
  pub handle_msg_conn-arm_gate :
      (d : Daemon) (input : Input)
      → (handle_msg_conn C F desk clock d input).1.arm_gate.armed_until ≢ 0
      → (handle_msg_conn C F desk clock d input).1.arm_gate ≢ d.arm_gate
      → Message d input msg_type_arm
  handle_msg_conn-arm_gate d input =
      unfold handle_msg_conn in
      serve_all C F desk clock n Guarded (numbered d) input
        (λ r st. lowered (reply r ∷ [], record (numbered d) { requests = st }) (inr refl))
        (λ id t pl st e.
          let d' = record (numbered d) { requests = st } in
          route_all C F desk clock n Guarded d' id t pl
            (λ arm h k. record { device_id = id; payload = pl; received = rw arm at e })
            (lowered (disarm_message C F desk clock n d')
              (inl (unfold disarm_message in unfold Arm.disarm in refl)))
            (λ _.
              lowered (approve_message C F desk clock n d' id)
                (inr (unfold approve_message in ground arith)))
            (λ _.
              lowered (inject_path F.unicode desk clock n d' id pl)
                (inject_path-Spends F.unicode desk clock n d' id pl).lowered)
            (λ r. lowered (reply r ∷ [], d') (inr refl)))
    where
      n : ℕ
      n = (numbered d).global_req_id

      Guarded : List Action × Daemon → Type 0
      Guarded r =
          r.1.arm_gate.armed_until ≢ 0 → r.1.arm_gate ≢ d.arm_gate → Message d input msg_type_arm

      lowered :
          (r : List Action × Daemon)
          → (r.1.arm_gate.armed_until ≡ 0) ⊎ (r.1.arm_gate ≡ d.arm_gate)
          → Guarded r
      lowered r (inl e) h k = absurd (h e)
      lowered r (inr e) h k = absurd (k e)

  pub record Approves (d : Daemon) (input : Input) (j : Bytes) : Type 0 where
    pub payload : Bytes
    pub received :
        Received C d.keys d.requests clock.unix d.cfg.max_requests_per_min
          (frame_of input)
          j
          msg_type_approve
          payload
    pub in_use : bool_deref d.cfg.two_man_enabled true ≡ true

  -- An approval that was not there before comes from an accepted approve message of that very
  -- device, with two-man mode on; in a gate whose map has no key twice.
  pub handle_msg_conn-approval_gate :
      (d : Daemon) (input : Input) (j : Bytes) (w : ℕ)
      → NodupKeys d.approval_gate.until
      → lookup j (handle_msg_conn C F desk clock d input).1.approval_gate.until ≡ some w
      → lookup j d.approval_gate.until ≢ some w
      → Approves d input j
  handle_msg_conn-approval_gate d input j w nodup =
      unfold handle_msg_conn in
      serve_all C F desk clock n Guarded (numbered d) input
        (λ r st. kept (reply r ∷ [], record (numbered d) { requests = st }) (λ h. h))
        (λ id t pl st e.
          let d' = record (numbered d) { requests = st } in
          route_all C F desk clock n Guarded d' id t pl
            (λ _. kept (arm_message C F desk clock n d' pl) (unfold arm_message in λ h. h))
            (kept (disarm_message C F desk clock n d') (unfold disarm_message in λ h. h))
            (λ approve. approves id pl st (rw approve at e))
            (λ _.
              kept (inject_path F.unicode desk clock n d' id pl)
                ((inject_path-Spends F.unicode desk clock n d' id pl).approvals_drop nodup j w))
            (λ r. kept (reply r ∷ [], d') (λ h. h)))
    where
      n : ℕ
      n = (numbered d).global_req_id

      Guarded : List Action × Daemon → Type 0
      Guarded r =
          lookup j r.1.approval_gate.until ≡ some w
          → lookup j d.approval_gate.until ≢ some w
          → Approves d input j

      kept :
          (r : List Action × Daemon)
          → (lookup j r.1.approval_gate.until ≡ some w → lookup j d.approval_gate.until ≡ some w)
          → Guarded r
      kept r f h k = absurd (k (f h))

      approves :
          (id pl : Bytes) (st : ReplayState)
          → Received C d.keys d.requests clock.unix d.cfg.max_requests_per_min
              (frame_of input)
              id
              msg_type_approve
              pl
          → Guarded (approve_message C F desk clock n (record (numbered d) { requests = st }) id)
      approves id pl st e h k =
          let d' = record (numbered d) { requests = st } in
          let (p, on) = approve_message-lookup C F desk clock n d' id j w nodup h k in
          record { payload = pl; received = rw (sym p) at e; in_use = on }
