-- ===== src/Handler/Serve/History.antt =====
-- Any sequence of connections, each with its own input, clock readings and answers of the platform.
use nova_key_daemon.Common.{
  ℕ, ◌+◌, ◌≤◌, ◌≡◌, refl, ◌∙◌, ap, true, List, [], ◌∷◌, arith, Bytes, length, Bool-cases, inl, inr,
}
use nova_key_daemon.Config.{bool_deref}
use nova_key_daemon.Gates.Arm
use nova_key_daemon.Gates.Arm.History.{armed}
use nova_key_daemon.Message.Crypto.{Crypto}
use nova_key_daemon.Handler.{
  Desktop, Clock, Daemon, Action, reply, try_set_clipboard, inject_password,
}
use nova_key_daemon.Handler.Reply.{ReplyStage, stage_arm}
use nova_key_daemon.Handler.Actions.{injected}
use nova_key_daemon.Handler.Inject.GateUse.{inject_path-Spends}
use nova_key_daemon.Handler.Serve.{
  Input, Formats, arm_message, disarm_message, approve_message, handle_msg_conn,
}
use nova_key_daemon.Handler.Serve.Laws.{numbered, serve_all}
use nova_key_daemon.Handler.Serve.Safety.{route_all}

pub record Connection : Type 0 where
  pub desk : Desktop
  pub clock : Clock
  pub input : Input

abbrev is_arm : ReplyStage → ℕ
is_arm stage_arm = 1
is_arm _ = 0

-- The replies that confirm an arming.
abbrev arm_replies : List Action → ℕ
arm_replies [] = 0
arm_replies (try_set_clipboard s ∷ rest) = arm_replies rest
arm_replies (inject_password s ∷ rest) = arm_replies rest
arm_replies (reply r ∷ rest) = is_arm r.stage + arm_replies rest

module _ (C : Crypto) (F : Formats) where
  pub serve_one : Daemon → Connection → List Action × Daemon
  serve_one d c = handle_msg_conn C F c.desk c.clock d c.input

  -- How many texts are injected, and how many armings are confirmed, in all.
  pub injections : Daemon → List Connection → ℕ
  injections d [] = 0
  injections d (c ∷ cs) = length (injected (serve_one d c).0) + injections (serve_one d c).1 cs

  pub armings : Daemon → List Connection → ℕ
  armings d [] = 0
  armings d (c ∷ cs) = arm_replies (serve_one d c).0 + armings (serve_one d c).1 cs

  record Paid (d : Daemon) (r : List Action × Daemon) : Type 0 where
    paid :
        bool_deref d.cfg.arm_consume_on_inject true ≡ true
        → length (injected r.0) + armed r.1.arm_gate ≤ arm_replies r.0 + armed d.arm_gate
    cfg_stays : r.1.cfg ≡ d.cfg

  serve_one-Paid : (d : Daemon) (c : Connection) → Paid d (serve_one d c)
  serve_one-Paid d c =
      unfold serve_one in
      unfold handle_msg_conn in
      serve_all C F c.desk c.clock n (Paid d) (numbered d) c.input
        (λ r st. nothing (record (numbered d) { requests = st }) refl refl r)
        (λ id t pl st e.
          let d' = record (numbered d) { requests = st } in
          route_all C F c.desk c.clock n (Paid d) d' id t pl
            (λ _. unfold arm_message in record { paid = λ k. ground arith; cfg_stays = refl })
            (unfold disarm_message in
              unfold Arm.disarm in record { paid = λ k. ground arith; cfg_stays = refl })
            (λ _. approve d' refl refl id)
            (λ _.
              let s = inject_path-Spends F.unicode c.desk c.clock n d' id pl in
              record { paid = λ k. omega (arith, s.paid k); cfg_stays = s.cfg_stays })
            (nothing d' refl refl))
    where
      n : ℕ
      n = (numbered d).global_req_id

      nothing :
          (d' : Daemon)
          → d'.arm_gate ≡ d.arm_gate
          → d'.cfg ≡ d.cfg
          → (r : _) → Paid d (reply r ∷ [], d')
      nothing d' e f r = record { paid = λ k. rw e (omega arith); cfg_stays = f }

      approve :
          (d' : Daemon)
          → d'.arm_gate ≡ d.arm_gate
          → d'.cfg ≡ d.cfg
          → (id : Bytes) → Paid d (approve_message C F c.desk c.clock n d' id)
      approve d' e f id =
          unfold approve_message in
          elim (Bool-cases (bool_deref d'.cfg.two_man_enabled true)) [
            | inl on ↦ rw on (record { paid = λ k. rw e (omega arith); cfg_stays = f })
            | inr off ↦ rw off (record { paid = λ k. rw e (omega arith); cfg_stays = f })
          ]

  -- Where an injection consumes the arming (the default), a daemon injects no more often than it
  -- confirmed an arming, plus one if it was armed at the start, whatever the connections send.
  pub injections-le-armings :
      (d : Daemon) (cs : List Connection)
      → bool_deref d.cfg.arm_consume_on_inject true ≡ true
      → injections d cs ≤ armings d cs + armed d.arm_gate
  unfolding injections armings
  injections-le-armings d [] h = omega arith
  injections-le-armings d (c ∷ cs) h =
      let s = serve_one-Paid d c in
      omega (
        arith,
        s.paid h,
        injections-le-armings (serve_one d c).1 cs
            (ap (λ g. bool_deref g.arm_consume_on_inject true) s.cfg_stays ∙ h),
      )
