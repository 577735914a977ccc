-- ===== src/Handler/Serve/Safety.antt =====
-- What it takes for a whole connection to inject, and to copy.
use nova_key_daemon.Common.{
  ℕ, ◌≡◌, ◌≢◌, refl, Bool, true, false, ◌&&◌, List, [], ◌∷◌, arith, if◌then◌else◌, ◌==◌, ==_iff,
  Bytes,
}
use nova_key_daemon.Config.{allow_clipboard_when_blocked, allow_clipboard_on_failure}
use nova_key_daemon.Message.Crypto.{Crypto}
use nova_key_daemon.Message.Inner.{msg_type_inject, msg_type_approve, msg_type_arm, msg_type_disarm}
use nova_key_daemon.Message.Receive.Laws.{Received}
use nova_key_daemon.Handler.{Desktop, Clock, Daemon, Action, reply}
use nova_key_daemon.Handler.Reply.{ServerReply}
use nova_key_daemon.Handler.Actions.{injected, copied}
use nova_key_daemon.Handler.Inject.{inject_path}
use nova_key_daemon.Handler.Inject.Laws.{acceptable, gates_open, inject_path-injected}
use nova_key_daemon.Handler.Inject.Effects.{inject_path-copied}
use nova_key_daemon.Handler.Serve.{
  Input, Formats, arm_message, disarm_message, approve_message, route, handle_msg_conn,
}
use nova_key_daemon.Handler.Serve.Laws.{frame_of, numbered, serve_all}

first_if {ℓ} :
    {A : Type ℓ} (P : A → Type 0) (b : Bool) {x y : A}
    → (b ≡ true → P x)
    → P y
    → P (if b then x else y)
first_if P true h k = h refl
first_if P false h k = k

module _ (C : Crypto) (F : Formats) (desk : Desktop) (clock : Clock) where
  -- The next number of the daemon.
  abbrev next : Daemon → ℕ
  next d = (numbered d).global_req_id

  -- By the message type.
  pub route_all :
      (n : ℕ) (P : List Action × Daemon → Type 0) (d : Daemon) (id : Bytes) (t : ℕ) (pl : Bytes)
      → (t ≡ msg_type_arm → P (arm_message C F desk clock n d pl))
      → P (disarm_message C F desk clock n d)
      → (t ≡ msg_type_approve → P (approve_message C F desk clock n d id))
      → (t ≡ msg_type_inject → P (inject_path F.unicode desk clock n d id pl))
      → ((r : ServerReply) → P (reply r ∷ [], d))
      → P (route C F desk clock n d id t pl)
  unfolding route
  route_all n P d id t pl ha hd hp hi hr =
      first_if P (t == msg_type_arm) (λ e. ha ((==_iff t msg_type_arm).0 e))
        (first_if P (t == msg_type_disarm) (λ e. hd)
          (first_if P (t == msg_type_approve) (λ e. hp ((==_iff t msg_type_approve).0 e))
            (first_if P (t == msg_type_inject) (λ e. hi ((==_iff t msg_type_inject).0 e)) (hr _))))

  -- With both clipboard switches off, which is their default, the handler itself never copies the text
  -- to the clipboard, on no path; what the injection that it calls does there is not said.
  pub handle_msg_conn-copied :
      (d : Daemon) (input : Input)
      → allow_clipboard_when_blocked d.cfg ≡ false
      → allow_clipboard_on_failure d.cfg ≡ false
      → copied (handle_msg_conn C F desk clock d input).0 ≡ []
  handle_msg_conn-copied d input hb hf =
      unfold handle_msg_conn in
      serve_all C F desk clock (next d) None (numbered d) input (λ r st. refl)
        (λ id t pl st e.
          route_all (next d) None _ id t pl (λ _. unfold arm_message in refl)
            (unfold disarm_message in refl) (λ _. unfold approve_message in ground arith)
            (λ _. inject_path-copied F.unicode desk clock (next d) _ id pl hb hf) (λ r. refl))
    where
      None : List Action × Daemon → Type 0
      None r = copied r.0 ≡ []

  -- What an injection takes: an accepted inject message, a safe text, an allowed target, and open
  -- gates; and it is the message's own text, once.
  pub record Permitted (d : Daemon) (input : Input) (l : List Bytes) : Type 0 where
    pub device_id : Bytes
    pub password : Bytes
    pub received :
        Received C d.keys d.requests clock.unix d.cfg.max_requests_per_min
          (frame_of input)
          device_id
          msg_type_inject
          password
    pub content : acceptable F.unicode desk clock (next d) d password ≡ true
    pub gates : gates_open F.unicode desk clock (next d) d device_id ≡ true
    pub once : l ≡ password ∷ []

  -- Nothing is injected but the text of an accepted inject message, whose text and target are
  -- acceptable and whose gates are open.
  pub handle_msg_conn-Permitted :
      (d : Daemon) (input : Input)
      → injected (handle_msg_conn C F desk clock d input).0 ≢ []
      → Permitted d input (injected (handle_msg_conn C F desk clock d input).0)
  handle_msg_conn-Permitted d input =
      unfold handle_msg_conn in
      serve_all C F desk clock (next d) Guarded (numbered d) input
        (λ r st. none_injected (reply r ∷ [], record (numbered d) { requests = st }) refl)
        (λ id t pl st e.
          let d' = record (numbered d) { requests = st } in
          route_all (next d) Guarded d' id t pl
            (λ _.
              none_injected (arm_message C F desk clock (next d) d' pl)
                (unfold arm_message in refl))
            (none_injected (disarm_message C F desk clock (next d) d')
              (unfold disarm_message in refl))
            (λ _.
              none_injected (approve_message C F desk clock (next d) d' id)
                (unfold approve_message in ground arith))
            (λ inject h. permitted id pl st (rw inject at e) h)
            (λ r. none_injected (reply r ∷ [], d') refl))
    where
      Guarded : List Action × Daemon → Type 0
      Guarded r = injected r.0 ≢ [] → Permitted d input (injected r.0)

      none_injected : (r : List Action × Daemon) → injected r.0 ≡ [] → Guarded r
      none_injected r e h = absurd (h e)

      from_tests :
          (a b : Bool) (id pl : Bytes) (l : List Bytes)
          → l ≡ (if a && b then pl ∷ [] else [])
          → l ≢ []
          → (a ≡ true) × (b ≡ true) × (l ≡ pl ∷ [])
      from_tests a b id pl l h k = ground arith

      permitted :
          (id pl : Bytes) (st : _)
          → Received C d.keys d.requests clock.unix d.cfg.max_requests_per_min
              (frame_of input)
              id
              msg_type_inject
              pl
          → injected
              (inject_path F.unicode desk clock
                (next d)
                (record d { global_req_id = next d; requests = st })
                id
                pl).0
            ≢ []
          → Permitted d input (
              injected
                (inject_path F.unicode desk clock
                  (next d)
                  (record d { global_req_id = next d; requests = st })
                  id
                  pl).0)
      permitted id pl st e h =
          let (a, b, c) =
            from_tests (acceptable F.unicode desk clock (next d) d pl)
              (gates_open F.unicode desk clock (next d) d id) id pl _
              (inject_path-injected F.unicode desk clock (next d)
                (record d { global_req_id = next d; requests = st }) id pl)
              h in
          record { device_id = id; password = pl; received = e; content = a; gates = b; once = c }
