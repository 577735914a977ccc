-- ===== src/Handler/Serve/Laws.antt =====
-- One connection: its reply, and what it takes to inject, to arm and to approve.
use nova_key_daemon.Common.{
  ℕ, ◌+◌, ◌%◌, ◌^◌, ◌≡◌, refl, Bool, true, false, ◌&&◌, ◌||◌, List, [], ◌∷◌, if◌then◌else◌, ltb,
  ◌==◌, Bytes, ◌=?◌, take, drop, length, Result, ok, err,
}
use nova_key_daemon.Common.Int64
use nova_key_daemon.Message.Crypto.{Crypto}
use nova_key_daemon.Message.Wire.{be}
use nova_key_daemon.Message.Freshness.{ReplayState}
use nova_key_daemon.Message.Receive.{MessageError}
use nova_key_daemon.Message.Receive.Laws.{Received, decrypt_message_frame-Received}
use nova_key_daemon.Handler.{Desktop, Clock, Daemon, Action, reply}
use nova_key_daemon.Handler.Reply.{ServerReply}
use nova_key_daemon.Handler.Serve.{
  Input, Formats, route, after_decryption, handle_frame, read_payload, serve,
}

-- The frame that a connection declares.
abbrev pub frame_of : Input → Bytes
frame_of input = take (be (take 2 input.sent)) (drop 2 input.sent)

-- The next request number.
abbrev pub numbered : Daemon → Daemon
numbered d = record d { global_req_id = (d.global_req_id + 1) % 2 ^ 64 }

first_of {ℓ} :
    {A : Type ℓ} (P : A → Type 0) (b : Bool) {x y : A} → P x → P y → P (if b then x else y)
first_of P true h k = h
first_of P false h k = k

module _ (C : Crypto) (F : Formats) (desk : Desktop) (clock : Clock) (req_id : ℕ) where
  -- A property of the actions and the state after them holds of a whole connection if it holds of
  -- a bare reply, with the replay and rate maps in any state, and of every message received.
  module _ (P : List Action × Daemon → Type 0) where
    abbrev OnReply : Daemon → Type 0
    OnReply d = (r : ServerReply) (st : ReplayState) → P (reply r ∷ [], record d { requests = st })

    abbrev OnMessage : Daemon → Bytes → Type 0
    OnMessage d frame =
        (id : Bytes) (t : ℕ) (pl : Bytes) (st : ReplayState)
        → Received C d.keys d.requests clock.unix d.cfg.max_requests_per_min frame id t pl
        → P (route C F desk clock req_id (record d { requests = st }) id t pl)

    after_decryption_all :
        (d : Daemon) (frame : Bytes) (r : Result MessageError (Bytes × ℕ × Bytes) × ReplayState)
        → OnReply d
        → ((id : Bytes) (t : ℕ) (pl : Bytes)
            → r.0 ≡ ok (id, t, pl)
            → P (route C F desk clock req_id (record d { requests = r.1 }) id t pl))
        → P (after_decryption C F desk clock req_id d r)
    unfolding after_decryption
    after_decryption_all d frame (err e, st) hr hm = hr _ st
    after_decryption_all d frame (ok (id, t, pl), st) hr hm = hm id t pl refl

    handle_frame_all :
        (d : Daemon) (frame : Bytes)
        → OnReply d
        → OnMessage d frame
        → P (handle_frame C F desk clock req_id d frame)
    unfolding handle_frame
    handle_frame_all d frame hr hm = after_decryption_all d frame _ hr (λ id t pl e. hm id t pl _ (
        decrypt_message_frame-Received C d.keys d.requests clock.unix d.cfg.max_requests_per_min
          frame e))

    read_payload_all :
        (d : Daemon) (len : ℕ) (rest : Bytes)
        → OnReply d
        → OnMessage d (take len rest)
        → P (read_payload C F desk clock req_id d len rest)
    unfolding read_payload
    read_payload_all d len rest hr hm =
        first_of P (len == 0 || Int64.lt d.cfg.max_payload_len len) (hr _ d.requests) (
          first_of P (ltb (length rest) len) (hr _ d.requests)
            (handle_frame_all d (take len rest) hr hm))

    pub serve_all :
        (d : Daemon) (input : Input)
        → OnReply d
        → OnMessage d (frame_of input)
        → P (serve C F desk clock req_id d input)
    unfolding serve
    serve_all d input hr hm =
        first_of P (ltb (length input.sent) 2)
          (first_of P ((input.sent =? []) && input.closed) (hr _ d.requests) (hr _ d.requests))
          (read_payload_all d _ _ hr hm)
