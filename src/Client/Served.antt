-- ===== src/Client/Served.antt =====
-- What the client sends, from the router to the daemon's action.
use nova_key_daemon.Common.{
  ℕ, ◌%◌, ◌/◌, ◌^◌, ◌≤◌, ◌<◌, ◌≡◌, refl, ap, sym, ◌∙◌, Bool, false, ◌∷◌, ◌++◌, Bool-cases, inl, inr,
  arith, ltb, ◌==◌, Bytes, length, take_all, Result, ok, err,
}
use nova_key_daemon.Common.Int64
use nova_key_daemon.Common.Text.{Unicode}
use nova_key_daemon.Message.Crypto.{Crypto, IsLawful}
use nova_key_daemon.Message.Wire.{be, put_u16, be-put_u16}
use nova_key_daemon.Message.Freshness.{ReplayState, validate_freshness_and_rate}
use nova_key_daemon.Message.Outer.{DeviceState, outer_keys}
use nova_key_daemon.Message.Receive.{MessageError, decrypt_message_frame}
use nova_key_daemon.Handler.{Desktop, Clock, Daemon}
use nova_key_daemon.Handler.Serve.{
  Formats, route, after_decryption, handle_frame, read_payload, serve,
}
use nova_key_daemon.Router.{to_msg, route_conn}
use nova_key_daemon.Router.Laws.{route_line_msg, route_conn-route_line_msg}
use nova_key_daemon.Client.Frame.{
  ClientKeys, ClientError, encode_inner_message_frame, encrypt_v3_outer_frame,
}
use nova_key_daemon.Client.Commands.{SendError, sized_request, request}
use nova_key_daemon.Client.EndToEnd.{encrypt_inv, decrypt_message_frame-encrypted}

sized_request-ok :
    (r : Result ClientError Bytes) (out : Bytes)
    → sized_request r ≡ ok out
    → (frame : Bytes) × (r ≡ ok frame)
      × (length frame ≤ 0xFFFF)
      × (out ≡ route_line_msg ++ (put_u16 (length frame % 2 ^ 16) ++ frame))
sized_request-ok (err e) out h = cc
sized_request-ok (ok frame) out h = elim (Bool-cases (ltb 0xFFFF (length frame))) [
  | inl long ↦ absurd (refused (rw long at h))
  | inr short ↦ (frame, refl, ground arith, sym (sent (rw short at h)))
]
  where
    refused : ◌≡◌ {A = Result SendError Bytes} (err SendError.frame_too_large) (ok out) → ⊥
    refused x = cc

    sent : {x : Bytes} → ◌≡◌ {A = Result SendError Bytes} (ok x) (ok out) → x ≡ out
    sent x = cc

module _ (C : Crypto) (F : Formats) (desk : Desktop) (clock : Clock) (req_id : ℕ) where
  after_decryption-ok :
      (d : Daemon) (r : Result MessageError (Bytes × ℕ × Bytes) × ReplayState) (id : Bytes) (t : ℕ)
      (pl : Bytes)
      → r.0 ≡ ok (id, t, pl)
      → after_decryption C F desk clock req_id d r
        ≡ route C F desk clock req_id (record d { requests = r.1 }) id t pl
  unfolding after_decryption
  after_decryption-ok d (err e, st) id t pl h = cc
  after_decryption-ok d (ok (id', t', pl'), st) id t pl h =
      ap (λ m. route C F desk clock req_id (record d { requests = st }) m.0 m.1 m.2) (message h)
    where
      message :
          ◌≡◌ {A = Result MessageError (Bytes × ℕ × Bytes)} (ok (id', t', pl')) (ok (id, t, pl))
          → ◌≡◌ {A = Bytes × ℕ × Bytes} (id', t', pl') (id, t, pl)
      message x = cc

  read_payload-whole :
      (d : Daemon) (n : ℕ) (frame : Bytes)
      → length frame ≡ n
      → 0 < n
      → Int64.lt d.cfg.max_payload_len n ≡ false
      → read_payload C F desk clock req_id d n frame ≡ handle_frame C F desk clock req_id d frame
  unfolding read_payload
  read_payload-whole d n frame e pos fits = rw (nonzero, fits, enough, take_all n frame e) refl
    where
      nonzero : (n == 0) ≡ false
      nonzero = ground arith

      enough : ltb (length frame) n ≡ false
      enough = ground arith

  sized_length :
      (frame : Bytes) → length frame ≤ 0xFFFF → be (put_u16 (length frame % 2 ^ 16)) ≡ length frame
  sized_length frame h = be-put_u16 (length frame % 2 ^ 16) (omega arith) ∙ omega arith

  has_length : (a b : ℕ) (frame : Bytes) → ltb (length (a ∷ b ∷ frame)) 2 ≡ false
  has_length a b frame = ground arith

  -- The daemon reads the frame that follows its length.
  serve-sized :
      (d : Daemon) (frame : Bytes) (closed : Bool)
      → 0 < length frame
      → length frame ≤ 0xFFFF
      → Int64.lt d.cfg.max_payload_len (length frame) ≡ false
      → serve C F desk clock req_id d
          (record { sent = put_u16 (length frame % 2 ^ 16) ++ frame; closed = closed })
        ≡ handle_frame C F desk clock req_id d frame
  unfolding serve
  serve-sized d frame closed pos short fits =
      let n = length frame % 2 ^ 16 in
      rw (has_length (n / 256 % 256) (n % 256) frame) (
        ap (λ k. read_payload C F desk clock req_id d k frame) (sized_length frame short)
        ∙ read_payload-whole d (length frame) frame refl pos fits)

  module _ (L : IsLawful C) (keys : ClientKeys) (dev : DeviceState) (key rand : Bytes) (sent : ℕ)
      (nonce inner out : Bytes) (t : ℕ) (pl : Bytes) (d : Daemon) (u : Unicode)
      (closed : Bool) where
    -- What a request of the client does to the daemon behind its router.
    pub record IsServed : Type 0 where
      pub rest : Bytes
      pub st : ReplayState
      pub routed : route_conn u out closed ≡ to_msg rest
      pub served :
          serve C F desk clock req_id d (record { sent = rest; closed = closed })
          ≡ route C F desk clock req_id (record d { requests = st }) keys.client_device_id t pl

    -- The whole way of a request of the client: the router hands it to the message handler, and the
    -- handler acts on the message that was encoded, for the device that sent it. The daemon knows the
    -- device under the client's key, the client has the daemon's public key, the timestamp, rate and
    -- nonce are accepted, and the frame is within the daemon's limit.
    pub request-IsServed :
        encode_inner_message_frame keys.client_device_id t pl ≡ ok inner
        → length pl ≤ 0xFFFF_FFFF
        → request C keys rand sent nonce inner ≡ ok out
        → outer_keys d.keys keys.client_device_id ≡ ok (dev, key)
        → dev.static_key ≡ keys.device_static_key
        → keys.server_encap_key ≡ C.encapsulation_key key
        → length nonce ≡ C.nonce_size
        → sent < 2 ^ 64
        → (validate_freshness_and_rate d.requests clock.unix d.cfg.max_requests_per_min
            keys.client_device_id nonce sent).0
          ≡ ok tt
        → ((frame : Bytes)
            → encrypt_v3_outer_frame C keys rand sent nonce inner ≡ ok frame
            → Int64.lt d.cfg.max_payload_len (length frame) ≡ false)
        → IsServed
    unfolding request handle_frame
    request-IsServed he hp hr registered same paired hn hs timely fits =
        let r = sized_request-ok (encrypt_v3_outer_frame C keys rand sent nonce inner) out hr in
        let frame = r.0 in
        let received =
          decrypt_message_frame-encrypted C L keys d.keys dev key rand sent nonce inner frame t pl
            d.requests clock.unix d.cfg.max_requests_per_min he hp r.1 registered same paired hn hs
            timely in
        record {
          rest = put_u16 (length frame % 2 ^ 16) ++ frame;
          st =
              (decrypt_message_frame C d.keys d.requests clock.unix d.cfg.max_requests_per_min
                frame).1;
          routed =
              ap (λ o. route_conn u o closed) r.3
              ∙ route_conn-route_line_msg u (put_u16 (length frame % 2 ^ 16) ++ frame) closed;
          served =
              serve-sized d frame closed (encrypted_nonempty frame r.1) r.2 (fits frame r.1)
              ∙ after_decryption-ok d
                  (decrypt_message_frame C d.keys d.requests clock.unix d.cfg.max_requests_per_min
                    frame)
                  keys.client_device_id t pl received;
        }
      where
        encrypted_nonempty :
            (frame : Bytes)
            → encrypt_v3_outer_frame C keys rand sent nonce inner ≡ ok frame
            → 0 < length frame
        encrypted_nonempty frame h =
            let e = encrypt_inv C keys rand sent nonce inner L.ciphertext_fits h in
            omega (arith, ap length e.laid_out)
