-- ===== src/Handler/Serve.antt =====
-- `handleMsgConn` from the bytes of the connection: length, payload, decryption, and the route by
-- message type.
pub mod Laws
pub mod Safety
pub mod Opening
pub mod History
use nova_key_daemon.Common.{
  ℕ, ◌+◌, ◌%◌, ◌^◌, Bool, true, false, not, ◌&&◌, ◌||◌, Option, none, some, List, [], ◌∷◌, ◌++◌,
  if◌then◌else◌, ltb, ◌==◌, Bytes, codes, bytes_dec, ◌=?◌, take, drop, length, Result, ok, err,
}
use nova_key_daemon.Common.Int64
use nova_key_daemon.Common.Text.{Unicode}
use nova_key_daemon.Config.{bool_deref}
use nova_key_daemon.Gates.Clock.{milliseconds}
use nova_key_daemon.Gates.Arm
use nova_key_daemon.Gates.TwoMan
use nova_key_daemon.Message.Crypto.{Crypto}
use nova_key_daemon.Message.Wire.{be}
use nova_key_daemon.Message.Inner.{msg_type_inject, msg_type_approve, msg_type_arm, msg_type_disarm}
use nova_key_daemon.Message.Freshness.{ReplayState}
use nova_key_daemon.Message.Receive.{MessageError, decrypt_message_frame}
use nova_key_daemon.Handler.{Desktop, Clock, Daemon, Action, reply}
use nova_key_daemon.Handler.Reply.{
  RespStatus, status_ok, status_bad_request, status_crypto_fail, ReplyStage, stage_msg, stage_arm,
  stage_disarm, stage_approve, ReplyReason, reason_ok, reason_bad_request, reason_crypto_fail,
  make_reply,
}
use nova_key_daemon.Handler.Inject.{inject_path}

-- What a peer sends until it closes the connection, or until a read fails or times out.
pub record Input : Type 0 where
  pub sent : Bytes
  pub closed : Bool

-- The calls of the libraries: `json.Unmarshal` of `{"ms":…}` (the number, or none where it returns
-- an error), and `%d` on an int.
pub record Formats : Type 0 where
  pub unicode : Unicode
  pub arm_ms : Bytes → Option ℕ
  pub format_int : ℕ → Bytes

abbrev requested_ms : Option ℕ → ℕ → ℕ
requested_ms none def = def
requested_ms (some ms) def = if Int64.lt 0 ms then ms else def

module _ (C : Crypto) (F : Formats) (desk : Desktop) (clock : Clock) (req_id : ℕ) where
  abbrev pub answer : RespStatus → ReplyStage → ReplyReason → Bytes → List Action
  answer st stage reason msg = reply (make_reply req_id clock.unix_reply st stage reason msg) ∷ []

  abbrev bad_request : Bytes → List Action
  bad_request msg = answer status_bad_request stage_msg reason_bad_request msg

  -- How long an arm message arms for, in milliseconds.
  abbrev pub arm_duration : Daemon → Bytes → ℕ
  arm_duration d [] = d.cfg.arm_duration_ms
  arm_duration d (c ∷ payload) = requested_ms (F.arm_ms (c ∷ payload)) d.cfg.arm_duration_ms

  unfoldable pub arm_message : Daemon → Bytes → List Action × Daemon
  unfolding Arm.arm_for milliseconds make_reply
  arm_message d payload = (
    answer status_ok stage_arm reason_ok
        (codes "armed_for_ms=" ++ F.format_int (arm_duration d payload)),
    record d {
      arm_gate = (Arm.arm_for d.arm_gate clock.arm (milliseconds (arm_duration d payload))).1;
    },
  )

  unfoldable pub disarm_message : Daemon → List Action × Daemon
  unfolding Arm.disarm make_reply
  disarm_message d = (
    answer status_ok stage_disarm reason_ok (codes "disarmed"),
    record d { arm_gate = Arm.disarm d.arm_gate },
  )

  unfoldable pub approve_message : Daemon → Bytes → List Action × Daemon
  unfolding TwoMan.approve TwoMan.approve_window make_reply
  approve_message d device_id =
      if not (bool_deref d.cfg.two_man_enabled true)
      then (
        answer status_bad_request stage_approve reason_bad_request
            (codes "two-man disabled; approve ignored"),
        d,
      )
      else (
        answer status_ok stage_approve reason_ok (codes "approved"),
        record d {
          approval_gate =
              (TwoMan.approve d.approval_gate clock.cleanup clock.approval device_id
                (TwoMan.approve_window d.cfg.approve_window_ms)).1;
        },
      )

  -- `switch msgType`
  unfoldable pub route : Daemon → Bytes → ℕ → Bytes → List Action × Daemon
  route d device_id msg_type payload =
      if msg_type == msg_type_arm
      then arm_message d payload
      else if msg_type == msg_type_disarm
      then disarm_message d
      else if msg_type == msg_type_approve
      then approve_message d device_id
      else if msg_type == msg_type_inject
      then inject_path F.unicode desk clock req_id d device_id payload
      else (bad_request (codes "unknown msgType"), d)

  unfoldable pub after_decryption :
      Daemon → Result MessageError (Bytes × ℕ × Bytes) × ReplayState → List Action × Daemon
  after_decryption d (err e, st) = (
    answer status_crypto_fail stage_msg reason_crypto_fail (codes "decrypt/auth failed"),
    record d { requests = st },
  )
  after_decryption d (ok (device_id, msg_type, payload), st) =
      route (record d { requests = st }) device_id msg_type payload

  -- The frame of the declared length.
  unfoldable pub handle_frame : Daemon → Bytes → List Action × Daemon
  unfolding after_decryption
  handle_frame d buf =
      after_decryption d
        (decrypt_message_frame C d.keys d.requests clock.unix d.cfg.max_requests_per_min buf)

  unfoldable pub read_payload : Daemon → ℕ → Bytes → List Action × Daemon
  read_payload d len rest =
      if len == 0 || Int64.lt d.cfg.max_payload_len len
      then (bad_request (codes "invalid length"), d)
      else if ltb (length rest) len
      then (bad_request (codes "read payload failed"), d)
      else handle_frame d (take len rest)

  -- `binary.Read` reports `io.EOF` only where the peer closed before the first byte.
  unfoldable pub serve : Daemon → Input → List Action × Daemon
  unfolding read_payload
  serve d input =
      if ltb (length input.sent) 2
      then (if (input.sent =? []) && input.closed
          then (bad_request (codes "client closed before length"), d)
          else (bad_request (codes "read length failed"), d))
      else read_payload d (be (take 2 input.sent)) (drop 2 input.sent)

-- `handleMsgConn`: the request takes the next number, and is served. Its calls of `logReqf`, which
-- come before the replies, are taken to return.
unfoldable pub handle_msg_conn :
    Crypto → Formats → Desktop → Clock → Daemon → Input → List Action × Daemon
unfolding serve
handle_msg_conn C F desk clock d input =
    let req_id = (d.global_req_id + 1) % 2 ^ 64 in
    serve C F desk clock req_id (record d { global_req_id = req_id }) input
