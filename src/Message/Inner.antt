-- ===== src/Message/Inner.antt =====
-- cmd/novakey/message_frame.go.
pub mod RoundTrip
use nova_key_daemon.Common.{
  ℕ, ◌+◌, ◌%◌, ◌^◌, Bool, ◌||◌, List, [], ◌∷◌, ◌++◌, not, Bytes, length, ltb, leb, ◌==◌, Result, ok,
  err, ◌>>=◌, ◌>>◌, guard, bytes_dec, ◌=?◌,
}
use nova_key_daemon.Message.Wire.{byte_at, slice, be, put_u16, put_u32}

abbrev pub frame_version_v1 : ℕ
frame_version_v1 = 1

abbrev pub msg_type_inject : ℕ
msg_type_inject = 1

abbrev pub msg_type_approve : ℕ
msg_type_approve = 2

abbrev pub msg_type_arm : ℕ
msg_type_arm = 3

abbrev pub msg_type_disarm : ℕ
msg_type_disarm = 4

-- The `switch` of both functions.
abbrev pub is_msg_type : ℕ → Bool
is_msg_type t =
    t == msg_type_inject || t == msg_type_approve || t == msg_type_arm || t == msg_type_disarm

pub data FrameError : Type 0 where
  device_id_required invalid_msg_type device_id_too_long payload_too_long : FrameError
  frame_too_short unsupported_version device_id_len_invalid length_mismatch : FrameError

unfoldable pub encode_message_frame : Bytes → ℕ → Bytes → Result FrameError Bytes
encode_message_frame device_id msg_type payload = do
  guard (not (device_id =? [])) device_id_required
  guard (is_msg_type msg_type) invalid_msg_type
  guard (not (ltb 0xFFFF (length device_id))) device_id_too_long
  guard (not (ltb 0xFFFF_FFFF (length payload))) payload_too_long
  ok (
      frame_version_v1 ∷ msg_type ∷ put_u16 (length device_id % 2 ^ 16)
      ++ (put_u32 (length payload % 2 ^ 32) ++ (device_id ++ payload)))

-- The device's name, the message type and the payload.
unfoldable pub decode_message_frame : Bytes → Result FrameError (Bytes × ℕ × Bytes)
decode_message_frame b = do
  guard (not (ltb (length b) 8)) frame_too_short
  guard (byte_at b 0 == frame_version_v1) unsupported_version
  guard (is_msg_type (byte_at b 1)) invalid_msg_type
  let dev_len = be (slice b 2 4)
  let pl_len = be (slice b 4 8)
  guard (not (ltb dev_len 1)) device_id_len_invalid
  guard (length b == 1 + 1 + 2 + 4 + dev_len + pl_len) length_mismatch
  let dev_end = 8 + dev_len
  ok (slice b 8 dev_end, byte_at b 1, slice b dev_end (dev_end + pl_len))
