-- ===== src/Message/Receive.antt =====
-- `decryptMessageFrame` of cmd/novakey/crypto.go: the outer frame, its age and rate, the inner frame.
pub mod Laws
use nova_key_daemon.Common.{
  ℕ, Bytes, length, drop, ltb, ◌==◌, not, if◌then◌else◌, Result, ok, err, ◌>>=◌, ◌>>◌, guard, ◌=?◌,
  bytes_dec,
}
use nova_key_daemon.Message.Crypto.{Crypto}
use nova_key_daemon.Message.Wire.{byte_at, slice, be}
use nova_key_daemon.Message.Inner.{FrameError, frame_version_v1, decode_message_frame}
use nova_key_daemon.Message.Freshness.{FreshnessError, ReplayState, validate_freshness_and_rate}
use nova_key_daemon.Message.Outer.{KeyStore, OuterError, decrypt_outer_v3}

pub data MessageError : Type 0 where
  outer : OuterError → MessageError
  no_timestamp missing_inner wrong_inner_version device_mismatch : MessageError
  not_accepted : FreshnessError → MessageError
  bad_inner : FrameError → MessageError

abbrev pub inner_result :
    Result FrameError (Bytes × ℕ × Bytes) → Result MessageError (Bytes × ℕ × Bytes)
inner_result (ok a) = ok a
inner_result (err e) = err (bad_inner e)

-- The inner frame, which names the device again.
unfoldable pub decode_body : Bytes → Bytes → Result MessageError (Bytes × ℕ × Bytes)
unfolding decode_message_frame
decode_body device_id body = do
  guard (not (ltb (length body) 1)) missing_inner
  guard (byte_at body 0 == frame_version_v1) wrong_inner_version
  (inner_dev, inner_type, inner_payload) ← inner_result (decode_message_frame body)
  guard (inner_dev =? device_id) device_mismatch
  ok (device_id, inner_type, inner_payload)

-- A request that is refused for its age, or before it, leaves the maps as they were; one that
-- passes the rate and replay tests is entered in them, also where its inner frame is then refused.
unfoldable pub after_freshness :
    Result FreshnessError (Unit {0}) × ReplayState
    → Bytes
    → Bytes
    → Result MessageError (Bytes × ℕ × Bytes) × ReplayState
unfolding decode_body
after_freshness (err e, st) device_id body = (err (not_accepted e), st)
after_freshness (ok _, st) device_id body = (decode_body device_id body, st)

module _ (C : Crypto) where
  unfoldable pub after_outer :
      ReplayState
      → ℕ
      → ℕ
      → Result OuterError (Bytes × Bytes × Bytes)
      → Result MessageError (Bytes × ℕ × Bytes) × ReplayState
  unfolding validate_freshness_and_rate after_freshness
  after_outer st now limit (err e) = (err (outer e), st)
  after_outer st now limit (ok (device_id, plaintext, nonce)) =
      if ltb (length plaintext) 8
      then (err no_timestamp, st)
      else after_freshness
          (validate_freshness_and_rate st now limit device_id nonce (be (slice plaintext 0 8)))
          device_id (drop 8 plaintext)

  unfoldable pub decrypt_message_frame :
      KeyStore → ReplayState → ℕ → ℕ → Bytes → Result MessageError (Bytes × ℕ × Bytes) × ReplayState
  unfolding decrypt_outer_v3 after_outer
  decrypt_message_frame ks st now limit frame =
      after_outer st now limit (decrypt_outer_v3 C ks frame)
