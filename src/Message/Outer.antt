-- ===== src/Message/Outer.antt =====
-- `decryptOuterV3`, `deriveAEADKey` and `decryptMessageFrame` of cmd/novakey/crypto.go.
pub mod Layout
pub mod Authentic
use nova_key_daemon.Common.{
  ℕ, ◌+◌, Bool, Option, none, some, Bytes, codes, length, take, drop, ltb, leb, ◌==◌, not, Result,
  ok, err, ◌>>=◌, ◌>>◌, guard, or_fail, ◌=?◌, bytes_dec,
}
use nova_key_daemon.Common.Dict.{Dict, lookup}
use nova_key_daemon.Message.Crypto.{Crypto}
use nova_key_daemon.Message.Wire.{byte_at, slice, be}
use nova_key_daemon.Message.Inner.{frame_version_v1, decode_message_frame}
use nova_key_daemon.Message.Freshness.{ReplayState, validate_freshness_and_rate}

abbrev pub protocol_version : ℕ
protocol_version = 3

abbrev pub msg_type_password : ℕ
msg_type_password = 1

pub record DeviceState : Type 0 where
  pub id : Bytes
  pub static_key : Bytes

-- `devices` (`none` is the nil map), `serverDecapKey` (`none` is nil) and `serverEncapKey`.
pub record KeyStore : Type 0 where
  pub devices : Option (Dict DeviceState)
  pub server_decap_key : Option Bytes
  pub server_encap_key : Bytes

pub data OuterError : Type 0 where
  frame_too_short unsupported_protocol unexpected_msg_type invalid_id_len : OuterError
  not_initialized unknown_device no_decap_key invalid_kem_ct_len : OuterError
  decapsulate_failed derive_failed new_x_failed open_failed : OuterError

-- The device's name, behind the three bytes of version, type and length.
unfoldable pub outer_device : Bytes → Result OuterError Bytes
outer_device frame = do
  guard (not (ltb (length frame) 3)) frame_too_short
  guard (byte_at frame 0 == protocol_version) unsupported_protocol
  guard (byte_at frame 1 == msg_type_password) unexpected_msg_type
  let id_len = byte_at frame 2
  guard (not (leb id_len 0)) invalid_id_len
  guard (not (ltb (length frame) (3 + id_len))) frame_too_short
  ok (slice frame 3 (3 + id_len))

-- The device and the server's key.
unfoldable pub outer_keys : KeyStore → Bytes → Result OuterError (DeviceState × Bytes)
unfolding lookup
outer_keys ks device_id = do
  devices ← or_fail ks.devices not_initialized
  dev ← or_fail (lookup device_id devices) unknown_device
  key ← or_fail ks.server_decap_key no_decap_key
  ok (dev, key)

module _ (C : Crypto) where
  -- Where the key encapsulation begins and ends.
  unfoldable pub outer_kem : Bytes → ℕ → Result OuterError (ℕ × ℕ)
  outer_kem frame id_len = do
    let header_base_end = 3 + id_len
    guard (not (ltb (length frame) (header_base_end + 2))) frame_too_short
    let kem_ct_len = be (slice frame header_base_end (header_base_end + 2))
    guard (kem_ct_len == C.ciphertext_size) invalid_kem_ct_len
    let kem_start = header_base_end + 2
    let kem_end = kem_start + kem_ct_len
    guard (not (ltb (length frame) kem_end)) frame_too_short
    ok (kem_start, kem_end)

  unfoldable pub derive_aead_key : Bytes → Bytes → Option Bytes
  derive_aead_key device_key shared_kem = C.hkdf shared_kem device_key (codes "NovaKey v3 AEAD key")

  -- Decapsulation, the derived key and the opening of the ciphertext, with all of the frame before
  -- the nonce as the additional data.
  unfoldable pub outer_open :
      Bytes → DeviceState → Bytes → ℕ → ℕ → Result OuterError (Bytes × Bytes)
  unfolding derive_aead_key
  outer_open frame dev key kem_start kem_end = do
    let kem_ct = slice frame kem_start kem_end
    let header = take kem_end frame
    shared_kem ← or_fail (C.decapsulate key kem_ct) decapsulate_failed
    aead_key ← or_fail (derive_aead_key dev.static_key shared_kem) derive_failed
    guard (C.new_x aead_key) new_x_failed
    let rest = drop kem_end frame
    let nonce_len = C.nonce_size
    guard (not (ltb (length rest) (nonce_len + C.overhead))) frame_too_short
    let nonce = take nonce_len rest
    let ciphertext = drop nonce_len rest
    plaintext ← or_fail (C.unseal aead_key nonce ciphertext header) open_failed
    ok (plaintext, nonce)

  -- The device's name, the plaintext and the nonce.
  unfoldable pub decrypt_outer_v3 : KeyStore → Bytes → Result OuterError (Bytes × Bytes × Bytes)
  unfolding outer_device outer_keys outer_kem outer_open
  decrypt_outer_v3 ks frame = do
    device_id ← outer_device frame
    (dev, key) ← outer_keys ks device_id
    (kem_start, kem_end) ← outer_kem frame (byte_at frame 2)
    (plaintext, nonce) ← outer_open frame dev key kem_start kem_end
    ok (device_id, plaintext, nonce)
