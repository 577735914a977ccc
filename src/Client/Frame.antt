-- ===== src/Client/Frame.antt =====
-- `encodeInnerMessageFrame` and `encryptV3OuterFrame` of cmd/nvclient/main.go, and
-- `initCryptoClient` and `deriveAEADKey` of cmd/nvclient/crypto_client.go.
use nova_key_daemon.Common.{
  ℕ, ◌%◌, ◌^◌, ◌||◌, [], ◌∷◌, ◌++◌, not, Bytes, codes, length, ltb, ◌==◌, Result, ok, ◌>>=◌, ◌>>◌,
  guard, or_fail, ◌=?◌, Option, none, some, Bool, true, false,
}
use nova_key_daemon.Common.Hex
use nova_key_daemon.Message.Crypto.{Crypto}
use nova_key_daemon.Message.Wire.{put_u16, put_u32, put_u64}

pub data ClientError : Type 0 where
  device_id_required invalid_msg_type device_id_too_long : ClientError
  invalid_key_hex wrong_key_size bad_server_key wrong_server_key_size : ClientError
  no_device_key no_server_key device_id_length encapsulate_failed wrong_ct_size : ClientError
  derive_failed new_x_failed : ClientError

abbrev pub is_inner_msg_type : ℕ → Bool
is_inner_msg_type t = t == 1 || t == 2 || t == 3 || t == 4

unfoldable pub encode_inner_message_frame : Bytes → ℕ → Bytes → Result ClientError Bytes
encode_inner_message_frame device_id msg_type payload = do
  guard (not (device_id =? [])) device_id_required
  guard (is_inner_msg_type msg_type) invalid_msg_type
  guard (not (ltb 0xFFFF (length device_id))) device_id_too_long
  ok (
      1 ∷ msg_type ∷ put_u16 (length device_id % 2 ^ 16)
      ++ (put_u32 (length payload % 2 ^ 32) ++ (device_id ++ payload)))

-- `clientDeviceID`, `deviceStaticKey` and `serverEncapKey`.
pub record ClientKeys : Type 0 where
  pub client_device_id : Bytes
  pub device_static_key : Bytes
  pub server_encap_key : Bytes

-- `chacha20poly1305.KeySize`, and `mlkem768.EncapsulationKeySize` as an argument. The base64 decoder
-- is an argument too.
unfoldable pub init_crypto_client :
    (Bytes → Option Bytes) → ℕ → Bytes → Bytes → Bytes → Result ClientError ClientKeys
unfolding Hex.decode
init_crypto_client decode_base64 encapsulation_key_size id device_key_hex server_kyber_pub_b64 = do
  guard (not (id =? [])) device_id_required
  key_bytes ← or_fail (Hex.decode device_key_hex) invalid_key_hex
  guard (length key_bytes == 32) wrong_key_size
  pub_key ← or_fail (decode_base64 server_kyber_pub_b64) bad_server_key
  guard (length pub_key == encapsulation_key_size) wrong_server_key_size
  ok (record { client_device_id = id; device_static_key = key_bytes; server_encap_key = pub_key })

module _ (C : Crypto) where
  unfoldable pub derive_aead_key : Bytes → Bytes → Option Bytes
  derive_aead_key device_key shared_kem = C.hkdf shared_kem device_key (codes "NovaKey v3 AEAD key")

  -- The randomness of the encapsulation, the clock reading and the nonce are arguments.
  unfoldable pub encrypt_v3_outer_frame :
      ClientKeys → Bytes → ℕ → Bytes → Bytes → Result ClientError Bytes
  unfolding derive_aead_key
  encrypt_v3_outer_frame keys rand now nonce inner_body = do
    guard (not (keys.device_static_key =? [])) no_device_key
    guard (not (keys.server_encap_key =? [])) no_server_key
    let id_bytes = keys.client_device_id
    guard (not (length id_bytes == 0 || ltb 255 (length id_bytes))) device_id_length
    (kem_ct, shared_kem) ← or_fail (C.encapsulate keys.server_encap_key rand) encapsulate_failed
    guard (length kem_ct == C.ciphertext_size) wrong_ct_size
    aead_key ← or_fail (derive_aead_key keys.device_static_key shared_kem) derive_failed
    guard (C.new_x aead_key) new_x_failed
    let header =
        3 ∷ 1 ∷ length id_bytes % 256 ∷ id_bytes ++ (put_u16 (length kem_ct % 2 ^ 16) ++ kem_ct)
    let plaintext = put_u64 now ++ inner_body
    ok (header ++ (nonce ++ C.seal aead_key nonce plaintext header))

-- `replyStatus.isSuccess`
abbrev pub is_success : ℕ → Bool
is_success s = s == 0x00 || s == 0x09

-- `json.Unmarshal` of the reply line, with its status, is the first argument.
abbrev pub parse_reply_status : (Bytes → Option ℕ) → Bytes → ℕ × Bool
parse_reply_status unmarshal line = elim (unmarshal line) [
  | none ↦ (0, false)
  | some status ↦ (status, true)
]
