-- ===== src/Pairing/Exchange.antt =====
-- `handlePairConn` of cmd/novakey/pairing_proto.go, with `derivePairAEADKey` and `writePairAck`: the
-- exchange by which a phone registers a device.
pub mod Authorized
pub mod Stored
pub mod Writes
pub mod Token
pub mod Registers
use nova_key_daemon.Common.{
  ℕ, ◌+◌, Bool, true, false, not, ◌&&◌, ◌||◌, List, [], ◌∷◌, ◌++◌, Option, none, some, Bytes, codes,
  bytes_dec, ◌=?◌, ◌==◌, if◌then◌else◌, length, take, Result, ok, err, is_some,
}
use nova_key_daemon.Common.Dict.{Dict, lookup}
use nova_key_daemon.Common.Hex
use nova_key_daemon.Message.Crypto.{Crypto}
use nova_key_daemon.Message.Freshness.{RateWindow}
use nova_key_daemon.Message.Outer.{DeviceState, KeyStore}
use nova_key_daemon.PairToken.{PairToken, TokenError, consume_pair_token}
use nova_key_daemon.Router.{read_string}
use nova_key_daemon.Devices.Write.{
  StoreError, DeviceStore, write_devices_file, reload_devices_from_disk,
}
use nova_key_daemon.Pairing.{
  PairFrameError, allow_pair_hello_from_ip, make_pair_aad, read_pair_binary_frame, trim_nl,
}

-- `pairHello`
pub record PairHello : Type 0 where
  pub op : Bytes
  pub v : ℕ
  pub token : Bytes

-- `pairRegister`
pub record PairRegister : Type 0 where
  pub op : Bytes
  pub v : ℕ
  pub device_id : Bytes
  pub device_key_hex : Bytes

pub data PairError : Type 0 where
  keys_not_initialized hello_rate_limited no_hello bad_hello_json unexpected_hello : PairError
  missing_token server_key_not_written bad_ct_len : PairError
  token_refused : TokenError → PairError
  bad_frame : PairFrameError → PairError
  pair_decapsulate_failed pair_derive_failed pair_new_x_failed pair_decrypt_failed : PairError
  bad_register_json unexpected_register : PairError
  devices_not_written devices_not_reloaded : StoreError → PairError
  bad_ack_nonce ack_not_written : PairError

-- The calls of the libraries. `server_key_line` is the JSON line of the server's public key, its
-- fingerprint and the expiry; `ack` is the JSON text of the acknowledgement for a device's name.
pub record PairFormats : Type 0 where
  pub decode_token : Bytes → Option Bytes
  pub unmarshal_hello : Bytes → Option PairHello
  pub unmarshal_register : Bytes → Option PairRegister
  pub sha256 : Bytes → Bytes
  pub server_key_line : Bytes → Bytes → ℕ → Bytes
  pub ack : Bytes → Bytes

-- What one connection meets: the peer's address and bytes, the clock readings, the random draws, and
-- whether the two writes succeed.
pub record PairInput : Type 0 where
  pub ip : Bytes
  pub sent : Bytes
  pub hello_time : ℕ
  pub token_time : ℕ
  pub reply_time : ℕ
  pub drawn_id : Bytes
  pub drawn_key : Bytes
  pub ack_nonce : Bytes
  pub server_key_writes : Bool
  pub ack_writes : Bool

pub record PairDaemon (S : Type 0) : Type 0 where
  pub keys : KeyStore
  pub token : PairToken
  pub hellos : Dict RateWindow
  pub store : S

-- How a connection ends: its error, what was written to it, and the daemon.
pub record Outcome (S : Type 0) : Type 0 where
  pub result : Result PairError (Unit {0})
  pub written : List Bytes
  pub daemon : PairDaemon S

-- The device's table in memory, for the test whether a device is there.
abbrev pub known_device : Option (Dict DeviceState) → Bytes → Bool
known_device none id = false
known_device (some m) id = is_some (lookup id m)

unfoldable pub fp16_hex : (Bytes → Bytes) → Bytes → Bytes
unfolding Hex.encode
fp16_hex sha256 key = Hex.encode (take 16 (sha256 key))

unfoldable pub derive_pair_aead_key : Crypto → Bytes → Bytes → Option Bytes
derive_pair_aead_key C shared_kem token = C.hkdf shared_kem token (codes "NovaKey v3 Pair AEAD")

-- What a phone asks for, with the name and the key that the daemon chooses where it leaves them out,
-- or where a known device is given a new key.
abbrev pub chosen_id : PairInput → PairRegister → Bytes
chosen_id I reg =
    if reg.device_id =? [] then codes "ios-" ++ Hex.encode I.drawn_id else reg.device_id

abbrev pub chosen_key : Bool → PairInput → PairRegister → Option (Dict DeviceState) → Bytes
chosen_key rotate I reg devices =
    if (reg.device_key_hex =? []) || (rotate && known_device devices (chosen_id I reg))
    then Hex.encode I.drawn_key
    else reg.device_key_hex

module _ {S : Type 0} where
  abbrev pub failed : PairError → List Bytes → PairDaemon S → Outcome S
  failed e written d = record { result = err e; written = written; daemon = d }

  module _ (C : Crypto) (F : PairFormats) (hello_max : ℕ) (rotate : Bool) (D : DeviceStore S)
      (I : PairInput) where
    -- The acknowledgement, sealed under the same key.
    abbrev acknowledged : Bytes → Bytes → Bytes → List Bytes → PairDaemon S → Outcome S
    acknowledged key ct id written d =
        let sealed = C.seal key I.ack_nonce (F.ack id) (make_pair_aad ct I.ack_nonce) in
        if not (length I.ack_nonce == 24)
        then failed bad_ack_nonce written d
        else if not I.ack_writes
        then failed ack_not_written written d
        else record { result = ok tt; written = written ++ (I.ack_nonce ∷ sealed ∷ []); daemon = d }

    abbrev reloaded :
        Bytes
        → Bytes
        → Bytes
        → List Bytes
        → PairDaemon S
        → Result StoreError (Unit {0}) × Option (Dict DeviceState) × S
        → Outcome S
    reloaded key ct id written d (err e, m, s) =
        failed (devices_not_reloaded e) written (record d { store = s })
    reloaded key ct id written d (ok u, m, s) =
        acknowledged key ct id written
          (record d { store = s; keys = record d.keys { devices = m } })

    abbrev stored :
        Bytes
        → Bytes
        → Bytes
        → List Bytes
        → PairDaemon S
        → Result StoreError (Unit {0}) × S
        → Outcome S
    stored key ct id written d (err e, s) =
        failed (devices_not_written e) written (record d { store = s })
    stored key ct id written d (ok u, s) =
        reloaded key ct id written (record d { store = s })
          (reload_devices_from_disk D d.keys.devices s)

    abbrev register : Bytes → Bytes → List Bytes → PairDaemon S → Option PairRegister → Outcome S
    register key ct written d none = failed bad_register_json written d
    register key ct written d (some reg) =
        if not (reg.op =? codes "register") || not (reg.v == 1)
        then failed unexpected_register written d
        else stored key ct (chosen_id I reg) written d (
            write_devices_file D (chosen_id I reg) (chosen_key rotate I reg d.keys.devices) d.store)

    abbrev opened : Bytes → Bytes → List Bytes → PairDaemon S → Option Bytes → Outcome S
    opened key ct written d none = failed pair_decrypt_failed written d
    opened key ct written d (some pt) = register key ct written d (F.unmarshal_register pt)

    abbrev derived : Bytes → Bytes → Bytes → List Bytes → PairDaemon S → Option Bytes → Outcome S
    derived ct nonce ciphertext written d none = failed pair_derive_failed written d
    derived ct nonce ciphertext written d (some key) =
        if not (C.new_x key)
        then failed pair_new_x_failed written d
        else opened key ct written d (C.unseal key nonce ciphertext (make_pair_aad ct nonce))

    abbrev decapsulated :
        Bytes → Bytes → Bytes → Bytes → List Bytes → PairDaemon S → Option Bytes → Outcome S
    decapsulated token ct nonce ciphertext written d none = failed pair_decapsulate_failed written d
    decapsulated token ct nonce ciphertext written d (some shared) =
        derived ct nonce ciphertext written d (derive_pair_aead_key C shared token)

    abbrev framed :
        Bytes
        → Bytes
        → List Bytes
        → PairDaemon S
        → Result PairFrameError (Bytes × Bytes × Bytes)
        → Outcome S
    framed dk token written d (err e) = failed (bad_frame e) written d
    framed dk token written d (ok (ct, nonce, ciphertext)) =
        if not (length ct == C.ciphertext_size)
        then failed bad_ct_len written d
        else decapsulated token ct nonce ciphertext written d (C.decapsulate dk ct)

    -- The server's key goes out in the clear, for a token that was accepted.
    abbrev accepted : Bytes → Bytes → PairDaemon S → Result TokenError Bytes × PairToken → Outcome S
    accepted dk rest d (err e, t) = failed (token_refused e) [] (record d { token = t })
    accepted dk rest d (ok token, t) =
        let line =
          F.server_key_line d.keys.server_encap_key (fp16_hex F.sha256 d.keys.server_encap_key)
            (I.reply_time + 120) in
        if not I.server_key_writes
        then failed server_key_not_written [] (record d { token = t })
        else framed dk token (line ∷ []) (record d { token = t }) (read_pair_binary_frame rest)

    abbrev hello : Bytes → Bytes → PairDaemon S → Option PairHello → Outcome S
    hello dk rest d none = failed bad_hello_json [] d
    hello dk rest d (some h) =
        if not (h.op =? codes "hello") || not (h.v == 1)
        then failed unexpected_hello [] d
        else if h.token =? []
        then failed missing_token [] d
        else accepted dk rest d (consume_pair_token F.decode_token d.token I.token_time h.token)

    abbrev line_read : Bytes → PairDaemon S → Option (Bytes × Bytes) → Outcome S
    line_read dk d none = failed no_hello [] d
    line_read dk d (some (line, rest)) = hello dk rest d (F.unmarshal_hello (trim_nl line))

    abbrev limited : Bytes → PairDaemon S → Bool × Dict RateWindow → Outcome S
    limited dk d (false, w) = failed hello_rate_limited [] (record d { hellos = w })
    limited dk d (true, w) = line_read dk (record d { hellos = w }) (read_string I.sent)

    abbrev with_key : PairDaemon S → Option Bytes → Outcome S
    with_key d none = failed keys_not_initialized [] d
    with_key d (some dk) =
        if length d.keys.server_encap_key == 0
        then failed keys_not_initialized [] d
        else limited dk d (allow_pair_hello_from_ip d.hellos hello_max I.hello_time I.ip)

    unfoldable pub handle_pair_conn : PairDaemon S → Outcome S
    unfolding allow_pair_hello_from_ip read_string trim_nl bytes_dec consume_pair_token fp16_hex
        read_pair_binary_frame derive_pair_aead_key make_pair_aad write_devices_file
        reload_devices_from_disk Hex.encode lookup
    handle_pair_conn d = with_key d d.keys.server_decap_key
