-- ===== src/Pairing/Exchange/Authorized.antt =====
-- What a connection to `/pair` must have sent to change the devices, and what it does then.
use nova_key_daemon.Common.{
  ℕ, ◌≡◌, ◌⊎◌, Bool, true, false, [], some, ◌=?◌, ◌==◌, Bytes, codes, length, Result, ok, err,
}
use nova_key_daemon.Message.Crypto.{Crypto}
use nova_key_daemon.PairToken.{no_token, consume_pair_token}
use nova_key_daemon.Router.{read_string}
use nova_key_daemon.Devices.Write.{
  StoreError, DeviceStore, write_devices_file, reload_devices_from_disk,
}
use nova_key_daemon.Pairing.{PairFrameError, make_pair_aad, read_pair_binary_frame, trim_nl}
use nova_key_daemon.Pairing.Exchange.{
  PairHello, PairRegister, PairError, PairFormats, PairInput, PairDaemon, Outcome, chosen_id,
  chosen_key, derive_pair_aead_key,
}

module _ {S : Type 0} (C : Crypto) (F : PairFormats) (hello_max : ℕ) (rotate : Bool)
    (D : DeviceStore S) (I : PairInput) (d : PairDaemon S) where
  -- The first line of what was sent is a hello message, whose token the daemon accepts; `rest` is what
  -- was sent behind that line.
  pub record IsGreeted (rest token : Bytes) : Type 0 where
    pub line : Bytes
    pub hello_message : PairHello
    pub reads : read_string I.sent ≡ some (line, rest)
    pub parses : F.unmarshal_hello (trim_nl line) ≡ some hello_message
    pub hello_op : (hello_message.op =? codes "hello") ≡ true
    pub hello_v : (hello_message.v == 1) ≡ true
    pub sent_token : (hello_message.token =? []) ≡ false
    pub consumed :
        (consume_pair_token F.decode_token d.token I.token_time hello_message.token).0 ≡ ok token

  -- What a connection must have sent to change the devices: a hello message with a token that the
  -- daemon accepts, and behind it a frame with a registration, sealed under the key that the token and
  -- the key encapsulation give.
  pub record IsAuthorized (reg : PairRegister) : Type 0 where
    pub rest : Bytes
    pub token : Bytes
    pub dk : Bytes
    pub ct : Bytes
    pub nonce : Bytes
    pub ciphertext : Bytes
    pub shared : Bytes
    pub key : Bytes
    pub plaintext : Bytes
    pub greeted : IsGreeted rest token
    pub private : d.keys.server_decap_key ≡ some dk
    pub frames :
        ◌≡◌ {A = Result PairFrameError (Bytes × Bytes × Bytes)}
          (read_pair_binary_frame rest)
          (ok (ct, nonce, ciphertext))
    pub ct_size : (length ct == C.ciphertext_size) ≡ true
    pub decapsulates : C.decapsulate dk ct ≡ some shared
    pub derives : derive_pair_aead_key C shared token ≡ some key
    pub usable : C.new_x key ≡ true
    pub opens : C.unseal key nonce ciphertext (make_pair_aad ct nonce) ≡ some plaintext
    pub registers : F.unmarshal_register plaintext ≡ some reg
    pub register_op : (reg.op =? codes "register") ≡ true
    pub register_v : (reg.v == 1) ≡ true

  -- The devices are written under the name and with the key of the registration.
  abbrev pub written_by : PairRegister → Result StoreError (Unit {0}) × S
  written_by reg =
      write_devices_file D (chosen_id I reg) (chosen_key rotate I reg d.keys.devices) d.store

  -- A connection that succeeds has written the device, and loaded the devices again.
  pub record IsFinished (reg : PairRegister) (o : Outcome S) : Type 0 where
    pub stored_ok : (written_by reg).0 ≡ ok tt
    pub in_memory :
        o.daemon.keys.devices ≡ (reload_devices_from_disk D d.keys.devices (written_by reg).1).1
    pub same_key : o.daemon.keys.server_decap_key ≡ d.keys.server_decap_key

  -- What a connection may do to the devices: nothing, or write the device that an authorized message
  -- registers, and then the token is spent.
  pub data Changes (o : Outcome S) : Type 0 where
    untouched :
        o.daemon.store ≡ d.store
        → o.daemon.keys.devices ≡ d.keys.devices
        → (x : PairError) → o.result ≡ err x
        → Changes o
    registered :
        (reg : PairRegister)
        → IsAuthorized reg
        → o.daemon.token ≡ no_token
        → (o.daemon.store ≡ (written_by reg).1) ⊎ (o.daemon.store ≡ (D.load (written_by reg).1).1)
        → (o.result ≡ ok tt → IsFinished reg o)
        → Changes o
