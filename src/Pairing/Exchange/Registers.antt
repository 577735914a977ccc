-- ===== src/Pairing/Exchange/Registers.antt =====
-- A pairing that succeeds: the device is in the store and in memory, and its messages are received.
use nova_key_daemon.Common.{
  ℕ, ◌≡◌, ◌≢◌, refl, sym, ◌∙◌, Bool, true, some, if◌then◌else◌, ◌=?◌, =?_refl, Bytes, Result, ok,
  err,
}
use nova_key_daemon.Common.Dict.{Dict, lookup}
use nova_key_daemon.Message.Crypto.{Crypto}
use nova_key_daemon.Message.Outer.{DeviceState, KeyStore, outer_keys}
use nova_key_daemon.Devices.Write.{
  StoreError, DeviceStore, IsLawful, existing, checked_key, write_key, write_devices_file,
}
use nova_key_daemon.Devices.Write.Laws.{write_devices_file-load, reload_devices_from_disk-ok}
use nova_key_daemon.Pairing.Exchange.{
  PairRegister, PairError, PairFormats, PairInput, PairDaemon, Outcome, chosen_id, chosen_key,
  handle_pair_conn,
}
use nova_key_daemon.Pairing.Exchange.Authorized.{
  Changes, untouched, registered, IsAuthorized, IsFinished, written_by,
}
use nova_key_daemon.Pairing.Exchange.Writes.{handle_pair_conn-Changes}

write_key-checked :
    {S : Type 0} (D : DeviceStore S) (id : Bytes) (r : Result StoreError Bytes) (s : S)
    → (write_key D id r s).0 ≡ ok tt
    → (k : Bytes) × (r ≡ ok k)
write_key-checked D id (err e) s h = cc
write_key-checked D id (ok k) s h = (k, refl)

outer_keys-registered :
    (ks : KeyStore) (id dk : Bytes) (m : Dict DeviceState) (dev : DeviceState)
    → ks.devices ≡ some m
    → lookup id m ≡ some dev
    → ks.server_decap_key ≡ some dk
    → outer_keys ks id ≡ ok (dev, dk)
unfolding outer_keys
outer_keys-registered ks id dk m dev a b c = rw (a, b, c) refl

module _ {S : Type 0} (C : Crypto) (F : PairFormats) (hello_max : ℕ) (rotate : Bool)
    (D : DeviceStore S) (valid : Bytes → Bool) (L : IsLawful valid D D) (I : PairInput)
    (d : PairDaemon S)
    (valid_names : (b : Bytes) (reg : PairRegister)
      → F.unmarshal_register b ≡ some reg
      → valid (chosen_id I reg) ≡ true)
    (m : Dict DeviceState) (known : existing (D.load d.store).0 ≡ ok m) where
  -- The state after a pairing: `reg` is what the phone asked for, `static_key` the device's key.
  pub record IsRegistered (o : Outcome S) : Type 0 where
    pub reg : PairRegister
    pub static_key : Bytes
    pub dk : Bytes
    pub devices : Dict DeviceState
    pub authorized : IsAuthorized C F hello_max rotate D I d reg
    pub keyed :
        checked_key (chosen_id I reg) (chosen_key rotate I reg d.keys.devices) ≡ ok static_key
    pub in_memory : o.daemon.keys.devices ≡ some devices
    pub updated :
        (j : Bytes)
        → lookup j devices ≡ (
            if j =? chosen_id I reg
            then some (record { id = chosen_id I reg; static_key = static_key })
            else lookup j m)
    pub received :
        outer_keys o.daemon.keys (chosen_id I reg)
        ≡ ok (record { id = chosen_id I reg; static_key = static_key }, dk)

  IsFinished-IsRegistered :
      (o : Outcome S) (reg : PairRegister)
      → IsAuthorized C F hello_max rotate D I d reg
      → IsFinished C F hello_max rotate D I d reg o
      → IsRegistered o
  unfolding write_devices_file
  IsFinished-IsRegistered o reg a f =
      let id = chosen_id I reg in
      let key_hex = chosen_key rotate I reg d.keys.devices in
      let k = write_key-checked D id (checked_key id key_hex) d.store f.stored_ok in
      let w =
        write_devices_file-load valid D D L id key_hex k.0 m d.store
          (valid_names a.plaintext reg a.registers) k.1 known f.stored_ok in
      let memory =
        f.in_memory
        ∙ reload_devices_from_disk-ok D d.keys.devices (written_by C F hello_max rotate D I d reg).1
            w.0 w.1 in
      record {
        reg = reg;
        static_key = k.0;
        dk = a.dk;
        devices = w.0;
        authorized = a;
        keyed = k.1;
        in_memory = memory;
        updated = w.2;
        received =
            outer_keys-registered o.daemon.keys id a.dk w.0 (record { id = id; static_key = k.0 })
              memory (w.2 id ∙ rw (=?_refl id) refl) (f.same_key ∙ a.private);
      }

  Changes-IsRegistered :
      (o : Outcome S) → Changes C F hello_max rotate D I d o → o.result ≡ ok tt → IsRegistered o
  Changes-IsRegistered o (untouched s k x r) h = absurd (clash (sym r ∙ h))
    where
      clash : ◌≢◌ {A = Result PairError (Unit {0})} (err x) (ok tt)
      clash y = cc
  Changes-IsRegistered o (registered reg a t s f) h = IsFinished-IsRegistered o reg a (f h)

  -- A pairing that succeeds has registered the device of an authorized message: the devices in memory
  -- are those that were stored, with this one under its key, and the frames of its name are opened
  -- with that key.
  pub handle_pair_conn-IsRegistered :
      (handle_pair_conn C F hello_max rotate D I d).result ≡ ok tt
      → IsRegistered (handle_pair_conn C F hello_max rotate D I d)
  handle_pair_conn-IsRegistered h =
      Changes-IsRegistered _ (handle_pair_conn-Changes C F hello_max rotate D I d) h
