-- ===== src/Start/Laws.antt =====
-- What a start that succeeds leaves.
use nova_key_daemon.Common.{
  ◌≡◌, refl, ap, Bool, true, false, not, ◌||◌, [], Option, some, ◌==◌, length, Bytes, Result, ok,
  err, is_some, if◌then◌else◌,
}
use nova_key_daemon.Common.Dict.{Dict}
use nova_key_daemon.Files.{Os}
use nova_key_daemon.Message.Crypto.{Crypto}
use nova_key_daemon.Message.Outer.{DeviceState, KeyStore}
use nova_key_daemon.Devices.Write.{StoreError, store_not_paired, DeviceStore, existing}
use nova_key_daemon.ServerKeys.{KeysError, KeyFormats, KeyMachine, load_or_create_server_keys}
use nova_key_daemon.ServerKeys.Laws.{IsKeyFormat, IsPaired, load_or_create_server_keys-IsPaired}
use nova_key_daemon.Start.{StartError, Started, devices_loaded, keys_loaded, init_crypto}

module _ {S : Type 0} (C : Crypto) (F : KeyFormats) (os : Os) (D : DeviceStore S) where
  -- The keys belong together, and the devices are those of the store, none where it is not paired.
  pub record IsStarted (s : S) (o : Started S) : Type 0 where
    pub dk : Bytes
    pub devices : Dict DeviceState
    pub private : o.machine.keys.server_decap_key ≡ some dk
    pub public : o.machine.keys.server_encap_key ≡ C.encapsulation_key dk
    pub loaded : existing (D.load s).0 ≡ ok devices
    pub in_memory : o.machine.keys.devices ≡ some devices

  devices_loaded-IsStarted :
      (M : KeyMachine) (s : S) (before : KeyStore) (r : Result StoreError (Dict DeviceState) × S)
      → IsPaired C F before M.keys
      → D.load s ≡ r
      → (devices_loaded C F os D M r).0 ≡ ok tt
      → IsStarted s (devices_loaded C F os D M r).1
  devices_loaded-IsStarted M s before (ok m, s') p e h = record {
    dk = p.dk;
    devices = m;
    private = p.private;
    public = p.public;
    loaded = ap (λ x. existing x.0) e;
    in_memory = refl;
  }
  devices_loaded-IsStarted M s before (err store_not_paired, s') p e h = record {
    dk = p.dk;
    devices = [];
    private = p.private;
    public = p.public;
    loaded = ap (λ x. existing x.0) e;
    in_memory = refl;
  }
  devices_loaded-IsStarted M s before (err StoreError.store_unavailable, s') p e h = cc
  devices_loaded-IsStarted M s before (err StoreError.save_failed, s') p e h = cc
  devices_loaded-IsStarted M s before (err (StoreError.bad_entry x), s') p e h = cc
  devices_loaded-IsStarted M s before (err StoreError.no_device_id, s') p e h = cc
  devices_loaded-IsStarted M s before (err StoreError.bad_device_key, s') p e h = cc
  devices_loaded-IsStarted M s before (err StoreError.wrong_device_key_size, s') p e h = cc

  keys_loaded-IsStarted :
      (r : Result KeysError (Unit {0}) × KeyMachine) (s : S) (before : KeyStore)
      → (r.0 ≡ ok tt → IsPaired C F before r.1.keys)
      → (keys_loaded C F os D r s).0 ≡ ok tt
      → IsStarted s (keys_loaded C F os D r s).1
  keys_loaded-IsStarted (err e, M) s before p h = cc
  keys_loaded-IsStarted (ok u, M) s before p h =
      by_flag (not (is_some M.keys.server_decap_key) || length M.keys.server_encap_key == 0) h
    where
      by_flag :
          (b : Bool)
          → (if b
              then (err StartError.start_keys_not_initialized, record { machine = M; store = s })
              else devices_loaded C F os D M (D.load s)).0
            ≡ ok tt
          → IsStarted s
              (if b
                then (err StartError.start_keys_not_initialized, record { machine = M; store = s })
                else devices_loaded C F os D M (D.load s)).1
      by_flag true h = cc
      by_flag false h = devices_loaded-IsStarted M s before (D.load s) (p refl) refl h

  -- A start that succeeds has a pair of keys that belong together, and exactly the devices of the
  -- store, none where nothing is paired yet; a store that cannot be used ends it.
  pub init_crypto-IsStarted :
      (L : IsKeyFormat C F) (rotate : Bool) (keys_file : Bytes) (drawn : Option Bytes)
      (st : Started S)
      → (init_crypto C F os D rotate keys_file drawn st).0 ≡ ok tt
      → IsStarted st.store (init_crypto C F os D rotate keys_file drawn st).1
  unfolding init_crypto
  init_crypto-IsStarted L rotate keys_file drawn st h =
      keys_loaded-IsStarted (load_or_create_server_keys C F os rotate keys_file drawn st.machine)
        st.store st.machine.keys
        (λ e. load_or_create_server_keys-IsPaired C F L os rotate keys_file drawn st.machine e) h
