-- ===== src/Start.antt =====
-- `initCrypto` of cmd/novakey/crypto.go: the keys and the devices at the start of the daemon.
pub mod Laws
use nova_key_daemon.Common.{
  Bool, [], Option, none, some, Bytes, ◌||◌, ◌==◌, length, if◌then◌else◌, Result, ok, err, is_some,
  not,
}
use nova_key_daemon.Common.Dict.{Dict}
use nova_key_daemon.Files.{Os}
use nova_key_daemon.Message.Crypto.{Crypto}
use nova_key_daemon.Message.Outer.{DeviceState, KeyStore}
use nova_key_daemon.Devices.Write.{StoreError, store_not_paired, DeviceStore}
use nova_key_daemon.ServerKeys.{KeysError, KeyFormats, KeyMachine, load_or_create_server_keys}

pub data StartError : Type 0 where
  server_keys_failed : KeysError → StartError
  start_keys_not_initialized : StartError
  device_store_failed : StoreError → StartError

-- The keys' machine, and what the device store holds.
pub record Started (S : Type 0) : Type 0 where
  pub machine : KeyMachine
  pub store : S

module _ {S : Type 0} (C : Crypto) (F : KeyFormats) (os : Os) (D : DeviceStore S) where
  abbrev with_devices : Option (Dict DeviceState) → KeyMachine → KeyMachine
  with_devices devices M = record M { keys = record M.keys { devices = devices } }

  -- Nothing paired yet is no error; a store that cannot be used is.
  abbrev pub devices_loaded :
      KeyMachine
      → Result StoreError (Dict DeviceState) × S
      → Result StartError (Unit {0}) × Started S
  devices_loaded M (ok m, s) = (ok tt, record { machine = with_devices (some m) M; store = s })
  devices_loaded M (err store_not_paired, s) =
      (ok tt, record { machine = with_devices (some []) M; store = s })
  devices_loaded M (err e, s) = (err (device_store_failed e), record { machine = M; store = s })

  abbrev pub keys_loaded :
      Result KeysError (Unit {0}) × KeyMachine → S → Result StartError (Unit {0}) × Started S
  keys_loaded (err e, M) s = (err (server_keys_failed e), record { machine = M; store = s })
  keys_loaded (ok u, M) s =
      if not (is_some M.keys.server_decap_key) || length M.keys.server_encap_key == 0
      then (err start_keys_not_initialized, record { machine = M; store = s })
      else devices_loaded M (D.load s)

  unfoldable pub init_crypto :
      Bool → Bytes → Option Bytes → Started S → Result StartError (Unit {0}) × Started S
  unfolding load_or_create_server_keys
  init_crypto rotate keys_file drawn st =
      keys_loaded (load_or_create_server_keys C F os rotate keys_file drawn st.machine) st.store
