-- ===== src/Devices/Write.antt =====
-- cmd/novakey/devices_write.go, and `reloadDevicesFromDisk` and the devices' part of `initCrypto` of
-- crypto.go, over the interface that the platforms' files fill.
pub mod Laws
use nova_key_daemon.Common.{
  ◌≡◌, ◌≢◌, Bool, true, not, List, [], ◌∷◌, Option, none, some, Bytes, bytes_dec, ◌=?◌, ◌==◌, ltb,
  length, Result, ok, err, All, if◌then◌else◌,
}
use nova_key_daemon.Common.Dict.{Dict, insert}
use nova_key_daemon.Common.Hex
use nova_key_daemon.Message.Outer.{DeviceState}
use nova_key_daemon.Devices.{DeviceConfig, DevicesError, not_paired, build_devices_map}
use nova_key_daemon.Devices.Map.{IsWellFormed, entries_of}

-- `ErrNotPaired`, `ErrDevicesUnavailable`, an error of an entry, a save that failed, and the refusals
-- of `writeDevicesFile`.
pub data StoreError : Type 0 where
  store_not_paired store_unavailable save_failed : StoreError
  bad_entry : DevicesError → StoreError
  no_device_id bad_device_key wrong_device_key_size : StoreError

-- `loadDevicesFromDisk` and `saveDevicesToDisk` of a platform, over what it stores.
pub record DeviceStore (S : Type 0) : Type 0 where
  pub load : S → Result StoreError (Dict DeviceState) × S
  pub save : List DeviceConfig → S → Result StoreError (Unit {0}) × S

-- The error of a map keeps `ErrNotPaired`.
abbrev pub map_result :
    Result DevicesError (Dict DeviceState) → Result StoreError (Dict DeviceState)
map_result (ok m) = ok m
map_result (err not_paired) = err store_not_paired
map_result (err e) = err (bad_entry e)

-- The end of every load: a file that lists no device is "not paired".
unfoldable pub devices_of : List DeviceConfig → Result StoreError (Dict DeviceState)
unfolding build_devices_map
devices_of [] = err store_not_paired
devices_of (d ∷ ds) = map_result (build_devices_map (d ∷ ds))

-- What JSON keeps of a list: names that are valid UTF-8, and keys written in ASCII.
abbrev pub IsWritable : (Bytes → Bool) → List DeviceConfig → Type 0
IsWritable valid = All (λ d. (valid d.id ≡ true) × All (λ c. ltb c 128 ≡ true) d.key_hex)

-- What a platform promises: what it loads is well-formed, and what it saved is what a later load gives.
pub record IsLawful (valid : Bytes → Bool) {S : Type 0} (now later : DeviceStore S) : Type 0 where
  pub load-IsWellFormed :
      (s : S) {m : Dict DeviceState} → (now.load s).0 ≡ ok m → IsWellFormed valid m
  pub load-save :
      (ds : List DeviceConfig) (s : S)
      → ds ≢ []
      → IsWritable valid ds
      → (now.save ds s).0 ≡ ok tt
      → (later.load (now.save ds s).1).0 ≡ devices_of ds

abbrev pub sized_key : Option Bytes → Result StoreError Bytes
sized_key none = err bad_device_key
sized_key (some k) = if not (length k == 32) then err wrong_device_key_size else ok k

unfoldable pub checked_key : Bytes → Bytes → Result StoreError Bytes
unfolding Hex.decode bytes_dec
checked_key device_id device_key_hex =
    if device_id =? [] then err no_device_id else sized_key (Hex.decode device_key_hex)

-- A store that is not paired yet is started afresh.
abbrev pub existing : Result StoreError (Dict DeviceState) → Result StoreError (Dict DeviceState)
existing (ok m) = ok m
existing (err store_not_paired) = ok []
existing (err e) = err e

module _ {S : Type 0} (D : DeviceStore S) where
  abbrev pub upsert :
      Bytes → Bytes → Result StoreError (Dict DeviceState) → S → Result StoreError (Unit {0}) × S
  upsert id k (err e) s = (err e, s)
  upsert id k (ok m) s = D.save (entries_of (insert id (record { id = id; static_key = k }) m)) s

  abbrev pub write_key : Bytes → Result StoreError Bytes → S → Result StoreError (Unit {0}) × S
  write_key id (err e) s = (err e, s)
  write_key id (ok k) s = upsert id k (existing (D.load s).0) (D.load s).1

  unfoldable pub write_devices_file : Bytes → Bytes → S → Result StoreError (Unit {0}) × S
  unfolding checked_key insert entries_of
  write_devices_file device_id device_key_hex s =
      write_key device_id (checked_key device_id device_key_hex) s

  abbrev reloaded :
      Option (Dict DeviceState)
      → Result StoreError (Dict DeviceState) × S
      → Result StoreError (Unit {0}) × Option (Dict DeviceState) × S
  reloaded devices (err e, s) = (err e, devices, s)
  reloaded devices (ok m, s) = (ok tt, some m, s)

  -- A load that fails leaves the devices that are there.
  unfoldable pub reload_devices_from_disk :
      Option (Dict DeviceState) → S → Result StoreError (Unit {0}) × Option (Dict DeviceState) × S
  reload_devices_from_disk devices s = reloaded devices (D.load s)
