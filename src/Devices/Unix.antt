-- ===== src/Devices/Unix.antt =====
-- cmd/novakey/devices_keyring_unix.go, devices_save_unix.go and devices_store_unix.go: the devices are
-- sealed under a key that the keyring of the operating system holds.
pub mod Faithful
pub mod Laws
pub mod Safety
pub mod Migrate
pub mod Closed
pub mod Lost
pub mod Seal
pub mod Keyring
use nova_key_daemon.Common.{
  ℕ, ◌+◌, Bool, true, false, not, ◌&&◌, List, Option, none, some, [], Bytes, codes, bytes_dec, ◌=?◌,
  ◌==◌, ltb, length, if◌then◌else◌, Result, ok, err, ◌>>=◌, ◌>>◌, guard, or_fail,
}
use nova_key_daemon.Common.Dict.{Dict}
use nova_key_daemon.Base64.{Base64}
use nova_key_daemon.Files.{
  Os, ReadError, not_exist, unreadable, FileError, read_file, atomic_write_0600,
}
use nova_key_daemon.Message.Crypto.{Crypto}
use nova_key_daemon.Message.Outer.{DeviceState}
use nova_key_daemon.Devices.{DeviceConfig}
use nova_key_daemon.Devices.Write.{
  StoreError, store_not_paired, store_unavailable, save_failed, DeviceStore, devices_of,
}

pub record SealedDevicesFileV1 : Type 0 where
  pub v : ℕ
  pub alg : Bytes
  pub nonce_b64 : Bytes
  pub ct_b64 : Bytes

-- `encoding/json` at the two types; the fields of a wrapper that the text does not name are zero.
pub record DeviceFormats : Type 0 where
  pub base64 : Base64
  pub marshal_devices : List DeviceConfig → Option Bytes
  pub unmarshal_devices : Bytes → Option (List DeviceConfig)
  pub marshal_sealed : SealedDevicesFileV1 → Option Bytes
  pub unmarshal_sealed : Bytes → Option SealedDevicesFileV1

-- The files, and the item `novakey/devices-key` of the keyring.
pub record Machine : Type 0 where
  pub files : Dict Bytes
  pub item : Option Bytes

-- How one operation is answered: by the file system, by the keyring, and by the random generator.
pub record Host : Type 0 where
  pub os : Os
  pub keyring_reads : Bool
  pub keyring_writes : Bool
  pub load_key : Bytes
  pub save_key : Bytes
  pub save_nonce : Bytes

abbrev pub devices_sealed_aad : Bytes
devices_sealed_aad = codes "NovaKey devices v1"

-- `keyring.Get`, with its error as `none`, and an empty item as one.
abbrev pub keyring_get : Host → Option Bytes → Option Bytes
keyring_get H none = none
keyring_get H (some s) = if H.keyring_reads && not (s =? []) then some s else none

module _ (F : DeviceFormats) where
  abbrev checked_item : Option Bytes → Option Bytes
  checked_item none = none
  checked_item (some b) = if not (length b == 32) then none else some b

  -- With the key drawn for a new item; `none` is an error. Every failure to read the item makes a
  -- new one.
  abbrev key_or_new : Host → Bytes → Option Bytes → Machine → Option Bytes × Machine
  key_or_new H drawn (some s) M = (checked_item (F.base64.decode s), M)
  key_or_new H drawn none M =
      if H.keyring_writes
      then (some drawn, record M { item = some (F.base64.encode drawn) })
      else (none, M)

  unfoldable pub get_or_create_devices_key : Host → Bytes → Machine → Option Bytes × Machine
  unfolding bytes_dec
  get_or_create_devices_key H drawn M = key_or_new H drawn (keyring_get H M.item) M

  module _ (C : Crypto) (require_sealed_device_store : Bool) (path : Bytes) where
    abbrev saved :
        Result FileError (Unit {0}) × Dict Bytes → Machine → Result StoreError (Unit {0}) × Machine
    saved (ok u, files) M = (ok u, record M { files = files })
    saved (err e, files) M = (err save_failed, record M { files = files })

    abbrev pub put : Host → Bytes → Machine → Result StoreError (Unit {0}) × Machine
    put H out M = saved (atomic_write_0600 H.os path out M.files) M

    abbrev pub put_marshalled :
        Host → Option Bytes → Machine → Result StoreError (Unit {0}) × Machine
    put_marshalled H none M = (err save_failed, M)
    put_marshalled H (some out) M = put H out M

    abbrev pub wrapper_of : Bytes → Bytes → Bytes → SealedDevicesFileV1
    wrapper_of key nonce pt = record {
      v = 1;
      alg = codes "xchacha20poly1305";
      nonce_b64 = F.base64.encode nonce;
      ct_b64 = F.base64.encode (C.seal key nonce pt devices_sealed_aad);
    }

    abbrev pub seal_and_put :
        Host → Bytes → Option Bytes × Machine → Result StoreError (Unit {0}) × Machine
    seal_and_put H pt (none, M) =
        if require_sealed_device_store then (err store_unavailable, M) else put H pt M
    seal_and_put H pt (some key, M) =
        if not (C.new_x key)
        then (err save_failed, M)
        else put_marshalled H (F.marshal_sealed (wrapper_of key H.save_nonce pt)) M

    abbrev pub save_marshalled :
        Host → Option Bytes → Machine → Result StoreError (Unit {0}) × Machine
    save_marshalled H none M = (err save_failed, M)
    save_marshalled H (some pt) M = seal_and_put H pt (get_or_create_devices_key H H.save_key M)

    unfoldable pub save_devices_to_disk :
        Host → List DeviceConfig → Machine → Result StoreError (Unit {0}) × Machine
    unfolding get_or_create_devices_key atomic_write_0600
    save_devices_to_disk H ds M = save_marshalled H (F.marshal_devices ds) M

    -- The text that is opened or read, as devices.
    abbrev pub parsed : Option (List DeviceConfig) → Result StoreError (Dict DeviceState)
    parsed none = err store_unavailable
    parsed (some ds) = devices_of ds

    abbrev pub open_sealed : Bytes → SealedDevicesFileV1 → Result StoreError Bytes
    open_sealed key wrap = do
      guard (C.new_x key) store_unavailable
      nonce ← or_fail (F.base64.decode wrap.nonce_b64) store_unavailable
      guard (length nonce == C.nonce_size) store_unavailable
      ct ← or_fail (F.base64.decode wrap.ct_b64) store_unavailable
      guard (not (ltb (length ct) C.overhead)) store_unavailable
      or_fail (C.unseal key nonce ct devices_sealed_aad) store_unavailable

    abbrev pub load_opened : Result StoreError Bytes → Result StoreError (Dict DeviceState)
    load_opened (err e) = err e
    load_opened (ok pt) = parsed (F.unmarshal_devices pt)

    abbrev pub load_with_key :
        SealedDevicesFileV1
        → Option Bytes × Machine
        → Result StoreError (Dict DeviceState) × Machine
    load_with_key wrap (none, M) = (err store_unavailable, M)
    load_with_key wrap (some key, M) = (load_opened (open_sealed key wrap), M)

    unfoldable pub load_devices_from_sealed_wrapper :
        Host → SealedDevicesFileV1 → Machine → Result StoreError (Dict DeviceState) × Machine
    unfolding get_or_create_devices_key devices_of
    load_devices_from_sealed_wrapper H wrap M =
        load_with_key wrap (get_or_create_devices_key H H.load_key M)

    abbrev pub is_sealed : Option SealedDevicesFileV1 → Bool
    is_sealed none = false
    is_sealed (some wrap) =
        wrap.v == 1
        && wrap.alg =? codes "xchacha20poly1305"
        && not (wrap.nonce_b64 =? [])
        && not (wrap.ct_b64 =? [])

    abbrev pub load_plain : Bytes → Result StoreError (Dict DeviceState)
    load_plain b =
        if require_sealed_device_store
        then err store_unavailable
        else parsed (F.unmarshal_devices b)

    abbrev pub load_wrapper :
        Host
        → Bytes
        → Option SealedDevicesFileV1
        → Machine
        → Result StoreError (Dict DeviceState) × Machine
    load_wrapper H b none M = (load_plain b, M)
    load_wrapper H b (some wrap) M =
        if is_sealed (some wrap)
        then load_devices_from_sealed_wrapper H wrap M
        else (load_plain b, M)

    abbrev pub load_read :
        Host → Result ReadError Bytes → Machine → Result StoreError (Dict DeviceState) × Machine
    load_read H (err not_exist) M = (err store_not_paired, M)
    load_read H (err unreadable) M = (err store_unavailable, M)
    load_read H (ok b) M = load_wrapper H b (F.unmarshal_sealed b) M

    unfoldable pub load_devices_from_disk :
        Host → Machine → Result StoreError (Dict DeviceState) × Machine
    unfolding read_file load_devices_from_sealed_wrapper bytes_dec devices_of
    load_devices_from_disk H M = load_read H (read_file H.os M.files path) M

    abbrev pub unix_store : Host → DeviceStore Machine
    unix_store H = record { load = load_devices_from_disk H; save = save_devices_to_disk H }
