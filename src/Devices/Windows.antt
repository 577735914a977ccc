-- ===== src/Devices/Windows.antt =====
-- cmd/novakey/devices_store_windows.go and devices_save_windows.go: the devices are loaded from a file
-- that DPAPI protects, and saved as plain JSON.
pub mod Laws
use nova_key_daemon.Common.{
  ℕ, Bool, true, false, not, ◌||◌, List, [], ◌∷◌, ◌++◌, Option, none, some, Bytes, codes, bytes_dec,
  ◌=?◌, ◌==◌, length, if◌then◌else◌, Result, ok, err, ◌>>=◌, ◌>>◌, guard, or_fail,
}
use nova_key_daemon.Common.Dict.{Dict}
use nova_key_daemon.Common.Text.{Unicode, to_lower, trim_space, has_suffix, trim_suffix}
use nova_key_daemon.Base64.{Base64}
use nova_key_daemon.Files.{
  Os, ReadError, not_exist, unreadable, read_file, write_file, remove_file, rename_file, tmp_of,
  dir_ready,
}
use nova_key_daemon.Message.Outer.{DeviceState}
use nova_key_daemon.Devices.{DeviceConfig}
use nova_key_daemon.Devices.Map.{entries_of}
use nova_key_daemon.Devices.Write.{
  StoreError, store_not_paired, store_unavailable, save_failed, DeviceStore, devices_of,
}

pub record DpapiFile : Type 0 where
  pub v : ℕ
  pub dpapi_b64 : Bytes

-- `encoding/json`, `encoding/base64`, DPAPI, and `filepath.Ext`.
pub record WindowsFormats : Type 0 where
  pub unicode : Unicode
  pub base64 : Base64
  pub marshal_devices : List DeviceConfig → Option Bytes
  pub unmarshal_devices : Bytes → Option (List DeviceConfig)
  pub marshal_dpapi : DpapiFile → Option Bytes
  pub unmarshal_dpapi : Bytes → Option DpapiFile
  pub protect : Bytes → Option Bytes
  pub unprotect : Bytes → Option Bytes
  pub ext : Bytes → Bytes

module _ (F : WindowsFormats) where
  unfoldable pub prefer_dpapi_path : Bytes → Bytes
  unfolding to_lower trim_suffix bytes_dec
  prefer_dpapi_path path =
      let lo = to_lower F.unicode path in
      if has_suffix lo (codes ".dpapi.json")
      then path
      else if has_suffix lo (codes ".json")
      then trim_suffix path (F.ext path) ++ codes ".dpapi.json"
      else path ++ codes ".dpapi.json"

  unfoldable pub plain_path : Bytes → Bytes
  unfolding to_lower trim_suffix bytes_dec
  plain_path path =
      if has_suffix (to_lower F.unicode path) (codes ".dpapi.json")
      then trim_suffix path (codes ".dpapi.json") ++ codes ".json"
      else path

  abbrev pub parsed : Option (List DeviceConfig) → Result StoreError (Dict DeviceState)
  parsed none = err store_unavailable
  parsed (some ds) = devices_of ds

  abbrev pub opened_dpapi : Bytes → Result StoreError Bytes
  opened_dpapi b = do
    wrap ← or_fail (F.unmarshal_dpapi b) store_unavailable
    guard (not (not (wrap.v == 1) || (trim_space F.unicode wrap.dpapi_b64 =? []))) store_unavailable
    ct ← or_fail (F.base64.decode wrap.dpapi_b64) store_unavailable
    or_fail (F.unprotect ct) store_unavailable

  abbrev pub load_opened : Result StoreError Bytes → Result StoreError (Dict DeviceState)
  load_opened (err e) = err e
  load_opened (ok pt) = parsed (F.unmarshal_devices pt)

  abbrev pub dpapi_read : Result ReadError Bytes → Result StoreError (Dict DeviceState)
  dpapi_read (err not_exist) = err store_not_paired
  dpapi_read (err unreadable) = err store_unavailable
  dpapi_read (ok b) = load_opened (opened_dpapi b)

  abbrev pub plain_read : Result ReadError Bytes → Result StoreError (Dict DeviceState)
  plain_read (err not_exist) = err store_not_paired
  plain_read (err unreadable) = err store_unavailable
  plain_read (ok b) = parsed (F.unmarshal_devices b)

  module _ (os : Os) where
    unfoldable pub load_devices_from_dpapi_file :
        Bytes → Dict Bytes → Result StoreError (Dict DeviceState)
    unfolding read_file devices_of trim_space bytes_dec
    load_devices_from_dpapi_file path files = dpapi_read (read_file os files path)

    unfoldable pub load_devices_from_plain_json :
        Bytes → Dict Bytes → Result StoreError (Dict DeviceState)
    unfolding read_file devices_of
    load_devices_from_plain_json path files = plain_read (read_file os files path)

    abbrev renamed_dpapi : Bytes → Bool × Dict Bytes → Bool × Dict Bytes
    renamed_dpapi path (false, files) = (false, files)
    renamed_dpapi path (true, files) = rename_file os (tmp_of path) path files

    abbrev put_dpapi : Bytes → Option Bytes → Dict Bytes → Bool × Dict Bytes
    put_dpapi path none files = (false, files)
    put_dpapi path (some out) files = renamed_dpapi path (write_file os (tmp_of path) out files)

    abbrev protected : Bytes → Option Bytes → Dict Bytes → Bool × Dict Bytes
    protected path none files = (false, files)
    protected path (some ct) files =
        put_dpapi path (F.marshal_dpapi (record { v = 1; dpapi_b64 = F.base64.encode ct })) files

    abbrev marshalled : Bytes → Option Bytes → Dict Bytes → Bool × Dict Bytes
    marshalled path none files = (false, files)
    marshalled path (some pt) files = protected path (F.protect pt) files

    -- Whether it succeeds, and the files.
    unfoldable pub write_devices_dpapi_file :
        Bytes → Dict DeviceState → Dict Bytes → Bool × Dict Bytes
    unfolding entries_of write_file rename_file
    write_devices_dpapi_file path m files = marshalled path (F.marshal_devices (entries_of m)) files

    -- The plain file goes, whether or not the protected one was written.
    abbrev pub migrate_plain :
        Bytes
        → Result StoreError (Dict DeviceState)
        → StoreError
        → Dict Bytes
        → Result StoreError (Dict DeviceState) × Dict Bytes
    migrate_plain path (err x) e files = (err e, files)
    migrate_plain path (ok m) e files =
        let prefer = prefer_dpapi_path path in
        let files' = remove_file os (plain_path path) (write_devices_dpapi_file prefer m files).1 in
        (load_devices_from_dpapi_file prefer files', files')

    abbrev pub load_first :
        Bytes
        → Result StoreError (Dict DeviceState)
        → Dict Bytes
        → Result StoreError (Dict DeviceState) × Dict Bytes
    load_first path (ok m) files = (ok m, files)
    load_first path (err store_not_paired) files =
        migrate_plain path (load_devices_from_plain_json (plain_path path) files) store_not_paired
          files
    load_first path (err e) files = (err e, files)

    unfoldable pub load_devices_from_disk :
        Bytes → Dict Bytes → Result StoreError (Dict DeviceState) × Dict Bytes
    unfolding load_devices_from_dpapi_file load_devices_from_plain_json write_devices_dpapi_file
        prefer_dpapi_path plain_path remove_file
    load_devices_from_disk path files =
        load_first path (load_devices_from_dpapi_file (prefer_dpapi_path path) files) files

    abbrev renamed_plain : Bytes → Bool × Dict Bytes → Result StoreError (Unit {0}) × Dict Bytes
    renamed_plain path (true, files) = (ok tt, files)
    renamed_plain path (false, files) = (err save_failed, remove_file os (tmp_of path) files)

    -- The old file is removed before the new one takes its place.
    abbrev written_plain : Bytes → Bool × Dict Bytes → Result StoreError (Unit {0}) × Dict Bytes
    written_plain path (false, files) = (err save_failed, files)
    written_plain path (true, files) =
        renamed_plain path (rename_file os (tmp_of path) path (remove_file os path files))

    abbrev put_plain : Bytes → Option Bytes → Dict Bytes → Result StoreError (Unit {0}) × Dict Bytes
    put_plain path none files = (err save_failed, files)
    put_plain path (some b) files =
        written_plain path (write_file os (tmp_of path) b (remove_file os (tmp_of path) files))

    unfoldable pub save_devices_to_disk :
        Bytes → List DeviceConfig → Dict Bytes → Result StoreError (Unit {0}) × Dict Bytes
    unfolding write_file rename_file remove_file bytes_dec
    save_devices_to_disk path ds files =
        if path =? []
        then (err save_failed, files)
        else if not (dir_ready os (os.dir path))
        then (err save_failed, files)
        else put_plain path (F.marshal_devices ds) files

    abbrev pub windows_store : Bytes → DeviceStore (Dict Bytes)
    windows_store path = record {
      load = load_devices_from_disk path;
      save = save_devices_to_disk path;
    }
