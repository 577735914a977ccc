-- ===== src/Devices/Unix/Migrate.antt =====
-- cmd/novakey/migrate_devices_store_unix.go, from the configuration that is loaded on.
pub mod Laws
use nova_key_daemon.Common.{
  Bool, true, false, not, List, [], ◌∷◌, ◌++◌, Option, none, some, Bytes, codes, if◌then◌else◌,
  Result, ok, err,
}
use nova_key_daemon.Common.Dict.{Dict}
use nova_key_daemon.Files.{ReadError, read_file, write_file, dir_ready}
use nova_key_daemon.Message.Crypto.{Crypto}
use nova_key_daemon.Devices.{DeviceConfig}
use nova_key_daemon.Devices.Write.{StoreError}
use nova_key_daemon.Devices.Unix.{
  DeviceFormats, Machine, Host, SealedDevicesFileV1, is_sealed, seal_and_put,
  get_or_create_devices_key,
}

pub data MigrateError : Type 0 where
  migrate_read_failed not_plain_json no_devices no_sealing_key backup_failed : MigrateError
  seal_failed : MigrateError

-- `already_sealed` where there was nothing to do.
pub data Migrated : Type 0 where
  already_sealed migrated : Migrated

-- `fmt.Sprintf("%s.bak.%d", path, ts)`, with the number's text as an argument.
abbrev pub backup_of : Bytes → Bytes → Bytes
backup_of path ts = path ++ (codes ".bak." ++ ts)

module _ (F : DeviceFormats) (C : Crypto) (path ts : Bytes) (H : Host) where
  unfoldable pub write_backup_0600 : Bytes → Dict Bytes → Bool × Dict Bytes
  unfolding write_file
  write_backup_0600 b files =
      if not (dir_ready H.os (H.os.dir path))
      then (false, files)
      else write_file H.os (backup_of path ts) b files

  abbrev seal_marshalled : Bytes → Option Bytes → Machine → Result StoreError (Unit {0}) × Machine
  seal_marshalled key none M = (err StoreError.save_failed, M)
  seal_marshalled key (some pt) M = seal_and_put F C true path H pt (some key, M)

  -- As `saveDevicesToDisk` seals and writes.
  unfoldable pub seal_and_write_0600 :
      List DeviceConfig → Bytes → Machine → Result StoreError (Unit {0}) × Machine
  seal_and_write_0600 ds key M = seal_marshalled key (F.marshal_devices ds) M

  abbrev pub sealed_result :
      Result StoreError (Unit {0}) × Machine → Result MigrateError Migrated × Machine
  sealed_result (ok u, M) = (ok migrated, M)
  sealed_result (err e, M) = (err seal_failed, M)

  abbrev pub after_backup :
      List DeviceConfig
      → Bytes
      → Bool × Dict Bytes
      → Machine
      → Result MigrateError Migrated × Machine
  after_backup ds key (false, files) M = (err backup_failed, record M { files = files })
  after_backup ds key (true, files) M =
      sealed_result (seal_and_write_0600 ds key (record M { files = files }))

  abbrev pub after_key :
      Bytes → List DeviceConfig → Option Bytes × Machine → Result MigrateError Migrated × Machine
  after_key b ds (none, M) = (err no_sealing_key, M)
  after_key b ds (some key, M) = after_backup ds key (write_backup_0600 b M.files) M

  abbrev pub migrate_plain :
      Bytes → Option (List DeviceConfig) → Machine → Result MigrateError Migrated × Machine
  migrate_plain b none M = (err not_plain_json, M)
  migrate_plain b (some []) M = (err no_devices, M)
  migrate_plain b (some (d ∷ ds)) M =
      after_key b (d ∷ ds) (get_or_create_devices_key F H H.save_key M)

  abbrev pub migrate_read :
      Result ReadError Bytes → Machine → Result MigrateError Migrated × Machine
  migrate_read (err e) M = (err migrate_read_failed, M)
  migrate_read (ok b) M =
      if is_sealed F C true path (F.unmarshal_sealed b)
      then (ok already_sealed, M)
      else migrate_plain b (F.unmarshal_devices b) M

  unfoldable pub run_migrate_devices_store : Machine → Result MigrateError Migrated × Machine
  unfolding read_file write_backup_0600 seal_and_write_0600 get_or_create_devices_key
  run_migrate_devices_store M = migrate_read (read_file H.os M.files path) M
