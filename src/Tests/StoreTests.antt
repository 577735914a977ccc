-- ===== src/Tests/StoreTests.antt =====
-- A device "d" is stored, sealed, migrated and lost.
use nova_key_daemon.Common.{
  ◌≡◌, refl, ap, sym, true, [], ◌∷◌, Option, none, some, drop, arith, if◌then◌else◌, ◌=?◌,
  bytes_dec, Bytes, codes, ok, err,
}
use nova_key_daemon.Common.Dict.{Dict, lookup, insert, erase}
use nova_key_daemon.Common.Hex
use nova_key_daemon.Files.{read_file, write_file, rename_file, atomic_write_0600}
use nova_key_daemon.Message.Crypto.Toy.{toy, toy-IsLawful}
use nova_key_daemon.Message.Outer.{DeviceState}
use nova_key_daemon.Devices.Map.{entries_of}
use nova_key_daemon.Devices.Write.{
  save_failed, store_unavailable, DeviceStore, IsLawful, IsWritable, devices_of, checked_key,
  write_devices_file,
}
use nova_key_daemon.Devices.Write.Laws.{write_devices_file-load}
use nova_key_daemon.Devices.Unix.{
  Machine, Host, devices_sealed_aad, get_or_create_devices_key, save_devices_to_disk,
  load_devices_from_disk, unix_store,
}
use nova_key_daemon.Devices.Unix.Laws.{unix_store-IsLawful}
use nova_key_daemon.Devices.Unix.Safety.{write_devices_file_failed}
use nova_key_daemon.Devices.Unix.Closed.{IsSealedFile, save_devices_to_disk-IsSealedFile}
use nova_key_daemon.Devices.Unix.Lost.{load_devices_from_disk_loses_key}
use nova_key_daemon.Devices.Unix.Migrate.{
  backup_of, write_backup_0600, seal_and_write_0600, run_migrate_devices_store,
}
use nova_key_daemon.Devices.Unix.Migrate.Laws.{run_migrate_devices_store-Kept}
use nova_key_daemon.Tests.StoreToy.{
  any_name, toy_formats, toy-IsFaithful, full_os, key_hex, key, host, locked_host, path, fresh,
  host-IsHealthy, device_d, plain_file,
}

abbrev sealed_store : DeviceStore Machine
sealed_store = unix_store toy_formats toy true path host

unix_store-IsLawful_example : IsLawful any_name sealed_store sealed_store
unix_store-IsLawful_example =
    unix_store-IsLawful toy_formats toy true path any_name host host toy-IsFaithful toy-IsLawful
      host-IsHealthy

lawful : IsLawful any_name sealed_store sealed_store
lawful =
    unix_store-IsLawful toy_formats toy true path any_name host host toy-IsFaithful toy-IsLawful
      host-IsHealthy

write_devices_file-load_example :
    (out : Dict DeviceState) × ((sealed_store.load
        (write_devices_file sealed_store (codes "d") key_hex fresh).1).0
      ≡ ok out)
    × ((j : Bytes)
        → lookup j out ≡ (
            if j =? codes "d"
            then some (record { id = codes "d"; static_key = key })
            else lookup j []))
unfolding write_devices_file checked_key Hex.decode bytes_dec load_devices_from_disk
    save_devices_to_disk read_file atomic_write_0600 write_file rename_file lookup insert erase
    get_or_create_devices_key entries_of Hex.encode
write_devices_file-load_example =
    write_devices_file-load any_name sealed_store sealed_store lawful (codes "d") key_hex key []
      fresh refl refl refl refl

device_d-IsWritable : IsWritable any_name (device_d ∷ [])
unfolding Hex.encode Hex.digit
device_d-IsWritable = ((refl, Hex.is_ascii-encode key (omega arith)), tt)

abbrev full_store : DeviceStore Machine
full_store = unix_store toy_formats toy true path (record host { os = full_os })

abbrev stored : Machine
stored = record fresh { files = (path, plain_file) ∷ [] }

write_devices_file_failed_example :
    lookup path (write_devices_file full_store (codes "d") key_hex fresh).1.files
    ≡ lookup path fresh.files
unfolding write_devices_file checked_key Hex.decode bytes_dec load_devices_from_disk
    save_devices_to_disk read_file atomic_write_0600 write_file rename_file lookup insert erase
    get_or_create_devices_key entries_of Hex.encode
write_devices_file_failed_example =
    write_devices_file_failed toy_formats toy true path (record host { os = full_os }) (codes "d")
      key_hex fresh save_failed refl

save_devices_to_disk-IsSealedFile_example :
    IsSealedFile toy_formats toy path true host
      (device_d ∷ [])
      fresh
      (save_devices_to_disk toy_formats toy true path host (device_d ∷ []) fresh).1.files
unfolding save_devices_to_disk atomic_write_0600 write_file rename_file lookup insert erase
    get_or_create_devices_key bytes_dec
save_devices_to_disk-IsSealedFile_example =
    save_devices_to_disk-IsSealedFile toy_formats toy path host (device_d ∷ []) fresh refl

-- The keyring is locked, and the key drawn is another one.
abbrev locked_out : Host
locked_out = record locked_host { load_key = 2 ∷ drop 1 key }

abbrev opened_by_other : Bytes → Bytes → Option Bytes
opened_by_other k pt =
    toy.unseal locked_out.load_key host.save_nonce
      (toy.seal k host.save_nonce pt devices_sealed_aad) devices_sealed_aad

other_key : (k pt : Bytes) → some key ≡ some k → opened_by_other k pt ≡ none
unfolding bytes_dec
other_key k pt e = ap (λ x. opened_by_other x pt) (sym (same e))
  where
    same : some key ≡ some k → key ≡ k
    same h = cc

load_devices_from_disk_loses_key_example :
    ((load_devices_from_disk toy_formats toy true path host
        (save_devices_to_disk toy_formats toy true path host (device_d ∷ []) fresh).1).0
      ≡ devices_of (device_d ∷ []))
    × ((load_devices_from_disk toy_formats toy true path host
          (load_devices_from_disk toy_formats toy true path locked_out
            (save_devices_to_disk toy_formats toy true path host (device_d ∷ []) fresh).1).1).0
        ≡ err store_unavailable)
unfolding save_devices_to_disk atomic_write_0600 write_file rename_file lookup insert erase
    get_or_create_devices_key bytes_dec
load_devices_from_disk_loses_key_example =
    load_devices_from_disk_loses_key toy_formats toy path any_name toy-IsFaithful toy-IsLawful host
      locked_out host host-IsHealthy refl refl refl refl (device_d ∷ []) fresh device_d-IsWritable
      other_key refl

run_migrate_devices_store-Kept_example :
    ((load_devices_from_disk toy_formats toy true path host
        (run_migrate_devices_store toy_formats toy path (codes "5") host stored).1).0
      ≡ devices_of (device_d ∷ []))
    × (lookup
          (backup_of path (codes "5"))
          (run_migrate_devices_store toy_formats toy path (codes "5") host stored).1.files
        ≡ some plain_file)
unfolding run_migrate_devices_store write_backup_0600 seal_and_write_0600 read_file
    atomic_write_0600 write_file rename_file lookup insert erase get_or_create_devices_key bytes_dec
run_migrate_devices_store-Kept_example =
    run_migrate_devices_store-Kept toy_formats toy path (codes "5") host any_name toy-IsFaithful
      toy-IsLawful host host-IsHealthy (device_d ∷ []) (device_d-IsWritable) plain_file stored refl
      refl refl
