-- ===== src/Devices/Windows/Laws.antt =====
-- What a save leaves of the file that is loaded, and when a migration loses the devices.
use nova_key_daemon.Common.{
  ite, ◌≡◌, ◌≢◌, refl, ap, ◌∙◌, Bool, true, false, not, List, [], Option, none, some, Bool-cases,
  inl, inr, if◌then◌else◌, ◌=?◌, Bytes, bytes_dec, Result, ok, err,
}
use nova_key_daemon.Common.Dict.{Dict, lookup}
use nova_key_daemon.Files.{Os, write_file, remove_file, rename_file, tmp_of, dir_ready}
use nova_key_daemon.Files.Laws.{
  lookup-remove_file, lookup-remove_file_self, read_file-lookup, lookup-write_file,
  lookup-rename_file, rename_file_failed,
}
use nova_key_daemon.Message.Outer.{DeviceState}
use nova_key_daemon.Devices.{DeviceConfig}
use nova_key_daemon.Devices.Write.{
  StoreError, store_not_paired, checked_key, write_key, write_devices_file,
}
use nova_key_daemon.Devices.Windows.{
  WindowsFormats, prefer_dpapi_path, plain_path, dpapi_read, load_devices_from_dpapi_file,
  load_devices_from_plain_json, write_devices_dpapi_file, migrate_plain, load_first,
  load_devices_from_disk, renamed_plain, written_plain, put_plain, save_devices_to_disk,
  windows_store,
}

lookup-rename_file_other :
    (os : Os) (j from to : Bytes) (files : Dict Bytes)
    → j ≢ from
    → j ≢ to
    → lookup j (rename_file os from to files).1 ≡ lookup j files
lookup-rename_file_other os j from to files a b =
    elim (Bool-cases (rename_file os from to files).0) [
      | inl done ↦
          lookup-rename_file os j from to files done ∙ other (bytes_dec j to) (bytes_dec j from)
      | inr same ↦ ap (lookup j) (rename_file_failed os from to files same)
    ]
  where
    other :
        (p : Dec (j ≡ to)) (q : Dec (j ≡ from))
        → (if ite p true false
            then lookup from files
            else if ite q true false
            then none
            else lookup j files)
          ≡ lookup j files
    other (yes e) q = absurd (b e)
    other (no e) (yes d) = absurd (a d)
    other (no e) (no d) = refl

module _ (F : WindowsFormats) (os : Os) (path : Bytes) (j : Bytes) (other : j ≢ path)
    (other_tmp : j ≢ tmp_of path) where
  renamed_plain-lookup :
      (r : Bool × Dict Bytes) → lookup j (renamed_plain F os path r).1 ≡ lookup j r.1
  renamed_plain-lookup (true, files) = refl
  renamed_plain-lookup (false, files) = lookup-remove_file os j (tmp_of path) files other_tmp

  written_plain-lookup :
      (r : Bool × Dict Bytes) → lookup j (written_plain F os path r).1 ≡ lookup j r.1
  written_plain-lookup (false, files) = refl
  written_plain-lookup (true, files) =
      renamed_plain-lookup (rename_file os (tmp_of path) path (remove_file os path files))
      ∙ lookup-rename_file_other os j (tmp_of path) path (remove_file os path files) other_tmp other
      ∙ lookup-remove_file os j path files other

  put_plain-lookup :
      (o : Option Bytes) (files : Dict Bytes)
      → lookup j (put_plain F os path o files).1 ≡ lookup j files
  put_plain-lookup none files = refl
  put_plain-lookup (some b) files =
      written_plain-lookup (write_file os (tmp_of path) b (remove_file os (tmp_of path) files))
      ∙ lookup-write_file os j (tmp_of path) b (remove_file os (tmp_of path) files) other_tmp
      ∙ lookup-remove_file os j (tmp_of path) files other_tmp

  save_devices_to_disk-lookup :
      (ds : List DeviceConfig) (files : Dict Bytes)
      → lookup j (save_devices_to_disk F os path ds files).1 ≡ lookup j files
  unfolding save_devices_to_disk
  save_devices_to_disk-lookup ds files = flags (path =? []) (not (dir_ready os (os.dir path)))
    where
      flags :
          (a b : Bool)
          → lookup j
              (if a
                then (err StoreError.save_failed, files)
                else if b
                then (err StoreError.save_failed, files)
                else put_plain F os path (F.marshal_devices ds) files).1
            ≡ lookup j files
      flags true b = refl
      flags false true = refl
      flags false false = put_plain-lookup (F.marshal_devices ds) files

module _ (F : WindowsFormats) (os : Os) (path : Bytes) where
  load_first-ok :
      (r : Result StoreError (Dict DeviceState)) (m : Dict DeviceState) (files : Dict Bytes)
      → r ≡ ok m
      → load_first F os path r files ≡ (ok m, files)
  load_first-ok (ok m') m files e = ap (λ x. (x, files)) e
  load_first-ok (err store_not_paired) m files e = cc
  load_first-ok (err StoreError.store_unavailable) m files e = cc
  load_first-ok (err StoreError.save_failed) m files e = cc
  load_first-ok (err (StoreError.bad_entry x)) m files e = cc
  load_first-ok (err StoreError.no_device_id) m files e = cc
  load_first-ok (err StoreError.bad_device_key) m files e = cc
  load_first-ok (err StoreError.wrong_device_key_size) m files e = cc

  load_devices_from_dpapi_file-lookup :
      (p : Bytes) (a b : Dict Bytes)
      → lookup p a ≡ lookup p b
      → load_devices_from_dpapi_file F os p a ≡ load_devices_from_dpapi_file F os p b
  unfolding load_devices_from_dpapi_file
  load_devices_from_dpapi_file-lookup p a b e = ap (dpapi_read F) (read_file-lookup os p a b e)

  load_devices_from_disk-dpapi :
      (m : Dict DeviceState) (files : Dict Bytes)
      → load_devices_from_dpapi_file F os (prefer_dpapi_path F path) files ≡ ok m
      → load_devices_from_disk F os path files ≡ (ok m, files)
  unfolding load_devices_from_disk
  load_devices_from_disk-dpapi m files e =
      load_first-ok (load_devices_from_dpapi_file F os (prefer_dpapi_path F path) files) m files e

  -- The protected file has a name of its own.
  module _ (apart : prefer_dpapi_path F path ≢ path)
      (apart_tmp : prefer_dpapi_path F path ≢ tmp_of path) (m : Dict DeviceState) where
    saved-load :
        (ds : List DeviceConfig) (files : Dict Bytes)
        → load_devices_from_dpapi_file F os (prefer_dpapi_path F path) files ≡ ok m
        → (load_devices_from_disk F os path (save_devices_to_disk F os path ds files).1).0 ≡ ok m
    saved-load ds files loads =
        let prefer = prefer_dpapi_path F path in
        let after = (save_devices_to_disk F os path ds files).1 in
        ap (λ r. r.0)
          (load_devices_from_disk-dpapi m after (
            load_devices_from_dpapi_file-lookup prefer after files
              (save_devices_to_disk-lookup F os path prefer apart apart_tmp ds files)
            ∙ loads))

    write_key-load :
        (id : Bytes) (r : Result StoreError Bytes) (files : Dict Bytes)
        → load_devices_from_dpapi_file F os (prefer_dpapi_path F path) files ≡ ok m
        → (load_devices_from_disk F os path (write_key (windows_store F os path) id r files).1).0
          ≡ ok m
    write_key-load id (err e) files loads =
        ap (λ r. r.0) (load_devices_from_disk-dpapi m files loads)
    write_key-load id (ok k) files loads =
        rw (load_devices_from_disk-dpapi m files loads) (saved-load _ files loads)

    -- Where the protected file gives devices, registering another one changes nothing of what is
    -- loaded, also where the registration succeeds: it is saved to a file that is not looked at.
    pub write_devices_file_ignored :
        (id key_hex : Bytes) (files : Dict Bytes)
        → load_devices_from_dpapi_file F os (prefer_dpapi_path F path) files ≡ ok m
        → (load_devices_from_disk F os path
            (write_devices_file (windows_store F os path) id key_hex files).1).0
          ≡ ok m
    unfolding write_devices_file
    write_devices_file_ignored id key_hex files loads =
        write_key-load id (checked_key id key_hex) files loads

  load_first_unpaired :
      (r : Result StoreError (Dict DeviceState)) (m : Dict DeviceState) (files : Dict Bytes)
      → r ≡ err store_not_paired
      → load_devices_from_plain_json F os (plain_path F path) files ≡ ok m
      → load_first F os path r files ≡ migrate_plain F os path (ok m) store_not_paired files
  load_first_unpaired (ok m') m files e l = cc
  load_first_unpaired (err store_not_paired) m files e l =
      ap (λ x. migrate_plain F os path x store_not_paired files) l
  load_first_unpaired (err StoreError.store_unavailable) m files e l = cc
  load_first_unpaired (err StoreError.save_failed) m files e l = cc
  load_first_unpaired (err (StoreError.bad_entry x)) m files e l = cc
  load_first_unpaired (err StoreError.no_device_id) m files e l = cc
  load_first_unpaired (err StoreError.bad_device_key) m files e l = cc
  load_first_unpaired (err StoreError.wrong_device_key_size) m files e l = cc

  -- Where there is no protected file and the plain one cannot be protected, a load removes the plain
  -- file all the same and reports that nothing is paired.
  pub load_devices_from_disk_loses :
      (m : Dict DeviceState) (files : Dict Bytes)
      → load_devices_from_dpapi_file F os (prefer_dpapi_path F path) files ≡ err store_not_paired
      → load_devices_from_plain_json F os (plain_path F path) files ≡ ok m
      → write_devices_dpapi_file F os (prefer_dpapi_path F path) m files ≡ (false, files)
      → os.removes (plain_path F path) ≡ true
      → prefer_dpapi_path F path ≢ plain_path F path
      → ((load_devices_from_disk F os path files).0 ≡ err store_not_paired)
        × (lookup (plain_path F path) (load_devices_from_disk F os path files).1 ≡ none)
  unfolding load_devices_from_disk
  load_devices_from_disk_loses m files unpaired plain fails removes apart =
      let prefer = prefer_dpapi_path F path in
      let gone = remove_file os (plain_path F path) files in
      let moved =
        load_first_unpaired (load_devices_from_dpapi_file F os prefer files) m files unpaired plain
        ∙ ap
            (λ w. (
              load_devices_from_dpapi_file F os prefer (remove_file os (plain_path F path) w.1),
              remove_file os (plain_path F path) w.1,
            ))
            fails in
      (
        ap (λ r. r.0) moved
            ∙ load_devices_from_dpapi_file-lookup prefer gone files
                (lookup-remove_file os prefer (plain_path F path) files apart)
            ∙ unpaired,
        ap (λ r. lookup (plain_path F path) r.1) moved
            ∙ lookup-remove_file_self os (plain_path F path) files removes,
      )
