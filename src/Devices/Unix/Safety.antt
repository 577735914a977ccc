-- ===== src/Devices/Unix/Safety.antt =====
-- What a save that fails leaves, what a save may write, and what becomes of the key.
use nova_key_daemon.Common.{
  ◌≡◌, refl, ap, ◌∙◌, Bool, true, false, not, List, Option, none, some, Bool-cases, inl, inr, arith,
  if◌then◌else◌, Bytes, Result, ok, err,
}
use nova_key_daemon.Common.Dict.{Dict, lookup}
use nova_key_daemon.Files.{
  ReadError, not_exist, unreadable, FileError, read_file, atomic_write_0600,
}
use nova_key_daemon.Files.Laws.{tmp_of-ne, atomic_write_0600_failed}
use nova_key_daemon.Message.Crypto.{Crypto}
use nova_key_daemon.Message.Outer.{DeviceState}
use nova_key_daemon.Devices.{DeviceConfig}
use nova_key_daemon.Devices.Write.{
  StoreError, store_unavailable, save_failed, existing, checked_key, upsert, write_key,
  write_devices_file,
}
use nova_key_daemon.Devices.Unix.{
  DeviceFormats, Machine, Host, SealedDevicesFileV1, keyring_get, key_or_new, saved, put,
  put_marshalled, wrapper_of, seal_and_put, save_marshalled, get_or_create_devices_key, is_sealed,
  load_wrapper, load_read, load_with_key, load_devices_from_sealed_wrapper, load_devices_from_disk,
  save_devices_to_disk, unix_store,
}

module _ (F : DeviceFormats) (C : Crypto) (sealed : Bool) (path : Bytes) (H : Host) where
  saved_failed :
      (r : Result FileError (Unit {0}) × Dict Bytes) (M : Machine) (e : StoreError)
      → ((x : FileError) → r.0 ≡ err x → lookup path r.1 ≡ lookup path M.files)
      → (saved F C sealed path r M).0 ≡ err e
      → lookup path (saved F C sealed path r M).1.files ≡ lookup path M.files
  saved_failed (ok u, files) M e k h = cc
  saved_failed (err x, files) M e k h = k x refl

  put_failed :
      (out : Bytes) (M : Machine) (e : StoreError)
      → (put F C sealed path H out M).0 ≡ err e
      → lookup path (put F C sealed path H out M).1.files ≡ lookup path M.files
  put_failed out M e h =
      saved_failed (atomic_write_0600 H.os path out M.files) M e
        (λ x f. atomic_write_0600_failed H.os path path out M.files x (tmp_of-ne path) f) h

  put_marshalled_failed :
      (o : Option Bytes) (M : Machine) (e : StoreError)
      → (put_marshalled F C sealed path H o M).0 ≡ err e
      → lookup path (put_marshalled F C sealed path H o M).1.files ≡ lookup path M.files
  put_marshalled_failed none M e h = refl
  put_marshalled_failed (some out) M e h = put_failed out M e h

  seal_and_put_failed :
      (pt : Bytes) (r : Option Bytes × Machine) (e : StoreError)
      → (seal_and_put F C sealed path H pt r).0 ≡ err e
      → lookup path (seal_and_put F C sealed path H pt r).1.files ≡ lookup path r.1.files
  seal_and_put_failed pt (none, M) e h =
      by_flag sealed (put F C sealed path H pt M) (put_failed pt M e) h
    where
      by_flag :
          (b : Bool) (r : Result StoreError (Unit {0}) × Machine)
          → (r.0 ≡ err e → lookup path r.1.files ≡ lookup path M.files)
          → (if b then (err store_unavailable, M) else r).0 ≡ err e
          → lookup path (if b then (err store_unavailable, M) else r).1.files ≡ lookup path M.files
      by_flag true r k h = refl
      by_flag false r k h = k h
  seal_and_put_failed pt (some key, M) e h =
      by_key (C.new_x key) (F.marshal_sealed (wrapper_of F C sealed path key H.save_nonce pt)) h
    where
      by_key :
          (b : Bool) (o : Option Bytes)
          → (if not b then (err save_failed, M) else put_marshalled F C sealed path H o M).0 ≡ err e
          → lookup path
              (if not b then (err save_failed, M) else put_marshalled F C sealed path H o M).1.files
            ≡ lookup path M.files
      by_key true o h = put_marshalled_failed o M e h
      by_key false o h = refl

  -- The key is no file.
  key_or_new-files :
      (drawn : Bytes) (o : Option Bytes) (M : Machine)
      → (key_or_new F H drawn o M).1.files ≡ M.files
  key_or_new-files drawn (some s) M = refl
  key_or_new-files drawn none M = ground arith

  get_or_create_devices_key-files :
      (drawn : Bytes) (M : Machine) → (get_or_create_devices_key F H drawn M).1.files ≡ M.files
  unfolding get_or_create_devices_key
  get_or_create_devices_key-files drawn M = key_or_new-files drawn (keyring_get H M.item) M

  save_marshalled_failed :
      (o : Option Bytes) (M : Machine) (e : StoreError)
      → (save_marshalled F C sealed path H o M).0 ≡ err e
      → lookup path (save_marshalled F C sealed path H o M).1.files ≡ lookup path M.files
  save_marshalled_failed none M e h = refl
  save_marshalled_failed (some pt) M e h =
      seal_and_put_failed pt (get_or_create_devices_key F H H.save_key M) e h
      ∙ ap (lookup path) (get_or_create_devices_key-files H.save_key M)

  save_devices_to_disk_failed :
      (ds : List DeviceConfig) (M : Machine) (e : StoreError)
      → (save_devices_to_disk F C sealed path H ds M).0 ≡ err e
      → lookup path (save_devices_to_disk F C sealed path H ds M).1.files ≡ lookup path M.files
  unfolding save_devices_to_disk
  save_devices_to_disk_failed ds M e h = save_marshalled_failed (F.marshal_devices ds) M e h

  load_with_key-files :
      (wrap : SealedDevicesFileV1) (r : Option Bytes × Machine)
      → (load_with_key F C sealed path wrap r).1.files ≡ r.1.files
  load_with_key-files wrap (none, M) = refl
  load_with_key-files wrap (some key, M) = refl

  load_sealed-files :
      (wrap : SealedDevicesFileV1) (M : Machine)
      → (load_devices_from_sealed_wrapper F C sealed path H wrap M).1.files ≡ M.files
  unfolding load_devices_from_sealed_wrapper
  load_sealed-files wrap M =
      load_with_key-files wrap (get_or_create_devices_key F H H.load_key M)
      ∙ get_or_create_devices_key-files H.load_key M

  load_read-files :
      (r : Result ReadError Bytes) (M : Machine)
      → (load_read F C sealed path H r M).1.files ≡ M.files
  load_read-files (err not_exist) M = refl
  load_read-files (err unreadable) M = refl
  load_read-files (ok b) M = by_wrapper (F.unmarshal_sealed b)
    where
      by_wrapper :
          (o : Option SealedDevicesFileV1)
          → (load_wrapper F C sealed path H b o M).1.files ≡ M.files
      by_wrapper none = refl
      by_wrapper (some wrap) = elim (Bool-cases (is_sealed F C sealed path (some wrap))) [
        | inl s ↦ rw s (load_sealed-files wrap M)
        | inr s ↦ rw s refl
      ]

  load_devices_from_disk-files :
      (M : Machine) → (load_devices_from_disk F C sealed path H M).1.files ≡ M.files
  unfolding load_devices_from_disk
  load_devices_from_disk-files M = load_read-files (read_file H.os M.files path) M

  -- A registration that fails, at whatever step, leaves the devices file as it was.
  pub write_devices_file_failed :
      (id key_hex : Bytes) (M : Machine) (e : StoreError)
      → (write_devices_file (unix_store F C sealed path H) id key_hex M).0 ≡ err e
      → lookup path (write_devices_file (unix_store F C sealed path H) id key_hex M).1.files
        ≡ lookup path M.files
  unfolding write_devices_file
  write_devices_file_failed id key_hex M e h = by_key (checked_key id key_hex) h
    where
      by_loaded :
          (k : Bytes) (r : Result StoreError (Dict DeviceState)) (N : Machine)
          → (upsert (unix_store F C sealed path H) id k r N).0 ≡ err e
          → lookup path (upsert (unix_store F C sealed path H) id k r N).1.files
            ≡ lookup path N.files
      by_loaded k (err x) N h = refl
      by_loaded k (ok m) N h = save_devices_to_disk_failed _ N e h

      by_key :
          (r : Result StoreError Bytes)
          → (write_key (unix_store F C sealed path H) id r M).0 ≡ err e
          → lookup path (write_key (unix_store F C sealed path H) id r M).1.files
            ≡ lookup path M.files
      by_key (err x) h = refl
      by_key (ok k) h =
          by_loaded k (existing (load_devices_from_disk F C sealed path H M).0)
            (load_devices_from_disk F C sealed path H M).1 h
          ∙ ap (lookup path) (load_devices_from_disk-files M)
