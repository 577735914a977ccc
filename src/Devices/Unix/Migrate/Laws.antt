-- ===== src/Devices/Unix/Migrate/Laws.antt =====
-- A migration keeps the devices, and a backup of the file as it was.
use mathlib.Core.Path.{subst}
use nova_key_daemon.Common.{
  ite, append-nil, ◌≡◌, ◌≢◌, refl, ap, sym, ◌∙◌, Bool, true, false, List, [], ◌∷◌, ◌++◌, Option,
  none, some, Bool-cases, inl, inr, arith, if◌then◌else◌, Bytes, bytes_dec, codes, length, drop,
  drop-append, Result, ok, err,
}
use nova_key_daemon.Common.Dict.{Dict, lookup}
use nova_key_daemon.Files.{FileError, read_file, dir_ready, tmp_of, atomic_write_0600}
use nova_key_daemon.Files.Laws.{lookup-write_file_self, atomic_write_0600-ok}
use nova_key_daemon.Message.Crypto.{Crypto, IsLawful}
use nova_key_daemon.Devices.{DeviceConfig}
use nova_key_daemon.Devices.Write.{StoreError, IsWritable, devices_of}
use nova_key_daemon.Devices.Unix.{
  DeviceFormats, Machine, Host, is_sealed, saved, put, put_marshalled, wrapper_of, seal_and_put,
  get_or_create_devices_key, load_devices_from_disk,
}
use nova_key_daemon.Devices.Unix.Faithful.{IsFaithful, IsHealthy}
use nova_key_daemon.Devices.Unix.Keyring.{Holds, get_or_create_devices_key-Holds}
use nova_key_daemon.Devices.Unix.Seal.{seal_and_put-load}
use nova_key_daemon.Devices.Unix.Migrate.{
  MigrateError, Migrated, migrated, already_sealed, backup_of, write_backup_0600, seal_marshalled,
  seal_and_write_0600, sealed_result, after_backup, after_key, migrate_plain,
  run_migrate_devices_store,
}

after : (n : Bytes) (a b : Bytes) → n ++ a ≡ n ++ b → a ≡ b
after n a b e =
    sym (drop-append (length n) n a refl) ∙ ap (drop (length n)) e ∙ drop-append (length n) n b refl

backup_of-ne-tmp_of : (path ts : Bytes) → backup_of path ts ≢ tmp_of path
backup_of-ne-tmp_of path ts e = ends (after path (codes ".bak." ++ ts) (codes ".tmp") e)
  where
    ends : codes ".bak." ++ ts ≢ codes ".tmp"
    ends x = cc

backup_of-ne : (path ts : Bytes) → backup_of path ts ≢ path
backup_of-ne path ts e = ends (after path (codes ".bak." ++ ts) [] (e ∙ sym (append_nil path)))
  where
    ends : codes ".bak." ++ ts ≢ []
    ends x = cc

    append_nil : (p : Bytes) → p ++ [] ≡ p
    append_nil p = append-nil p

module _ (F : DeviceFormats) (C : Crypto) (path ts : Bytes) (H : Host) where
  abbrev backup : Bytes
  backup = backup_of path ts

  saved-backup :
      (r : Result FileError (Unit {0}) × Dict Bytes) (M : Machine)
      → (r.0 ≡ ok tt → lookup backup r.1 ≡ lookup backup M.files)
      → (saved F C true path r M).0 ≡ ok tt
      → lookup backup (saved F C true path r M).1.files ≡ lookup backup M.files
  saved-backup (ok u, files) M k h = k refl
  saved-backup (err x, files) M k h = cc

  put-backup :
      (out : Bytes) (M : Machine)
      → (put F C true path H out M).0 ≡ ok tt
      → lookup backup (put F C true path H out M).1.files ≡ lookup backup M.files
  put-backup out M h =
      saved-backup (atomic_write_0600 H.os path out M.files) M
        (λ w.
          atomic_write_0600-ok H.os path backup out M.files w
          ∙ other (bytes_dec backup path) (bytes_dec backup (tmp_of path)))
        h
    where
      other :
          (p : Dec (backup_of path ts ≡ path)) (q : Dec (backup_of path ts ≡ tmp_of path))
          → (if ite p true false
              then some out
              else if ite q true false
              then none
              else lookup (backup_of path ts) M.files)
            ≡ lookup (backup_of path ts) M.files
      other (yes e) q = absurd (backup_of-ne path ts e)
      other (no e) (yes d) = absurd (backup_of-ne-tmp_of path ts d)
      other (no e) (no d) = refl

  put_marshalled-backup :
      (o : Option Bytes) (M : Machine)
      → (put_marshalled F C true path H o M).0 ≡ ok tt
      → lookup backup (put_marshalled F C true path H o M).1.files ≡ lookup backup M.files
  put_marshalled-backup none M h = cc
  put_marshalled-backup (some out) M h = put-backup out M h

  seal-backup :
      (key pt : Bytes) (M : Machine)
      → (seal_and_put F C true path H pt (some key, M)).0 ≡ ok tt
      → lookup backup (seal_and_put F C true path H pt (some key, M)).1.files
        ≡ lookup backup M.files
  seal-backup key pt M h = elim (Bool-cases (C.new_x key)) [
    | inr x ↦ absurd (refused (rw x at h))
    | inl x ↦ rw x (
        put_marshalled-backup (F.marshal_sealed (wrapper_of F C true path key H.save_nonce pt)) M
          (rw x at h))
  ]
    where
      refused : ◌≡◌ {A = Result StoreError (Unit {0})} (err StoreError.save_failed) (ok tt) → ⊥
      refused x = cc

  sealed_result-migrated :
      (r : Result StoreError (Unit {0}) × Machine)
      → (sealed_result F C path ts H r).0 ≡ ok migrated
      → r.0 ≡ ok tt
  sealed_result-migrated (ok u, M) h = refl
  sealed_result-migrated (err e, M) h = cc

  sealed_result-machine :
      (r : Result StoreError (Unit {0}) × Machine) → (sealed_result F C path ts H r).1 ≡ r.1
  sealed_result-machine (ok u, M) = refl
  sealed_result-machine (err e, M) = refl

  write_backup_0600-there :
      (b : Bytes) (files : Dict Bytes)
      → (write_backup_0600 F C path ts H b files).0 ≡ true
      → lookup backup (write_backup_0600 F C path ts H b files).1 ≡ some b
  unfolding write_backup_0600
  write_backup_0600-there b files h = elim (Bool-cases (dir_ready H.os (H.os.dir path))) [
    | inr gone ↦ absurd (ground arith)
    | inl ready ↦ rw ready (lookup-write_file_self H.os backup b files (rw ready at h))
  ]

  module _ (valid : Bytes → Bool) (J : IsFaithful valid F) (L : IsLawful C) (K : Host)
      (ok_host : IsHealthy C path H K) (ds : List DeviceConfig) (w : IsWritable valid ds)
      (b : Bytes) where
    abbrev Kept : Machine → Type 0
    Kept M =
        ((load_devices_from_disk F C true path K M).0 ≡ devices_of ds)
        × (lookup backup M.files ≡ some b)

    seal_marshalled-Kept :
        (o : Option Bytes) (key : Bytes) (M : Machine)
        → F.marshal_devices ds ≡ o
        → Holds F M.item key
        → lookup backup M.files ≡ some b
        → (sealed_result F C path ts H (seal_marshalled F C path ts H key o M)).0 ≡ ok migrated
        → Kept (sealed_result F C path ts H (seal_marshalled F C path ts H key o M)).1
    seal_marshalled-Kept none key M e held there h = cc
    seal_marshalled-Kept (some pt) key M e held there h =
        let r = seal_and_put F C true path H pt (some key, M) in
        let done = sealed_result-migrated r h in
        rw (sealed_result-machine r) (
          seal_and_put-load F C true path valid J L H K ok_host (some key, M) pt ds
              (λ key' got. subst (Holds F M.item) (the_key key' got) held) w e done,
          seal-backup key pt M done ∙ there,
        )
      where
        the_key : (key' : Bytes) → some key ≡ some key' → key ≡ key'
        the_key key' x = cc

    after_backup-Kept :
        (key : Bytes) (r : Bool × Dict Bytes) (M : Machine)
        → Holds F M.item key
        → (r.0 ≡ true → lookup backup r.1 ≡ some b)
        → (after_backup F C path ts H ds key r M).0 ≡ ok migrated
        → Kept (after_backup F C path ts H ds key r M).1
    unfolding seal_and_write_0600
    after_backup-Kept key (false, files) M held there h = cc
    after_backup-Kept key (true, files) M held there h =
        seal_marshalled-Kept (F.marshal_devices ds) key (record M { files = files }) refl held
          (there refl) h

    after_key-Kept :
        (r : Option Bytes × Machine)
        → ((key : Bytes) → r.0 ≡ some key → Holds F r.1.item key)
        → (after_key F C path ts H b ds r).0 ≡ ok migrated
        → Kept (after_key F C path ts H b ds r).1
    after_key-Kept (none, M) held h = cc
    after_key-Kept (some key, M) held h =
        after_backup-Kept key (write_backup_0600 F C path ts H b M.files) M (held key refl)
          (write_backup_0600-there b M.files) h

    migrate_plain-Kept :
        (es : List DeviceConfig) (M : Machine)
        → es ≡ ds
        → (migrate_plain F C path ts H b (some es) M).0 ≡ ok migrated
        → Kept (migrate_plain F C path ts H b (some es) M).1
    migrate_plain-Kept [] M e h = cc
    migrate_plain-Kept (d ∷ es) M e h =
        subst
          (λ l.
            (after_key F C path ts H b l (get_or_create_devices_key F H H.save_key M)).0
              ≡ ok migrated
            → Kept (after_key F C path ts H b l (get_or_create_devices_key F H H.save_key M)).1)
          (sym e)
          (after_key-Kept (get_or_create_devices_key F H H.save_key M) (λ key got.
            get_or_create_devices_key-Holds F H H.save_key M key J.base64 ok_host.key_sized got))
          h

    -- A migration that is done leaves a sealed store with the devices of the plain file, also where
    -- sealing is required from then on, and the plain file as a backup.
    pub run_migrate_devices_store-Kept :
        (M : Machine)
        → read_file H.os M.files path ≡ ok b
        → F.unmarshal_devices b ≡ some ds
        → (run_migrate_devices_store F C path ts H M).0 ≡ ok migrated
        → ((load_devices_from_disk F C true path K (run_migrate_devices_store F C path ts H M).1).0
            ≡ devices_of ds)
          × (lookup (backup_of path ts) (run_migrate_devices_store F C path ts H M).1.files
              ≡ some b)
    unfolding run_migrate_devices_store
    run_migrate_devices_store-Kept M there parsed h =
        elim (Bool-cases (is_sealed F C true path (F.unmarshal_sealed b))) [
          | inl s ↦ absurd (nothing_done (rw (there, s) at h))
          | inr s ↦
              rw (there, s, parsed) (migrate_plain-Kept ds M refl (rw (there, s, parsed) at h))
        ]
      where
        nothing_done : ◌≡◌ {A = Result MigrateError Migrated} (ok already_sealed) (ok migrated) → ⊥
        nothing_done x = cc
