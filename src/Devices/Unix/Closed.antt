-- ===== src/Devices/Unix/Closed.antt =====
-- With `require_sealed_device_store` nothing is written but sealed text.
use nova_key_daemon.Common.{
  ◌≡◌, refl, ◌∙◌, Bool, true, List, Option, none, some, Bool-cases, inl, inr, =?_refl, Bytes,
  Result, ok, err,
}
use nova_key_daemon.Common.Dict.{Dict, lookup}
use nova_key_daemon.Files.{FileError, atomic_write_0600}
use nova_key_daemon.Files.Laws.{atomic_write_0600-ok}
use nova_key_daemon.Message.Crypto.{Crypto}
use nova_key_daemon.Devices.{DeviceConfig}
use nova_key_daemon.Devices.Write.{StoreError, save_failed}
use nova_key_daemon.Devices.Unix.{
  DeviceFormats, Machine, Host, saved, put, put_marshalled, wrapper_of, seal_and_put,
  save_marshalled, get_or_create_devices_key, save_devices_to_disk,
}

module _ (F : DeviceFormats) (C : Crypto) (path : Bytes) where
  -- The file holds the devices sealed under the key that was got.
  pub record IsSealedFile (sealed : Bool) (H : Host) (ds : List DeviceConfig) (M : Machine)
      (files : Dict Bytes) : Type 0 where
    pub pt : Bytes
    pub key : Bytes
    pub out : Bytes
    pub marshalled : F.marshal_devices ds ≡ some pt
    pub got : (get_or_create_devices_key F H H.save_key M).0 ≡ some key
    pub wrapped : F.marshal_sealed (wrapper_of F C sealed path key H.save_nonce pt) ≡ some out
    pub there : lookup path files ≡ some out

  module _ (H : Host) where
    saved-there :
        (out : Bytes) (r : Result FileError (Unit {0}) × Dict Bytes) (M : Machine)
        → (r.0 ≡ ok tt → lookup path r.1 ≡ some out)
        → (saved F C true path r M).0 ≡ ok tt
        → lookup path (saved F C true path r M).1.files ≡ some out
    saved-there out (ok u, files) M k h = k refl
    saved-there out (err x, files) M k h = cc

    put-there :
        (out : Bytes) (M : Machine)
        → (put F C true path H out M).0 ≡ ok tt
        → lookup path (put F C true path H out M).1.files ≡ some out
    put-there out M h =
        saved-there out (atomic_write_0600 H.os path out M.files) M
          (λ w. atomic_write_0600-ok H.os path path out M.files w ∙ rw (=?_refl path) refl) h

    put_marshalled-there :
        (o : Option Bytes) (M : Machine)
        → (put_marshalled F C true path H o M).0 ≡ ok tt
        → (out : Bytes) × (o ≡ some out)
          × (lookup path (put_marshalled F C true path H o M).1.files ≡ some out)
    put_marshalled-there none M h = cc
    put_marshalled-there (some out) M h = (out, refl, put-there out M h)

    seal_and_put-there :
        (pt : Bytes) (r : Option Bytes × Machine)
        → (seal_and_put F C true path H pt r).0 ≡ ok tt
        → (key : Bytes) × (out : Bytes) × (r.0 ≡ some key)
          × (F.marshal_sealed (wrapper_of F C true path key H.save_nonce pt) ≡ some out)
          × (lookup path (seal_and_put F C true path H pt r).1.files ≡ some out)
    seal_and_put-there pt (none, M) h = cc
    seal_and_put-there pt (some key, M) h = elim (Bool-cases (C.new_x key)) [
      | inr x ↦ absurd (refused (rw x at h))
      | inl x ↦
          let r =
            put_marshalled-there (F.marshal_sealed (wrapper_of F C true path key H.save_nonce pt)) M
              (rw x at h) in
          (key, r.0, refl, r.1, rw x r.2)
    ]
      where
        refused : ◌≡◌ {A = Result StoreError (Unit {0})} (err save_failed) (ok tt) → ⊥
        refused x = cc

    save_marshalled-there :
        (o : Option Bytes) (ds : List DeviceConfig) (M : Machine)
        → F.marshal_devices ds ≡ o
        → (save_marshalled F C true path H o M).0 ≡ ok tt
        → IsSealedFile true H ds M (save_marshalled F C true path H o M).1.files
    save_marshalled-there none ds M e h = cc
    save_marshalled-there (some pt) ds M e h =
        let r = seal_and_put-there pt (get_or_create_devices_key F H H.save_key M) h in
        record {
          pt = pt;
          key = r.0;
          out = r.1;
          marshalled = e;
          got = r.2;
          wrapped = r.3;
          there = r.4;
        }

    -- Where sealing is required, a save that succeeds leaves the devices sealed under the keyring's
    -- key, never in plain text.
    pub save_devices_to_disk-IsSealedFile :
        (ds : List DeviceConfig) (M : Machine)
        → (save_devices_to_disk F C true path H ds M).0 ≡ ok tt
        → IsSealedFile true H ds M (save_devices_to_disk F C true path H ds M).1.files
    unfolding save_devices_to_disk
    save_devices_to_disk-IsSealedFile ds M h =
        save_marshalled-there (F.marshal_devices ds) ds M refl h
