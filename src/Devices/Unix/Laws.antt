-- ===== src/Devices/Unix/Laws.antt =====
-- The sealed store keeps what the interface promises, and what happens where it fails.
use nova_key_daemon.Common.{
  ◌≡◌, refl, ap, sym, ◌∙◌, Bool, true, List, [], ◌∷◌, Option, none, some, Bool-cases, inl, inr,
  if◌then◌else◌, Bytes, Result, ok, err, All,
}
use nova_key_daemon.Common.Dict.{Dict}
use nova_key_daemon.Files.{ReadError, not_exist, unreadable, read_file}
use nova_key_daemon.Message.Crypto as Crypto_
use nova_key_daemon.Message.Crypto.{Crypto}
use nova_key_daemon.Message.Outer.{DeviceState}
use nova_key_daemon.Devices.{DeviceConfig, DevicesError, build_devices_map}
use nova_key_daemon.Devices.Map.{IsWellFormed, build_devices_map-IsWellFormed}
use nova_key_daemon.Devices.Write.{StoreError, store_unavailable, IsLawful, map_result, devices_of}
use nova_key_daemon.Devices.Unix.{
  DeviceFormats, Machine, Host, SealedDevicesFileV1, get_or_create_devices_key, open_sealed,
  load_opened, parsed, is_sealed, load_plain, load_wrapper, load_read, load_with_key,
  load_devices_from_sealed_wrapper, load_devices_from_disk, unix_store,
}
use nova_key_daemon.Devices.Unix.Faithful.{IsFaithful, IsHealthy}
use nova_key_daemon.Devices.Unix.Seal.{save_devices_to_disk-load}

map_result-ok :
    (r : Result DevicesError (Dict DeviceState)) (m : Dict DeviceState)
    → map_result r ≡ ok m
    → r ≡ ok m
map_result-ok (ok m') m h = ap ok (cc)
map_result-ok (err DevicesError.not_paired) m h = cc
map_result-ok (err DevicesError.empty_id) m h = cc
map_result-ok (err DevicesError.invalid_key_hex) m h = cc
map_result-ok (err DevicesError.wrong_key_size) m h = cc

devices_of-IsWellFormed :
    (valid : Bytes → Bool) (ds : List DeviceConfig) (m : Dict DeviceState)
    → All (λ d. valid d.id ≡ true) ds
    → devices_of ds ≡ ok m
    → IsWellFormed valid m
unfolding devices_of
devices_of-IsWellFormed valid [] m v h = cc
devices_of-IsWellFormed valid (d ∷ ds) m v h =
    build_devices_map-IsWellFormed valid (d ∷ ds) m v
      (map_result-ok (build_devices_map (d ∷ ds)) m h)

module _ (F : DeviceFormats) (C : Crypto) (sealed : Bool) (path : Bytes) where
  module _ (valid : Bytes → Bool) (J : IsFaithful valid F) (m : Dict DeviceState) where
    parsed-IsWellFormed :
        (b : Bytes) (o : Option (List DeviceConfig))
        → F.unmarshal_devices b ≡ o
        → parsed F C sealed path o ≡ ok m
        → IsWellFormed valid m
    parsed-IsWellFormed b none e h = cc
    parsed-IsWellFormed b (some ds) e h =
        devices_of-IsWellFormed valid ds m (J.unmarshal_valid b ds e) h

    load_opened-IsWellFormed :
        (r : Result StoreError Bytes) → load_opened F C sealed path r ≡ ok m → IsWellFormed valid m
    load_opened-IsWellFormed (err e) h = cc
    load_opened-IsWellFormed (ok pt) h = parsed-IsWellFormed pt (F.unmarshal_devices pt) refl h

    load_with_key-IsWellFormed :
        (wrap : SealedDevicesFileV1) (r : Option Bytes × Machine)
        → (load_with_key F C sealed path wrap r).0 ≡ ok m
        → IsWellFormed valid m
    load_with_key-IsWellFormed wrap (none, M) h = cc
    load_with_key-IsWellFormed wrap (some key, M) h =
        load_opened-IsWellFormed (open_sealed F C sealed path key wrap) h

    load_plain-IsWellFormed :
        (b : Bytes) → load_plain F C sealed path b ≡ ok m → IsWellFormed valid m
    load_plain-IsWellFormed b h = elim (Bool-cases sealed) [
      | inl s ↦ absurd (closed (rw s at h))
      | inr s ↦ parsed-IsWellFormed b (F.unmarshal_devices b) refl (
          sym (
            ap
              (λ x.
                if x then err store_unavailable else parsed F C sealed path (F.unmarshal_devices b))
              s)
          ∙ h)
    ]
      where
        closed : ◌≡◌ {A = Result StoreError (Dict DeviceState)} (err store_unavailable) (ok m) → ⊥
        closed x = cc

    load_wrapper-IsWellFormed :
        (H : Host) (b : Bytes) (o : Option SealedDevicesFileV1) (M : Machine)
        → (load_wrapper F C sealed path H b o M).0 ≡ ok m
        → IsWellFormed valid m
    unfolding load_devices_from_sealed_wrapper
    load_wrapper-IsWellFormed H b none M h = load_plain-IsWellFormed b h
    load_wrapper-IsWellFormed H b (some wrap) M h =
        elim (Bool-cases (is_sealed F C sealed path (some wrap))) [
          | inl s ↦
              load_with_key-IsWellFormed wrap (get_or_create_devices_key F H H.load_key M)
                (rw s at h)
          | inr s ↦ load_plain-IsWellFormed b (rw s at h)
        ]

    load_read-IsWellFormed :
        (H : Host) (r : Result ReadError Bytes) (M : Machine)
        → (load_read F C sealed path H r M).0 ≡ ok m
        → IsWellFormed valid m
    load_read-IsWellFormed H (err not_exist) M h = cc
    load_read-IsWellFormed H (err unreadable) M h = cc
    load_read-IsWellFormed H (ok b) M h = load_wrapper-IsWellFormed H b (F.unmarshal_sealed b) M h

  -- The sealed store is lawful on machines that work.
  pub unix_store-IsLawful :
      (valid : Bytes → Bool) (H K : Host)
      → IsFaithful valid F
      → Crypto_.IsLawful C
      → IsHealthy C path H K
      → IsLawful valid (unix_store F C sealed path H) (unix_store F C sealed path K)
  unfolding load_devices_from_disk
  unix_store-IsLawful valid H K J L ok_host = record {
    load-IsWellFormed =
        λ M {m} h. load_read-IsWellFormed valid J m H (read_file H.os M.files path) M h;
    load-save =
        λ ds M n w h. save_devices_to_disk-load F C sealed path valid J L H K ok_host ds M w h;
  }
