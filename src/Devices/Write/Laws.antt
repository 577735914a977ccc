-- ===== src/Devices/Write/Laws.antt =====
-- Writing a device updates the map that the store stands for.
use mathlib.Core.Path.{subst}
use nova_key_daemon.Common.{
  ◌<◌, List, Bool-cases, ==_iff, ◌≡◌, ◌≢◌, refl, ap, ◌∙◌, Bool, true, [], ◌∷◌, Option, none, some,
  inl, inr, arith, if◌then◌else◌, ◌=?◌, ◌==◌, Bytes, bytes_dec, length, Result, ok, err, All,
}
use nova_key_daemon.Common.Dict.{Dict, lookup, insert, lookup-insert}
use nova_key_daemon.Common.Hex
use nova_key_daemon.Message.Outer.{DeviceState}
use nova_key_daemon.Devices.{DeviceConfig, build_devices_map}
use nova_key_daemon.Devices.Map.{
  IsWellFormed, IsEntry, Entries, entries_of, insert-IsWellFormed, build_devices_map-entries_of,
}
use nova_key_daemon.Devices.Write.{
  StoreError, DeviceStore, IsLawful, IsWritable, store_not_paired, map_result, devices_of, existing,
  checked_key, sized_key, reloaded, reload_devices_from_disk, write_devices_file,
}

module _ (valid : Bytes → Bool) where
  entries_of-IsWritable : (m : Dict DeviceState) → Entries valid m → IsWritable valid (entries_of m)
  unfolding entries_of
  entries_of-IsWritable [] e = tt
  entries_of-IsWritable ((k, st) ∷ m) (e, es) = (
    (subst (λ i. valid i ≡ true) e.keyed e.readable, Hex.is_ascii-encode st.static_key e.bytes),
    entries_of-IsWritable m es,
  )

  entries_of-ne_nil : (m : Dict DeviceState) → m ≢ [] → entries_of m ≢ []
  unfolding entries_of
  entries_of-ne_nil [] h = absurd (h refl)
  entries_of-ne_nil (e ∷ m) h = λ e. cc

  insert-ne_nil : (k : Bytes) (st : DeviceState) (m : Dict DeviceState) → insert k st m ≢ []
  unfolding insert
  insert-ne_nil k st [] e = cc
  insert-ne_nil k st ((j, w) ∷ m) e = ground arith

  devices_of-ne_nil :
      (ds : List DeviceConfig) → ds ≢ [] → devices_of ds ≡ map_result (build_devices_map ds)
  unfolding devices_of
  devices_of-ne_nil [] h = absurd (h refl)
  devices_of-ne_nil (d ∷ ds) h = refl

  -- A well-formed map is what its entries stand for.
  devices_of-entries_of :
      (m : Dict DeviceState)
      → IsWellFormed valid m
      → m ≢ []
      → (out : Dict DeviceState) × (devices_of (entries_of m) ≡ ok out)
        × ((j : Bytes) → lookup j out ≡ lookup j m)
  devices_of-entries_of m w h =
      let built = build_devices_map-entries_of valid m w h in
      (
        built.0,
        devices_of-ne_nil (entries_of m) (entries_of-ne_nil m h) ∙ ap map_result built.1,
        built.2,
      )

  existing-IsWellFormed :
      (r : Result StoreError (Dict DeviceState)) (m : Dict DeviceState)
      → ((m' : Dict DeviceState) → r ≡ ok m' → IsWellFormed valid m')
      → existing r ≡ ok m
      → IsWellFormed valid m
  existing-IsWellFormed (ok m') m h e = subst (IsWellFormed valid) (cc) (h m' refl)
  existing-IsWellFormed (err store_not_paired) m h e =
      subst (IsWellFormed valid) (empty_map e) (tt, tt)
    where
      empty_map : existing (err store_not_paired) ≡ ok m → [] ≡ m
      empty_map x = cc
  existing-IsWellFormed (err StoreError.store_unavailable) m h e = cc
  existing-IsWellFormed (err StoreError.save_failed) m h e = cc
  existing-IsWellFormed (err (StoreError.bad_entry x)) m h e = cc
  existing-IsWellFormed (err StoreError.no_device_id) m h e = cc
  existing-IsWellFormed (err StoreError.bad_device_key) m h e = cc
  existing-IsWellFormed (err StoreError.wrong_device_key_size) m h e = cc

  sized_key-IsEntry :
      (id : Bytes) (o : Option Bytes) (k : Bytes)
      → valid id ≡ true
      → id ≢ []
      → ((k' : Bytes) → o ≡ some k' → All (λ c. c < 256) k')
      → sized_key o ≡ ok k
      → IsEntry valid id (record { id = id; static_key = k })
  sized_key-IsEntry id none k v n b h = cc
  sized_key-IsEntry id (some k') k v n b h = elim (Bool-cases (length k' == 32)) [
    | inr e ↦ absurd (wrong_size (rw e at h))
    | inl e ↦
        subst (λ x. IsEntry valid id (record { id = id; static_key = x })) (same_key (rw e at h))
          record {
            keyed = refl;
            named = n;
            sized = (==_iff (length k') 32).0 e;
            bytes = b k' refl;
            readable = v;
          }
  ]
    where
      wrong_size :
          ◌≡◌ {A = Result StoreError Bytes} (err StoreError.wrong_device_key_size) (ok k) → ⊥
      wrong_size x = cc

      same_key : ◌≡◌ {A = Result StoreError Bytes} (ok k') (ok k) → k' ≡ k
      same_key x = cc

  checked_key-IsEntry :
      (id key_hex k : Bytes)
      → valid id ≡ true
      → checked_key id key_hex ≡ ok k
      → IsEntry valid id (record { id = id; static_key = k })
  unfolding checked_key
  checked_key-IsEntry id key_hex k v h = elim (bytes_dec id []) [
    | yes e ↦ absurd (ground arith)
    | no n ↦ sized_key-IsEntry id (Hex.decode key_hex) k v n (Hex.decode-All key_hex) (ground arith)
  ]

  module _ {S : Type 0} (now later : DeviceStore S) (L : IsLawful valid now later) where
    -- After a device is written, a later load gives the map as it was before, with that device's key
    -- set and every other device as it was.
    pub write_devices_file-load :
        (id key_hex k : Bytes) (m : Dict DeviceState) (s : S)
        → valid id ≡ true
        → checked_key id key_hex ≡ ok k
        → existing (now.load s).0 ≡ ok m
        → (write_devices_file now id key_hex s).0 ≡ ok tt
        → (out : Dict DeviceState) × ((later.load (write_devices_file now id key_hex s).1).0
            ≡ ok out)
          × ((j : Bytes)
              → lookup j out
                ≡ (if j =? id then some (record { id = id; static_key = k }) else lookup j m))
    unfolding write_devices_file
    write_devices_file-load id key_hex k m s v hk hm h =
        let st : DeviceState = record { id = id; static_key = k } in
        let w =
          insert-IsWellFormed valid id st m (checked_key-IsEntry id key_hex k v hk)
            (existing-IsWellFormed (now.load s).0 m (λ m' e. L.load-IsWellFormed s e) hm) in
        let built = devices_of-entries_of (insert id st m) w (insert-ne_nil id st m) in
        let saved =
          L.load-save (entries_of (insert id st m)) (now.load s).1
            (entries_of-ne_nil (insert id st m) (insert-ne_nil id st m))
            (entries_of-IsWritable (insert id st m) w.0) in
        (
          built.0,
          rw (hk, hm) (saved (rw (hk, hm) at h) ∙ built.1),
          λ j. built.2 j ∙ lookup-insert j id st m,
        )

module _ {S : Type 0} (D : DeviceStore S) (devices : Option (Dict DeviceState)) where
  reloaded-store : (r : Result StoreError (Dict DeviceState) × S) → (reloaded D devices r).2 ≡ r.1
  reloaded-store (err e, s) = refl
  reloaded-store (ok m, s) = refl

  pub reload_devices_from_disk-store :
      (s : S) → (reload_devices_from_disk D devices s).2 ≡ (D.load s).1
  unfolding reload_devices_from_disk
  reload_devices_from_disk-store s = reloaded-store (D.load s)

  reloaded-ok :
      (r : Result StoreError (Dict DeviceState) × S) (m : Dict DeviceState)
      → r.0 ≡ ok m
      → (reloaded D devices r).1 ≡ some m
  reloaded-ok (err e, s) m h = cc
  reloaded-ok (ok m', s) m h = ap some (cc)

  -- The devices in memory are those that were loaded.
  pub reload_devices_from_disk-ok :
      (s : S) (m : Dict DeviceState)
      → (D.load s).0 ≡ ok m
      → (reload_devices_from_disk D devices s).1 ≡ some m
  unfolding reload_devices_from_disk
  reload_devices_from_disk-ok s m h = reloaded-ok (D.load s) m h
