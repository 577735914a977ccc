-- ===== src/Devices/Map.antt =====
-- The map of devices and the entries that it is written as.
use mathlib.Core.Path.{subst}
use nova_key_daemon.Common.{
  ◌<◌, ite, ◌≡◌, ◌≢◌, refl, ap, ◌∙◌, Bool, true, false, [], ◌∷◌, List, Option, none, some, arith,
  if◌then◌else◌, ◌=?◌, Bytes, length, Result, ok, err, All, bytes_dec,
}
use nova_key_daemon.Common.Dict.{Dict, lookup, insert, NodupKeys, lookup-insert, insert-NodupKeys}
use nova_key_daemon.Common.Hex
use nova_key_daemon.Message.Outer.{DeviceState}
use nova_key_daemon.Devices.{
  DeviceConfig, DevicesError, device_entry, device_state, continue_with, add_devices,
  build_devices_map,
}

-- The loop over the map that builds `devicesConfigFile.Devices`.
unfoldable pub entries_of : Dict DeviceState → List DeviceConfig
unfolding Hex.encode
entries_of [] = []
entries_of ((k, st) ∷ m) = record { id = st.id; key_hex = Hex.encode st.static_key } ∷ entries_of m

-- The entry of a map as `buildDevicesMap` makes it; `valid` is `utf8.ValidString`.
pub record IsEntry (valid : Bytes → Bool) (k : Bytes) (st : DeviceState) : Type 0 where
  pub keyed : k ≡ st.id
  pub named : k ≢ []
  pub sized : length st.static_key ≡ 32
  pub bytes : All (λ c. c < 256) st.static_key
  pub readable : valid k ≡ true

same_state :
    (id k : Bytes) {st : DeviceState}
    → device_state id (some k) ≡ ok st
    → record { id = id; static_key = k } ≡ st
same_state id k h = ground arith

same_map :
    {m out : Dict DeviceState}
    → ◌≡◌ {A = Result DevicesError (Dict DeviceState)} (ok m) (ok out)
    → m ≡ out
same_map h = cc

module _ (valid : Bytes → Bool) where
  abbrev pub Entries : Dict DeviceState → Type 0
  Entries [] = Unit
  Entries ((k, st) ∷ m) = IsEntry valid k st × Entries m

  abbrev pub IsWellFormed : Dict DeviceState → Type 0
  IsWellFormed m = Entries m × NodupKeys m

  insert-Entries :
      (k : Bytes) (st : DeviceState) (m : Dict DeviceState)
      → IsEntry valid k st
      → Entries m
      → Entries (insert k st m)
  unfolding insert
  insert-Entries k st [] e _ = (e, tt)
  insert-Entries k st ((j, w) ∷ m) e (f, es) =
      let rest = insert-Entries k st m e es in
      elim (bytes_dec k j)
        as (λ d. Entries (if ite d true false then (k, st) ∷ m else (j, w) ∷ insert k st m)) [
          | yes p ↦ (e, es)
          | no p ↦ (f, rest)
        ]

  pub insert-IsWellFormed :
      (k : Bytes) (st : DeviceState) (m : Dict DeviceState)
      → IsEntry valid k st
      → IsWellFormed m
      → IsWellFormed (insert k st m)
  insert-IsWellFormed k st m e (es, u) = (insert-Entries k st m e es, insert-NodupKeys k st m u)

  device_state-IsEntry :
      (id : Bytes) (o : Option Bytes) (st : DeviceState)
      → id ≢ []
      → valid id ≡ true
      → ((k : Bytes) → o ≡ some k → All (λ c. c < 256) k)
      → device_state id o ≡ ok st
      → IsEntry valid id st
  device_state-IsEntry id none st n v b h = cc
  device_state-IsEntry id (some k) st n v b h =
      subst (IsEntry valid id) (same_state id k h)
        record { keyed = refl; named = n; sized = ground arith; bytes = b k refl; readable = v }

  device_entry-IsEntry :
      (d : DeviceConfig) {st : DeviceState}
      → valid d.id ≡ true
      → device_entry d ≡ ok st
      → IsEntry valid d.id st
  unfolding device_entry
  device_entry-IsEntry d v h = elim (bytes_dec d.id []) [
    | yes e ↦ absurd (ground arith)
    | no n ↦
        device_state-IsEntry d.id (Hex.decode d.key_hex) _ n v (Hex.decode-All d.key_hex)
          (ground arith)
  ]

  -- What `buildDevicesMap` makes is well-formed.
  continue_with-IsWellFormed :
      (r : Result DevicesError DeviceState) (id : Bytes) (m : Dict DeviceState)
      (next : Dict DeviceState → Result DevicesError (Dict DeviceState)) (out : Dict DeviceState)
      → ((st : DeviceState) → r ≡ ok st → IsEntry valid id st)
      → ((m' : Dict DeviceState) → IsWellFormed m' → next m' ≡ ok out → IsWellFormed out)
      → IsWellFormed m
      → continue_with r id m next ≡ ok out
      → IsWellFormed out
  continue_with-IsWellFormed (err e) id m next out hr hn w h = cc
  continue_with-IsWellFormed (ok st) id m next out hr hn w h =
      hn (insert id st m) (insert-IsWellFormed id st m (hr st refl) w) h

  add_devices-IsWellFormed :
      (ds : List DeviceConfig) (m out : Dict DeviceState)
      → All (λ d. valid d.id ≡ true) ds
      → IsWellFormed m
      → add_devices ds m ≡ ok out
      → IsWellFormed out
  unfolding add_devices
  add_devices-IsWellFormed [] m out v w h = subst IsWellFormed (same_map h) w
  add_devices-IsWellFormed (d ∷ ds) m out (v, vs) w h =
      continue_with-IsWellFormed (device_entry d) d.id m (add_devices ds) out
        (λ st e. device_entry-IsEntry d v e) (λ m' w' e. add_devices-IsWellFormed ds m' out vs w' e)
        w h

  pub build_devices_map-IsWellFormed :
      (ds : List DeviceConfig) (out : Dict DeviceState)
      → All (λ d. valid d.id ≡ true) ds
      → build_devices_map ds ≡ ok out
      → IsWellFormed out
  unfolding build_devices_map
  build_devices_map-IsWellFormed [] out v h = cc
  build_devices_map-IsWellFormed (d ∷ ds) out v h =
      add_devices-IsWellFormed (d ∷ ds) [] out v (tt, tt) h

  -- The entry that a device is written as is read back.
  device_entry-entry :
      (k : Bytes) (st : DeviceState)
      → IsEntry valid k st
      → device_entry (record { id = st.id; key_hex = Hex.encode st.static_key }) ≡ ok st
  unfolding device_entry
  device_entry-entry k st e = elim (bytes_dec st.id []) [
    | yes p ↦ absurd (e.named (e.keyed ∙ p))
    | no n ↦ ground (arith, Hex.decode-encode st.static_key e.bytes, e.sized)
  ]

  abbrev pub or_else : Option DeviceState → Option DeviceState → Option DeviceState
  or_else (some st) o = some st
  or_else none o = o

  or_else-none : (o : Option DeviceState) → or_else o none ≡ o
  or_else-none none = refl
  or_else-none (some st) = refl

  or_else-insert :
      (j k : Bytes) (st : DeviceState) (m acc : Dict DeviceState)
      → lookup k m ≡ none
      → k ≡ st.id
      → or_else (lookup j m) (lookup j (insert st.id st acc))
        ≡ or_else (if j =? k then some st else lookup j m) (lookup j acc)
  or_else-insert j k st m acc fresh same = elim (bytes_dec j k) [
    | yes p ↦ rw (p, fresh) (ground (arith, lookup-insert k st.id st acc))
    | no n ↦ ground (arith, lookup-insert j st.id st acc)
  ]

  add_devices-entries_of :
      (m acc : Dict DeviceState)
      → IsWellFormed m
      → (out : Dict DeviceState) × (add_devices (entries_of m) acc ≡ ok out)
        × ((j : Bytes) → lookup j out ≡ or_else (lookup j m) (lookup j acc))
  unfolding add_devices entries_of lookup
  add_devices-entries_of [] acc w = (acc, refl, λ j. refl)
  add_devices-entries_of ((k, st) ∷ m) acc ((e, es), (fresh, u)) =
      let ih = add_devices-entries_of m (insert st.id st acc) (es, u) in
      (
        ih.0,
        ap (λ r. continue_with r st.id acc (add_devices (entries_of m))) (device_entry-entry k st e)
            ∙ ih.1,
        λ j. ih.2 j ∙ or_else-insert j k st m acc fresh e.keyed,
      )

  -- Reading the entries of a map back gives the map.
  pub build_devices_map-entries_of :
      (m : Dict DeviceState)
      → IsWellFormed m
      → m ≢ []
      → (out : Dict DeviceState) × (build_devices_map (entries_of m) ≡ ok out)
        × ((j : Bytes) → lookup j out ≡ lookup j m)
  unfolding build_devices_map entries_of lookup
  build_devices_map-entries_of [] w h = absurd (h refl)
  build_devices_map-entries_of ((k, st) ∷ m) w h =
      let built = add_devices-entries_of ((k, st) ∷ m) [] w in
      (built.0, built.1, λ j. built.2 j ∙ or_else-none (lookup j ((k, st) ∷ m)))
