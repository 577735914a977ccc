-- ===== src/Devices/Unix/Keyring.antt =====
-- The key that one operation gets is the key that a later one gets.
use nova_key_daemon.Common.{
  ◌≡◌, ◌≢◌, refl, ap, ◌∙◌, true, [], Option, none, some, Bool-cases, inl, inr, arith, ==_iff, Bytes,
  length,
}
use nova_key_daemon.Base64.{IsBase64}
use nova_key_daemon.Devices.Unix.{
  DeviceFormats, Machine, Host, keyring_get, checked_item, key_or_new, get_or_create_devices_key,
}

keyring_get-some :
    (H : Host) (o : Option Bytes) (s : Bytes) → keyring_get H o ≡ some s → (o ≡ some s) × (s ≢ [])
keyring_get-some H none s h = cc
keyring_get-some H (some t) s h = ground arith

keyring_get_readable :
    (H : Host) (s : Bytes) → H.keyring_reads ≡ true → s ≢ [] → keyring_get H (some s) ≡ some s
keyring_get_readable H s r n = ground arith

pub ne_nil_of_length : (s : Bytes) → length s ≡ 32 → s ≢ []
ne_nil_of_length s h e = absurd (omega (arith, ap length e, h))

module _ (F : DeviceFormats) where
  pub checked_item_sized : (b : Bytes) → length b ≡ 32 → checked_item F (some b) ≡ some b
  checked_item_sized b h = rw ((==_iff (length b) 32).1 h) refl

  -- What the item holds once a key was got.
  pub record Holds (item : Option Bytes) (key : Bytes) : Type 0 where
    pub text : Bytes
    pub there : item ≡ some text
    pub nonempty : text ≢ []
    pub decoded : checked_item F (F.base64.decode text) ≡ some key

  key_or_new-Holds :
      (H : Host) (drawn : Bytes) (o : Option Bytes) (M : Machine) (key : Bytes)
      → IsBase64 F.base64
      → length drawn ≡ 32
      → keyring_get H M.item ≡ o
      → (key_or_new F H drawn o M).0 ≡ some key
      → Holds (key_or_new F H drawn o M).1.item key
  key_or_new-Holds H drawn (some s) M key B sized got h = record {
    text = s;
    there = (keyring_get-some H M.item s got).0;
    nonempty = (keyring_get-some H M.item s got).1;
    decoded = h;
  }
  key_or_new-Holds H drawn none M key B sized got h = elim (Bool-cases H.keyring_writes) [
    | inr e ↦ absurd (no_key (rw e at h))
    | inl e ↦ rw e record {
      text = F.base64.encode drawn;
      there = refl;
      nonempty = B.encode-ne_nil drawn (ne_nil_of_length drawn sized);
      decoded =
          ap (checked_item F) (B.decode-encode drawn)
          ∙ checked_item_sized drawn sized
          ∙ drawn_key (rw e at h);
    }
  ]
    where
      no_key : ◌≡◌ {A = Option Bytes} none (some key) → ⊥
      no_key x = cc

      drawn_key : some drawn ≡ some key → some drawn ≡ some key
      drawn_key x = x

  pub get_or_create_devices_key-Holds :
      (H : Host) (drawn : Bytes) (M : Machine) (key : Bytes)
      → IsBase64 F.base64
      → length drawn ≡ 32
      → (get_or_create_devices_key F H drawn M).0 ≡ some key
      → Holds (get_or_create_devices_key F H drawn M).1.item key
  unfolding get_or_create_devices_key
  get_or_create_devices_key-Holds H drawn M key B sized h =
      key_or_new-Holds H drawn (keyring_get H M.item) M key B sized refl h

  -- A keyring that can be read gives the key again, and stays as it is.
  pub get_or_create_devices_key_again :
      (K : Host) (drawn : Bytes) (M : Machine) (key : Bytes)
      → K.keyring_reads ≡ true
      → Holds M.item key
      → get_or_create_devices_key F K drawn M ≡ (some key, M)
  unfolding get_or_create_devices_key
  get_or_create_devices_key_again K drawn M key r h =
      ap (λ o. key_or_new F K drawn o M)
        (ap (keyring_get K) h.there ∙ keyring_get_readable K h.text r h.nonempty)
      ∙ ap (λ o. (o, M)) h.decoded
