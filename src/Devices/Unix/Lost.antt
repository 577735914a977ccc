-- ===== src/Devices/Unix/Lost.antt =====
-- How the sealed devices are lost: `getOrCreateDevicesKey` of cmd/novakey/devices_keyring_unix.go
-- makes a new key whenever the item of the keyring cannot be read.
use nova_key_daemon.Common.{
  ◌<◌, ◌≡◌, refl, ap, ◌∙◌, Bool, true, false, List, Option, none, some, Bool-cases, inl, inr, arith,
  ==_iff, ltb, Bytes, length, ok, err,
}
use nova_key_daemon.Common.Dict.{lookup}
use nova_key_daemon.Message.Crypto.{Crypto, IsLawful}
use nova_key_daemon.Devices.{DeviceConfig}
use nova_key_daemon.Devices.Write.{store_unavailable, IsWritable, devices_of}
use nova_key_daemon.Devices.Unix.{
  DeviceFormats, Machine, Host, devices_sealed_aad, keyring_get, checked_item, wrapper_of,
  get_or_create_devices_key, open_sealed, load_opened, load_wrapper,
  load_devices_from_sealed_wrapper, load_devices_from_disk, save_devices_to_disk,
}
use nova_key_daemon.Devices.Unix.Faithful.{IsFaithful, IsHealthy}
use nova_key_daemon.Devices.Unix.Keyring.{
  Holds, ne_nil_of_length, checked_item_sized, get_or_create_devices_key_again,
}
use nova_key_daemon.Devices.Unix.Seal.{load_found, is_sealed-wrapper_of, save_devices_to_disk-load}
use nova_key_daemon.Devices.Unix.Closed.{save_devices_to_disk-IsSealedFile}

module _ (F : DeviceFormats) (C : Crypto) (path : Bytes) (valid : Bytes → Bool)
    (J : IsFaithful valid F) (L : IsLawful C) where
  -- A keyring that can be written but not read is given a new key.
  replaced :
      (H : Host) (drawn : Bytes) (M : Machine)
      → H.keyring_reads ≡ false
      → H.keyring_writes ≡ true
      → get_or_create_devices_key F H drawn M
        ≡ (some drawn, record M { item = some (F.base64.encode drawn) })
  unfolding get_or_create_devices_key
  replaced H drawn M locked w = rw (unread M.item, w) refl
    where
      unread : (o : Option Bytes) → keyring_get H o ≡ none
      unread none = refl
      unread (some s) = rw locked refl

  encoded-Holds : (key : Bytes) → length key ≡ 32 → Holds F (some (F.base64.encode key)) key
  encoded-Holds key sized = record {
    text = F.base64.encode key;
    there = refl;
    nonempty = J.base64.encode-ne_nil key (ne_nil_of_length key sized);
    decoded = ap (checked_item F) (J.base64.decode-encode key) ∙ checked_item_sized F key sized;
  }

  -- A key that does not open what was sealed gives no devices.
  load_opened_refused :
      (key drawn nonce pt : Bytes)
      → length nonce ≡ C.nonce_size
      → C.unseal drawn nonce (C.seal key nonce pt devices_sealed_aad) devices_sealed_aad ≡ none
      → load_opened F C true path
          (open_sealed F C true path drawn (wrapper_of F C true path key nonce pt))
        ≡ err store_unavailable
  load_opened_refused key drawn nonce pt n refuses = elim (Bool-cases (C.new_x drawn)) [
    | inr x ↦ rw x refl
    | inl x ↦
        rw
          (
            x,
            J.base64.decode-encode nonce,
            (==_iff (length nonce) C.nonce_size).1 n,
            J.base64.decode-encode (C.seal key nonce pt devices_sealed_aad),
            long_enough,
            refuses,
          )
          refl
  ]
    where
      long_enough : ltb (length (C.seal key nonce pt devices_sealed_aad)) C.overhead ≡ false
      long_enough = ground (arith, L.length-seal key nonce pt devices_sealed_aad)

  module _ (M : Machine) (key nonce pt out : Bytes)
      (wrapped : F.marshal_sealed (wrapper_of F C true path key nonce pt) ≡ some out)
      (there : lookup path M.files ≡ some out) (nonce_sized : length nonce ≡ C.nonce_size)
      (nonce_pos : 0 < C.nonce_size) (overhead_pos : 0 < C.overhead) where
    -- A load of a sealed file asks for the key, and opens the file with it.
    load_sealed :
        (H : Host) (drawn : Bytes) (o : Option Bytes)
        → H.os.readable path ≡ true
        → get_or_create_devices_key F H H.load_key (record M { item = o })
          ≡ (some drawn, record M { item = some (F.base64.encode drawn) })
        → load_devices_from_disk F C true path H (record M { item = o }) ≡ (
          load_opened F C true path
              (open_sealed F C true path drawn (wrapper_of F C true path key nonce pt)),
          record M { item = some (F.base64.encode drawn) },
        )
    unfolding load_devices_from_sealed_wrapper
    load_sealed H drawn o readable got =
        load_found F C true path H (record M { item = o }) out readable there
        ∙ ap (λ w. load_wrapper F C true path H out w (record M { item = o }))
            (J.unmarshal-marshal_sealed nonce (C.seal key nonce pt devices_sealed_aad) wrapped)
        ∙ rw
            (
              is_sealed-wrapper_of F C true path key nonce pt J.base64 L
                  (omega (arith, nonce_sized, nonce_pos)) overhead_pos,
              got,
            )
            refl

    load_after_locked :
        (H K : Host)
        → H.keyring_reads ≡ false
        → H.keyring_writes ≡ true
        → H.os.readable path ≡ true
        → length H.load_key ≡ 32
        → K.os.readable path ≡ true
        → K.keyring_reads ≡ true
        → C.unseal H.load_key nonce (C.seal key nonce pt devices_sealed_aad) devices_sealed_aad
          ≡ none
        → (load_devices_from_disk F C true path K (load_devices_from_disk F C true path H M).1).0
          ≡ err store_unavailable
    load_after_locked H K locked writes readable sized again reads refuses =
        let first =
          load_sealed H H.load_key M.item readable (replaced H H.load_key M locked writes) in
        let item = some (F.base64.encode H.load_key) in
        let second = load_sealed K H.load_key item again (
          get_or_create_devices_key_again F K K.load_key (record M { item = item }) H.load_key reads
            (encoded-Holds H.load_key sized)) in
        ap (λ r. (load_devices_from_disk F C true path K r.1).0) first
        ∙ ap (λ r. r.0) second
        ∙ load_opened_refused key H.load_key nonce pt nonce_sized refuses

  module _ (G H K : Host) (ok_host : IsHealthy C path G K) (locked : H.keyring_reads ≡ false)
      (writes : H.keyring_writes ≡ true) (readable : H.os.readable path ≡ true)
      (sized : length H.load_key ≡ 32) where
    -- Devices that were saved sealed, and that a later load on a machine that works gives, are lost by
    -- one load in between whose keyring can be written but not read: after it the same later load
    -- fails, if the key drawn in between does not open what was sealed under the old one. With
    -- faithful formats and lawful cryptography, where sealing is required.
    pub load_devices_from_disk_loses_key :
        (ds : List DeviceConfig) (M : Machine)
        → IsWritable valid ds
        → ((key pt : Bytes)
            → (get_or_create_devices_key F G G.save_key M).0 ≡ some key
            → C.unseal H.load_key G.save_nonce
                (C.seal key G.save_nonce pt devices_sealed_aad)
                devices_sealed_aad
              ≡ none)
        → (save_devices_to_disk F C true path G ds M).0 ≡ ok tt
        → ((load_devices_from_disk F C true path K (save_devices_to_disk F C true path G ds M).1).0
            ≡ devices_of ds)
          × ((load_devices_from_disk F C true path K
                (load_devices_from_disk F C true path H
                  (save_devices_to_disk F C true path G ds M).1).1).0
              ≡ err store_unavailable)
    load_devices_from_disk_loses_key ds M w refuses h =
        let f = save_devices_to_disk-IsSealedFile F C path G ds M h in
        (
          save_devices_to_disk-load F C true path valid J L G K ok_host ds M w h,
          load_after_locked (save_devices_to_disk F C true path G ds M).1 f.key G.save_nonce f.pt
              f.out f.wrapped f.there ok_host.nonce_sized ok_host.nonce_pos ok_host.overhead_pos H K
              locked writes readable sized ok_host.reads ok_host.keyring_later
              (refuses f.key f.pt f.got),
        )
