-- ===== src/Devices/Unix/Seal.antt =====
-- What a save writes, and what a load makes of it.
use mathlib.Core.Path.{subst}
use nova_key_daemon.Common.{
  ◌<◌, ◌≡◌, ◌≢◌, refl, ap, sym, ◌∙◌, Bool, true, false, List, [], Option, none, some, Bool-cases,
  inl, inr, arith, if◌then◌else◌, =?_refl, ==_iff, ltb, Bytes, codes, length, Result, ok, err,
}
use nova_key_daemon.Common.Dict.{Dict, lookup}
use nova_key_daemon.Base64.{IsBase64}
use nova_key_daemon.Files.{FileError, read_file, atomic_write_0600}
use nova_key_daemon.Files.Laws.{atomic_write_0600-ok}
use nova_key_daemon.Message.Crypto.{Crypto, IsLawful}
use nova_key_daemon.Devices.{DeviceConfig}
use nova_key_daemon.Devices.Write.{
  StoreError, store_unavailable, save_failed, IsWritable, devices_of,
}
use nova_key_daemon.Devices.Unix.{
  DeviceFormats, Machine, Host, devices_sealed_aad, get_or_create_devices_key, saved, put,
  put_marshalled, wrapper_of, seal_and_put, save_marshalled, open_sealed, is_sealed, load_plain,
  load_wrapper, load_devices_from_sealed_wrapper, load_devices_from_disk, save_devices_to_disk,
}
use nova_key_daemon.Devices.Unix.Faithful.{IsFaithful, IsHealthy}
use nova_key_daemon.Devices.Unix.Keyring.{
  Holds, get_or_create_devices_key-Holds, get_or_create_devices_key_again,
}

ne_nil_of_pos : (s : Bytes) → 0 < length s → s ≢ []
ne_nil_of_pos s h e = absurd (omega (arith, ap length e, h))

module _ (F : DeviceFormats) (C : Crypto) (sealed : Bool) (path : Bytes) where
  -- A file that is there and can be read.
  pub load_found :
      (K : Host) (M : Machine) (b : Bytes)
      → K.os.readable path ≡ true
      → lookup path M.files ≡ some b
      → load_devices_from_disk F C sealed path K M
        ≡ load_wrapper F C sealed path K b (F.unmarshal_sealed b) M
  unfolding load_devices_from_disk read_file
  load_found K M b r there = rw (there, r) refl

  saved-files :
      (r : Result FileError (Unit {0}) × Dict Bytes) (M : Machine)
      → (saved F C sealed path r M).1 ≡ record M { files = r.1 }
  saved-files (ok u, files) M = refl
  saved-files (err e, files) M = refl

  saved-ok :
      (r : Result FileError (Unit {0}) × Dict Bytes) (M : Machine)
      → (saved F C sealed path r M).0 ≡ ok tt
      → r.0 ≡ ok tt
  saved-ok (ok u, files) M h = refl
  saved-ok (err e, files) M h = cc

  -- A load after a successful replacement of the file reads the new text.
  load-put :
      (H K : Host) (out : Bytes) (M : Machine)
      → K.os.readable path ≡ true
      → (put F C sealed path H out M).0 ≡ ok tt
      → (M' : Machine) × (M'.item ≡ M.item)
        × (load_devices_from_disk F C sealed path K (put F C sealed path H out M).1
            ≡ load_wrapper F C sealed path K out (F.unmarshal_sealed out) M')
  load-put H K out M r h =
      let w = atomic_write_0600 H.os path out M.files in
      let there : lookup path w.1 ≡ some out =
        atomic_write_0600-ok H.os path path out M.files (saved-ok w M h) ∙ rw (=?_refl path) refl in
      (
        record M { files = w.1 },
        refl,
        ap (load_devices_from_disk F C sealed path K) (saved-files w M)
            ∙ load_found K (record M { files = w.1 }) out r there,
      )

  -- What was sealed is opened, under the same key.
  open_sealed-wrapper_of :
      (key nonce pt : Bytes)
      → IsBase64 F.base64
      → IsLawful C
      → C.new_x key ≡ true
      → length nonce ≡ C.nonce_size
      → open_sealed F C sealed path key (wrapper_of F C sealed path key nonce pt) ≡ ok pt
  open_sealed-wrapper_of key nonce pt B L x n =
      rw
        (
          x,
          B.decode-encode nonce,
          (==_iff (length nonce) C.nonce_size).1 n,
          B.decode-encode (C.seal key nonce pt devices_sealed_aad),
          long_enough,
          L.unseal-seal key nonce pt devices_sealed_aad,
        )
        refl
    where
      long_enough : ltb (length (C.seal key nonce pt devices_sealed_aad)) C.overhead ≡ false
      long_enough = ground (arith, L.length-seal key nonce pt devices_sealed_aad)

  pub is_sealed-wrapper_of :
      (key nonce pt : Bytes)
      → IsBase64 F.base64
      → IsLawful C
      → 0 < length nonce
      → 0 < C.overhead
      → is_sealed F C sealed path (some (wrapper_of F C sealed path key nonce pt)) ≡ true
  is_sealed-wrapper_of key nonce pt B L n o =
      let nonce_text = B.encode-ne_nil nonce (ne_nil_of_pos nonce n) in
      let ct = C.seal key nonce pt devices_sealed_aad in
      let ct_text =
        B.encode-ne_nil ct
          (ne_nil_of_pos ct (omega (arith, L.length-seal key nonce pt devices_sealed_aad))) in
      filled (F.base64.encode nonce) (F.base64.encode ct) nonce_text ct_text
    where
      filled :
          (a b : Bytes)
          → a ≢ []
          → b ≢ []
          → is_sealed F C sealed path
              (some (record { v = 1; alg = codes "xchacha20poly1305"; nonce_b64 = a; ct_b64 = b }))
            ≡ true
      filled a b ha hb = ground arith

  module _ (valid : Bytes → Bool) (J : IsFaithful valid F) (L : IsLawful C) where
    load_plain-marshalled :
        (ds : List DeviceConfig) (pt : Bytes)
        → sealed ≡ false
        → IsWritable valid ds
        → F.marshal_devices ds ≡ some pt
        → load_plain F C sealed path pt ≡ devices_of ds
    load_plain-marshalled ds pt s w e = rw (s, J.unmarshal-marshal ds w e) refl

    module _ (H K : Host) (ok_host : IsHealthy C path H K) where
      -- The plain file of a save without a key.
      put_plain-load :
          (ds : List DeviceConfig) (pt : Bytes) (M : Machine)
          → sealed ≡ false
          → IsWritable valid ds
          → F.marshal_devices ds ≡ some pt
          → (put F C sealed path H pt M).0 ≡ ok tt
          → (load_devices_from_disk F C sealed path K (put F C sealed path H pt M).1).0
            ≡ devices_of ds
      put_plain-load ds pt M s w e h =
          let l = load-put H K pt M ok_host.reads h in
          ap (λ r. r.0) l.2
          ∙ ap (λ o. (load_wrapper F C sealed path K pt o l.0).0) (J.plain_unsealed ds e)
          ∙ load_plain-marshalled ds pt s w e

      load_wrapper-sealed :
          (key pt out : Bytes) (ds : List DeviceConfig) (M : Machine)
          → Holds F M.item key
          → C.new_x key ≡ true
          → IsWritable valid ds
          → F.marshal_devices ds ≡ some pt
          → (load_wrapper F C sealed path K out
              (some (wrapper_of F C sealed path key H.save_nonce pt))
              M).0
            ≡ devices_of ds
      unfolding load_devices_from_sealed_wrapper
      load_wrapper-sealed key pt out ds M held x w e =
          let nonce = H.save_nonce in
          let long : 0 < length nonce = omega (arith, ok_host.nonce_sized, ok_host.nonce_pos) in
          rw
            (
              is_sealed-wrapper_of key nonce pt J.base64 L long ok_host.overhead_pos,
              get_or_create_devices_key_again F K K.load_key M key ok_host.keyring_later held,
              open_sealed-wrapper_of key nonce pt J.base64 L x ok_host.nonce_sized,
              J.unmarshal-marshal ds w e,
            )
            refl

      put_marshalled-load :
          (o : Option Bytes) (key pt : Bytes) (ds : List DeviceConfig) (M : Machine)
          → Holds F M.item key
          → C.new_x key ≡ true
          → IsWritable valid ds
          → F.marshal_devices ds ≡ some pt
          → F.marshal_sealed (wrapper_of F C sealed path key H.save_nonce pt) ≡ o
          → (put_marshalled F C sealed path H o M).0 ≡ ok tt
          → (load_devices_from_disk F C sealed path K (put_marshalled F C sealed path H o M).1).0
            ≡ devices_of ds
      put_marshalled-load none key pt ds M held x w e m h = cc
      put_marshalled-load (some out) key pt ds M held x w e m h =
          let l = load-put H K out M ok_host.reads h in
          ap (λ r. r.0) l.2
          ∙ ap (λ o. (load_wrapper F C sealed path K out o l.0).0)
              (J.unmarshal-marshal_sealed H.save_nonce
                (C.seal key H.save_nonce pt devices_sealed_aad) m)
          ∙ load_wrapper-sealed key pt out ds l.0 (subst (λ i. Holds F i key) (sym l.1) held) x w e

      pub seal_and_put-load :
          (r : Option Bytes × Machine) (pt : Bytes) (ds : List DeviceConfig)
          → ((key : Bytes) → r.0 ≡ some key → Holds F r.1.item key)
          → IsWritable valid ds
          → F.marshal_devices ds ≡ some pt
          → (seal_and_put F C sealed path H pt r).0 ≡ ok tt
          → (load_devices_from_disk F C sealed path K (seal_and_put F C sealed path H pt r).1).0
            ≡ devices_of ds
      seal_and_put-load (none, M) pt ds held w e h = elim (Bool-cases sealed) [
        | inl s ↦ absurd (closed (rw s at h))
        | inr s ↦
            let plain : seal_and_put F C sealed path H pt (none, M) ≡ put F C sealed path H pt M =
              ap (λ b. if b then (err store_unavailable, M) else put F C sealed path H pt M) s in
            ap (λ r. (load_devices_from_disk F C sealed path K r.1).0) plain
            ∙ put_plain-load ds pt M s w e (sym (ap (λ r. r.0) plain) ∙ h)
      ]
        where
          closed : ◌≡◌ {A = Result StoreError (Unit {0})} (err store_unavailable) (ok tt) → ⊥
          closed x = cc
      seal_and_put-load (some key, M) pt ds held w e h = elim (Bool-cases (C.new_x key)) [
        | inr x ↦ absurd (refused (rw x at h))
        | inl x ↦ rw x (
            put_marshalled-load (F.marshal_sealed (wrapper_of F C sealed path key H.save_nonce pt))
              key pt ds M (held key refl) x w e refl (rw x at h))
      ]
        where
          refused : ◌≡◌ {A = Result StoreError (Unit {0})} (err save_failed) (ok tt) → ⊥
          refused x = cc

      save_marshalled-load :
          (o : Option Bytes) (ds : List DeviceConfig) (M : Machine)
          → IsWritable valid ds
          → F.marshal_devices ds ≡ o
          → (save_marshalled F C sealed path H o M).0 ≡ ok tt
          → (load_devices_from_disk F C sealed path K (save_marshalled F C sealed path H o M).1).0
            ≡ devices_of ds
      save_marshalled-load none ds M w e h = cc
      save_marshalled-load (some pt) ds M w e h =
          seal_and_put-load (get_or_create_devices_key F H H.save_key M) pt ds
            (λ key got.
              get_or_create_devices_key-Holds F H H.save_key M key J.base64 ok_host.key_sized got)
            w e h

      -- What a save wrote is what a load gives.
      pub save_devices_to_disk-load :
          (ds : List DeviceConfig) (M : Machine)
          → IsWritable valid ds
          → (save_devices_to_disk F C sealed path H ds M).0 ≡ ok tt
          → (load_devices_from_disk F C sealed path K
              (save_devices_to_disk F C sealed path H ds M).1).0
            ≡ devices_of ds
      unfolding save_devices_to_disk
      save_devices_to_disk-load ds M w h = save_marshalled-load (F.marshal_devices ds) ds M w refl h
