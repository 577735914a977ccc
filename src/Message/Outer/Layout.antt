-- ===== src/Message/Outer/Layout.antt =====
-- What `decryptOuterV3` makes of a frame whose parts are known.
use nova_key_daemon.Common.{
  ℕ, ◌+◌, ◌-◌, ◌^◌, ◌≤◌, ◌<◌, ◌≡◌, refl, true, some, ◌∷◌, ◌++◌, append_assoc, arith, Bytes, length,
  length-append, take-append, drop-append, ok,
}
use nova_key_daemon.Message.Crypto.{Crypto}
use nova_key_daemon.Message.Wire.{slice, put_u16, be-put_u16, slice_middle}
use nova_key_daemon.Message.Outer.{
  DeviceState, KeyStore, outer_device, outer_keys, outer_kem, outer_open, derive_aead_key,
  decrypt_outer_v3,
}

module _ (id ct nonce sealed : Bytes) where
  abbrev prefix : Bytes
  prefix = 3 ∷ 1 ∷ length id ∷ id

  -- Everything before the nonce.
  abbrev pub header : Bytes
  header = 3 ∷ 1 ∷ length id ∷ (id ++ (put_u16 (length ct) ++ ct))

  abbrev pub frame : Bytes
  frame = header ++ (nonce ++ sealed)

  outer_device-frame : 1 ≤ length id → outer_device frame ≡ ok id
  unfolding outer_device
  outer_device-frame h = ground (
    arith,
    length-append (id ++ (put_u16 (length ct) ++ ct)) (nonce ++ sealed),
    length-append id (put_u16 (length ct) ++ ct),
    append_assoc id (put_u16 (length ct) ++ ct) (nonce ++ sealed),
    take-append (3 + length id - 3) id ((put_u16 (length ct) ++ ct) ++ (nonce ++ sealed))
        (omega arith),
  )

  frame_split : frame ≡ prefix ++ (put_u16 (length ct) ++ (ct ++ (nonce ++ sealed)))
  frame_split = simp append_assoc

  frame_split_ct : frame ≡ (prefix ++ put_u16 (length ct)) ++ (ct ++ (nonce ++ sealed))
  frame_split_ct = simp append_assoc

  length-header : length header ≡ 5 + length id + length ct
  length-header =
      omega (
        arith,
        length-append id (put_u16 (length ct) ++ ct),
        length-append (put_u16 (length ct)) ct,
      )

  kem_len_slice : slice frame (3 + length id) (3 + length id + 2) ≡ put_u16 (length ct)
  kem_len_slice = rw frame_split (
      slice_middle prefix (put_u16 (length ct)) (ct ++ (nonce ++ sealed)) _ _ (omega arith)
        (omega arith))

  kem_ct_slice :
      (i j : ℕ) → i ≡ 5 + length id → j ≡ 5 + length id + length ct → slice frame i j ≡ ct
  kem_ct_slice i j hi hj = rw frame_split_ct (
      slice_middle (prefix ++ put_u16 (length ct)) ct (nonce ++ sealed) i j
        (omega (arith, length-append prefix (put_u16 (length ct))))
        (omega (arith, length-append prefix (put_u16 (length ct)))))

  module _ (C : Crypto) where
    outer_kem-frame :
        length ct ≡ C.ciphertext_size
        → C.ciphertext_size < 2 ^ 16
        → outer_kem C frame (length id) ≡ ok (5 + length id, 5 + length id + length ct)
    unfolding outer_kem
    outer_kem-frame hc fits =
        rw (kem_len_slice, be-put_u16 (length ct) (omega arith))
          (ground (arith, length-append header (nonce ++ sealed), length-header))

    outer_open-frame :
        (dev : DeviceState) (key shared aead_key plaintext : Bytes) (i j : ℕ)
        → i ≡ 5 + length id
        → j ≡ 5 + length id + length ct
        → C.decapsulate key ct ≡ some shared
        → derive_aead_key C dev.static_key shared ≡ some aead_key
        → C.new_x aead_key ≡ true
        → length nonce ≡ C.nonce_size
        → C.overhead ≤ length sealed
        → C.unseal aead_key nonce sealed header ≡ some plaintext
        → outer_open C frame dev key i j ≡ ok (plaintext, nonce)
    unfolding outer_open
    outer_open-frame dev key shared aead_key plaintext i j hi hj hk hd hx hn ho hu =
        rw
          (
            kem_ct_slice i j hi hj,
            hk,
            hd,
            hx,
            drop-append j header (nonce ++ sealed) (omega (arith, length-header)),
            take-append j header (nonce ++ sealed) (omega (arith, length-header)),
            take-append C.nonce_size nonce sealed hn,
            drop-append C.nonce_size nonce sealed hn,
            hu,
          )
          (ground (arith, length-append nonce sealed))

    -- A frame of the documented layout, from a registered device, is opened: the device's name, what
    -- the additional data and the keys unseal, and the nonce.
    pub decrypt_outer_v3-frame :
        (ks : KeyStore) (dev : DeviceState) (key shared aead_key plaintext : Bytes)
        → 1 ≤ length id
        → outer_keys ks id ≡ ok (dev, key)
        → length ct ≡ C.ciphertext_size
        → C.ciphertext_size < 2 ^ 16
        → C.decapsulate key ct ≡ some shared
        → derive_aead_key C dev.static_key shared ≡ some aead_key
        → C.new_x aead_key ≡ true
        → length nonce ≡ C.nonce_size
        → C.overhead ≤ length sealed
        → C.unseal aead_key nonce sealed header ≡ some plaintext
        → decrypt_outer_v3 C ks frame ≡ ok (id, plaintext, nonce)
    decrypt_outer_v3-frame ks dev key shared aead_key plaintext pos hk hc fits hd ha hx hn ho hu =
        unfold decrypt_outer_v3 in
        rw (outer_device-frame pos, hk, outer_kem-frame hc fits)
          (rw (outer_open-frame dev key shared aead_key plaintext _ _ refl refl hd ha hx hn ho hu))
