-- ===== src/Message/Outer/Authentic.antt =====
-- What an accepted frame shows: whose key opened it, and that every byte was authenticated.
use nova_key_daemon.Common.{
  ℕ, ◌+◌, ◌≤◌, ◌≡◌, sym, some, Option-cases, inl, inr, ◌++◌, arith, Bytes, length, take, drop,
  take-append-drop, ok, Result-cases,
}
use nova_key_daemon.Message.Crypto.{Crypto}
use nova_key_daemon.Message.Wire.{slice, byte_at}
use nova_key_daemon.Message.Outer.{
  DeviceState, KeyStore, outer_device, outer_keys, outer_kem, outer_open, derive_aead_key,
  decrypt_outer_v3,
}

module _ (C : Crypto) where
  -- The keys under which a ciphertext was opened: the shared secret that the server's key
  -- decapsulates, and the key that it gives with the device's own.
  pub record Opened (dev : DeviceState) (key header nonce sealed plaintext : Bytes) : Type 0 where
    pub kem_ct : Bytes
    pub shared : Bytes
    pub aead_key : Bytes
    pub decapsulated : C.decapsulate key kem_ct ≡ some shared
    pub derived : derive_aead_key C dev.static_key shared ≡ some aead_key
    pub unsealed : C.unseal aead_key nonce sealed header ≡ some plaintext

  outer_open_inv :
      (frame : Bytes) (dev : DeviceState) (key : Bytes) (i j : ℕ) {plaintext nonce : Bytes}
      → outer_open C frame dev key i j ≡ ok (plaintext, nonce)
      → Opened dev key (take j frame) nonce (drop C.nonce_size (drop j frame)) plaintext
        × (nonce ≡ take C.nonce_size (drop j frame))
        × (C.nonce_size + C.overhead ≤ length (drop j frame))
  unfolding outer_open
  outer_open_inv frame dev key i j h = elim (Option-cases (C.decapsulate key (slice frame i j))) [
    | inl e ↦ absurd (ground arith)
    | inr (shared, e) ↦ elim (Option-cases (derive_aead_key C dev.static_key shared)) [
      | inl d ↦ absurd (ground arith)
      | inr (aead_key, d) ↦ (
        record {
          kem_ct = slice frame i j;
          shared = shared;
          aead_key = aead_key;
          decapsulated = e;
          derived = d;
          unsealed = ground arith;
        },
        ground arith,
        ground arith,
      )
    ]
  ]

  -- What the acceptance of a frame for a device shows.
  pub record Accepted (ks : KeyStore) (frame id plaintext nonce : Bytes) : Type 0 where
    pub dev : DeviceState
    pub key : Bytes
    pub header : Bytes
    pub sealed : Bytes
    pub whole : frame ≡ header ++ (nonce ++ sealed)
    pub registered : outer_keys ks id ≡ ok (dev, key)
    pub named : outer_device frame ≡ ok id
    pub opened : Opened dev key header nonce sealed plaintext

  split_at :
      (frame nonce : Bytes) (n j : ℕ)
      → nonce ≡ take n (drop j frame)
      → frame ≡ take j frame ++ (nonce ++ drop n (drop j frame))
  split_at frame nonce n j e =
      sym (rw (e, take-append-drop n (drop j frame)) (take-append-drop j frame))

  accept :
      (ks : KeyStore) (frame : Bytes) {id plaintext nonce : Bytes} (dev : DeviceState) (key : Bytes)
      (i j : ℕ)
      → outer_device frame ≡ ok id
      → outer_keys ks id ≡ ok (dev, key)
      → outer_open C frame dev key i j ≡ ok (plaintext, nonce)
      → Accepted ks frame id plaintext nonce
  accept ks frame {nonce} dev key i j named registered h =
      let (opened, taken, _) = outer_open_inv frame dev key i j h in
      record {
        dev = dev;
        key = key;
        header = take j frame;
        sealed = drop C.nonce_size (drop j frame);
        whole = split_at frame nonce C.nonce_size j taken;
        registered = registered;
        named = named;
        opened = opened;
      }

  -- An accepted frame is a header, a nonce and a ciphertext, and nothing else; the device that the
  -- header names is registered; and the plaintext is what the ciphertext unseals to under the key
  -- derived from that device's key, with the whole header as the additional data. So no byte of an
  -- accepted frame is left out of the authentication.
  pub decrypt_outer_v3-Accepted :
      (ks : KeyStore) (frame : Bytes) {id plaintext nonce : Bytes}
      → decrypt_outer_v3 C ks frame ≡ ok (id, plaintext, nonce)
      → Accepted ks frame id plaintext nonce
  unfolding decrypt_outer_v3
  decrypt_outer_v3-Accepted ks frame h = elim (Result-cases (outer_device frame)) [
    | inl (e, r) ↦ absurd (ground arith)
    | inr (id', named) ↦ elim (Result-cases (outer_keys ks id')) [
      | inl (e, r) ↦ absurd (ground arith)
      | inr ((dev, key), registered) ↦ elim (Result-cases (outer_kem C frame (byte_at frame 2))) [
        | inl (e, r) ↦ absurd (ground arith)
        | inr ((i, j), kem) ↦ elim (Result-cases (outer_open C frame dev key i j)) [
          | inl (e, r) ↦ absurd (ground arith)
          | inr ((text, n), opened) ↦
              accept ks frame dev key i j (ground arith) (ground arith) (ground arith)
        ]
      ]
    ]
  ]
