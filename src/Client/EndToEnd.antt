-- ===== src/Client/EndToEnd.antt =====
-- The client's frame meets the daemon.
use mathlib.Core.Path.{subst}
use nova_key_daemon.Common.{
  ℕ, ◌%◌, ◌^◌, ◌≤◌, ◌<◌, ◌≡◌, ◌↔◌, ◌∙◌, ap, true, false, some, Option-cases, inl, inr, [], ◌∷◌,
  ◌++◌, arith, Bytes, length, ok, err, Result, ltb,
}
use nova_key_daemon.Message.Crypto.{Crypto, IsLawful}
use nova_key_daemon.Message.Wire.{slice, be, put_u16, put_u64, be-put_u64}
use nova_key_daemon.Message.Inner.{encode_message_frame}
use nova_key_daemon.Message.Freshness.{FreshnessError, ReplayState, validate_freshness_and_rate}
use nova_key_daemon.Message.Outer.{
  DeviceState, KeyStore, outer_keys, decrypt_outer_v3, derive_aead_key,
}
use nova_key_daemon.Message.Outer.Layout.{header, decrypt_outer_v3-frame}
use nova_key_daemon.Message.Receive.{after_freshness, after_outer, decrypt_message_frame}
use nova_key_daemon.Message.Receive.Laws.{decode_body-encoded}
use nova_key_daemon.Client.Frame.{
  ClientKeys, encode_inner_message_frame, encrypt_v3_outer_frame,
  derive_aead_key as client_aead_key,
}

-- The client encodes an inner frame exactly when the daemon's encoder does, and to the same bytes,
-- for every payload below 4 GiB.
pub encode_inner_iff :
    (id : Bytes) (t : ℕ) (pl b : Bytes)
    → length pl ≤ 0xFFFF_FFFF
    → (encode_inner_message_frame id t pl ≡ ok b) ↔ (encode_message_frame id t pl ≡ ok b)
unfolding encode_inner_message_frame encode_message_frame
encode_inner_iff id t pl b h = (λ e. ground arith, λ e. ground arith)

module _ (C : Crypto) where
  header_lem :
      (id ct : Bytes)
      → length id ≤ 255
      → length ct < 2 ^ 16
      → 3 ∷ 1 ∷ length id % 256 ∷ id ++ (put_u16 (length ct % 2 ^ 16) ++ ct) ≡ header id ct [] []
  header_lem id ct h k = ground arith

  abbrev pub sealed_frame : Bytes → Bytes → Bytes → Bytes → Bytes
  sealed_frame aead_key nonce text h = h ++ (nonce ++ C.seal aead_key nonce text h)

  -- What a successful encryption shows: the parts from which the frame is put together.
  pub record Encrypted (keys : ClientKeys) (rand : Bytes) (now : ℕ) (nonce inner out : Bytes)
      : Type 0 where
    pub ct : Bytes
    pub shared : Bytes
    pub aead_key : Bytes
    pub named : 1 ≤ length keys.client_device_id
    pub short : length keys.client_device_id ≤ 255
    pub encapsulated : C.encapsulate keys.server_encap_key rand ≡ some (ct, shared)
    pub sized : length ct ≡ C.ciphertext_size
    pub derived : client_aead_key C keys.device_static_key shared ≡ some aead_key
    pub keyed : C.new_x aead_key ≡ true
    pub laid_out :
        out
        ≡ sealed_frame aead_key nonce (put_u64 now ++ inner) (header keys.client_device_id ct [] [])

  lay_out :
      (id ct aead_key nonce text : Bytes) {out : Bytes}
      → length id ≤ 255
      → length ct < 2 ^ 16
      → out
        ≡ sealed_frame aead_key nonce text
            (3 ∷ 1 ∷ length id % 256 ∷ id ++ (put_u16 (length ct % 2 ^ 16) ++ ct))
      → out ≡ sealed_frame aead_key nonce text (header id ct [] [])
  lay_out id ct aead_key nonce text hi hc e =
      e ∙ ap (sealed_frame aead_key nonce text) (header_lem id ct hi hc)

  pub encrypt_inv :
      (keys : ClientKeys) (rand : Bytes) (now : ℕ) (nonce inner : Bytes) {out : Bytes}
      → C.ciphertext_size < 2 ^ 16
      → encrypt_v3_outer_frame C keys rand now nonce inner ≡ ok out
      → Encrypted keys rand now nonce inner out
  unfolding encrypt_v3_outer_frame
  encrypt_inv keys rand now nonce inner fits h =
      elim (Option-cases (C.encapsulate keys.server_encap_key rand)) [
        | inl e ↦ absurd (ground arith)
        | inr ((ct, shared), e) ↦
            elim (Option-cases (client_aead_key C keys.device_static_key shared)) [
              | inl d ↦ absurd (ground arith)
              | inr (aead_key, d) ↦ record {
                ct = ct;
                shared = shared;
                aead_key = aead_key;
                named = ground arith;
                short = ground arith;
                encapsulated = e;
                sized = ground arith;
                derived = d;
                keyed = ground arith;
                laid_out =
                    lay_out keys.client_device_id ct aead_key nonce (put_u64 now ++ inner)
                      (ground arith) (ground arith) (ground arith);
              }
            ]
      ]

  -- The daemon opens what the client sealed.
  decrypt_outer_v3-encrypted :
      (L : IsLawful C) (keys : ClientKeys) (ks : KeyStore) (dev : DeviceState) (key rand : Bytes)
      (now : ℕ) (nonce inner : Bytes) {out : Bytes}
      → encrypt_v3_outer_frame C keys rand now nonce inner ≡ ok out
      → outer_keys ks keys.client_device_id ≡ ok (dev, key)
      → dev.static_key ≡ keys.device_static_key
      → keys.server_encap_key ≡ C.encapsulation_key key
      → length nonce ≡ C.nonce_size
      → decrypt_outer_v3 C ks out ≡ ok (keys.client_device_id, put_u64 now ++ inner, nonce)
  unfolding derive_aead_key client_aead_key
  decrypt_outer_v3-encrypted L keys ks dev key rand now nonce inner h registered same paired hn =
      let e = encrypt_inv keys rand now nonce inner L.ciphertext_fits h in
      let id = keys.client_device_id in
      let text = put_u64 now ++ inner in
      let sealed = C.seal e.aead_key nonce text (header id e.ct [] []) in
      rw e.laid_out (
        decrypt_outer_v3-frame id e.ct nonce sealed C ks dev key e.shared e.aead_key text e.named
          registered e.sized L.ciphertext_fits
          (L.decapsulate-encapsulate key rand e.ct e.shared
            (subst (λ k. C.encapsulate k rand ≡ some (e.ct, e.shared)) paired e.encapsulated))
          (rw same e.derived) e.keyed hn
          (omega (arith, L.length-seal e.aead_key nonce text (header id e.ct [] [])))
          (L.unseal-seal e.aead_key nonce text (header id e.ct [] [])))

  take_timestamp :
      (now : ℕ) (inner : Bytes) → now < 2 ^ 64 → be (slice (put_u64 now ++ inner) 0 8) ≡ now
  take_timestamp now inner h = be-put_u64 now h

  text_long : (now : ℕ) (inner : Bytes) → ltb (length (put_u64 now ++ inner)) 8 ≡ false
  text_long now inner = ground arith

  -- End to end: a message that the command-line client encodes and encrypts for a device is received
  -- by the daemon as that device's message, with its type and payload, if the daemon knows the
  -- device under the same key, the client has the daemon's public key, and the timestamp, rate and
  -- nonce are accepted.
  pub decrypt_message_frame-encrypted :
      (L : IsLawful C) (keys : ClientKeys) (ks : KeyStore) (dev : DeviceState) (key rand : Bytes)
      (sent : ℕ) (nonce inner out : Bytes) (t : ℕ) (pl : Bytes) (st : ReplayState) (now limit : ℕ)
      → encode_inner_message_frame keys.client_device_id t pl ≡ ok inner
      → length pl ≤ 0xFFFF_FFFF
      → encrypt_v3_outer_frame C keys rand sent nonce inner ≡ ok out
      → outer_keys ks keys.client_device_id ≡ ok (dev, key)
      → dev.static_key ≡ keys.device_static_key
      → keys.server_encap_key ≡ C.encapsulation_key key
      → length nonce ≡ C.nonce_size
      → sent < 2 ^ 64
      → (validate_freshness_and_rate st now limit keys.client_device_id nonce sent).0 ≡ ok tt
      → (decrypt_message_frame C ks st now limit out).0 ≡ ok (keys.client_device_id, t, pl)
  unfolding decrypt_message_frame after_outer
  decrypt_message_frame-encrypted L keys ks dev key rand sent nonce inner out t pl st now limit he
        hp h registered same paired hn hs timely =
      let id = keys.client_device_id in
      rw
        (
          decrypt_outer_v3-encrypted L keys ks dev key rand sent nonce inner h registered same
              paired hn,
          text_long sent inner,
          take_timestamp sent inner hs,
        )
        (accepted (validate_freshness_and_rate st now limit id nonce sent) timely)
    where
      accepted :
          (r : Result FreshnessError (Unit {0}) × ReplayState)
          → r.0 ≡ ok tt
          → (after_freshness r keys.client_device_id inner).0 ≡ ok (keys.client_device_id, t, pl)
      accepted (ok u, st') e =
          unfold after_freshness in
          decode_body-encoded keys.client_device_id t pl
            ((encode_inner_iff keys.client_device_id t pl inner hp).0 he)
      accepted (err x, st') e = cc
