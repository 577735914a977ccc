-- ===== src/Message/Receive/Laws.antt =====
-- What an accepted message shows, and what a refused one leaves behind.
use nova_key_daemon.Common.{
  ℕ, ◌≡◌, ◌≢◌, refl, arith, Bytes, length, drop, ok, err, Result, Result-cases, inl, inr,
  Bool-cases, ltb,
}
use nova_key_daemon.Message.Crypto.{Crypto}
use nova_key_daemon.Message.Wire.{slice, be}
use nova_key_daemon.Message.Inner.{encode_message_frame, decode_message_frame}
use nova_key_daemon.Message.Inner.RoundTrip.{decode_encoded, encoded_starts}
use nova_key_daemon.Message.Freshness.{FreshnessError, ReplayState, validate_freshness_and_rate}
use nova_key_daemon.Message.Outer.{KeyStore, OuterError, decrypt_outer_v3}
use nova_key_daemon.Message.Outer.Authentic.{Accepted, decrypt_outer_v3-Accepted}
use nova_key_daemon.Message.Receive.{
  decode_body, after_freshness, after_outer, decrypt_message_frame,
}

pub decode_body-encoded :
    (id : Bytes) (t : ℕ) (pl : Bytes) {b : Bytes}
    → encode_message_frame id t pl ≡ ok b
    → decode_body id b ≡ ok (id, t, pl)
unfolding decode_body
decode_body-encoded id t pl h =
    let (rest, e) = encoded_starts id t pl h in ground (arith, decode_encoded id t pl h)

-- The device of the answer is the one that was passed in, and the rest is what the inner frame
-- says.
decode_body_inv :
    (id body : Bytes) {dev : Bytes} {t : ℕ} {pl : Bytes}
    → decode_body id body ≡ ok (dev, t, pl)
    → (dev ≡ id) × (decode_message_frame body ≡ ok (id, t, pl))
unfolding decode_body
decode_body_inv id body h = elim (Result-cases (decode_message_frame body)) [
  | inl (e, r) ↦ absurd (ground arith)
  | inr ((inner, t, pl), r) ↦ ground arith
]

module _ (C : Crypto) (ks : KeyStore) (st : ReplayState) (now limit : ℕ) (frame : Bytes) where
  -- What the acceptance of a message shows: the outer frame was authenticated under the device's
  -- key, its timestamp, rate and nonce were accepted, and the inner frame names the same device.
  pub record Received (id : Bytes) (t : ℕ) (pl : Bytes) : Type 0 where
    pub plaintext : Bytes
    pub nonce : Bytes
    pub authentic : Accepted C ks frame id plaintext nonce
    pub timely :
        (validate_freshness_and_rate st now limit id nonce (be (slice plaintext 0 8))).0 ≡ ok tt
    pub inner : decode_message_frame (drop 8 plaintext) ≡ ok (id, t, pl)

  timely_inner :
      (id plaintext nonce : Bytes) {dev : Bytes} {t : ℕ} {pl : Bytes}
      → (after_outer C st now limit (ok (id, plaintext, nonce))).0 ≡ ok (dev, t, pl)
      → ((validate_freshness_and_rate st now limit id nonce (be (slice plaintext 0 8))).0 ≡ ok tt)
        × (decode_body id (drop 8 plaintext) ≡ ok (dev, t, pl))
  unfolding after_outer
  timely_inner id plaintext nonce {dev} {t} {pl} h = elim (Bool-cases (ltb (length plaintext) 8)) [
    | inl short ↦ absurd (ground arith)
    | inr long ↦
        finish (validate_freshness_and_rate st now limit id nonce (be (slice plaintext 0 8)))
          (rw long at h)
  ]
    where
      finish :
          (r : Result FreshnessError (Unit {0}) × ReplayState)
          → (after_freshness r id (drop 8 plaintext)).0 ≡ ok (dev, t, pl)
          → (r.0 ≡ ok tt) × (decode_body id (drop 8 plaintext) ≡ ok (dev, t, pl))
      finish (err e, st') h = unfold after_freshness in cc
      finish (ok u, st') h = (refl, h)

  outer_refused :
      (e : OuterError) {a : Bytes × ℕ × Bytes} → (after_outer C st now limit (err e)).0 ≡ ok a → ⊥
  unfolding after_outer
  outer_refused e h = cc

  -- A message is taken for one of a device only if a frame that is authentic for that device, in
  -- time, within the rate and not seen before carries it.
  pub decrypt_message_frame-Received :
      {id : Bytes} {t : ℕ} {pl : Bytes}
      → (decrypt_message_frame C ks st now limit frame).0 ≡ ok (id, t, pl)
      → Received id t pl
  unfolding decrypt_message_frame
  decrypt_message_frame-Received h = elim (Result-cases (decrypt_outer_v3 C ks frame)) [
    | inl (e, r) ↦ absurd (outer_refused e (rw r at h))
    | inr ((id', plaintext, nonce), r) ↦
        let (timely, body) = timely_inner id' plaintext nonce (rw r at h) in
        let (same, inner) = decode_body_inv id' (drop 8 plaintext) body in
        rw same (record {
          plaintext = plaintext;
          nonce = nonce;
          authentic = decrypt_outer_v3-Accepted C ks frame r;
          timely = timely;
          inner = inner;
        })
  ]

  -- Only an authentic frame is entered in the rate and replay maps: where they changed, the frame
  -- was authenticated under the key of a registered device.
  pub decrypt_message_frame_changes :
      (decrypt_message_frame C ks st now limit frame).1 ≢ st
      → (id : Bytes) × (plaintext : Bytes) × (nonce : Bytes) × Accepted C ks frame id plaintext
          nonce
  unfolding decrypt_message_frame
  decrypt_message_frame_changes h = elim (Result-cases (decrypt_outer_v3 C ks frame)) [
    | inl (e, r) ↦ absurd (h (rw (r, after_outer)))
    | inr ((id, plaintext, nonce), r) ↦
        (id, plaintext, nonce, decrypt_outer_v3-Accepted C ks frame r)
  ]
