-- ===== src/Tests/MessageTests.antt =====
-- Frames and requests at concrete values.
use nova_key_daemon.Common.{
  ℕ, ◌+◌, ◌^◌, ◌≤◌, ◌≡◌, ◌≢◌, ◌↔◌, refl, [], ◌∷◌, none, some, arith, Bytes, codes, bytes_dec, ok,
  ◌>>=◌,
}
use nova_key_daemon.Common.Dict.{lookup}
use nova_key_daemon.Message.Crypto.Toy.{toy, toy-IsLawful}
use nova_key_daemon.Message.Inner.{encode_message_frame, decode_message_frame}
use nova_key_daemon.Message.Inner.RoundTrip.{decode-encode, encode-decode}
use nova_key_daemon.Message.Freshness.{
  age_error, no_requests, ReplayState, validate_freshness_and_rate,
}
use nova_key_daemon.Message.Freshness.Age.{age_error-eq-none_iff, age_error_wraps}
use nova_key_daemon.Message.Freshness.Replay
use nova_key_daemon.Message.Freshness.Rate
use nova_key_daemon.Message.Outer.{outer_keys, decrypt_outer_v3, derive_aead_key}
use nova_key_daemon.Message.Receive.{decrypt_message_frame}
use nova_key_daemon.Message.Receive.Laws.{Received, decrypt_message_frame-Received}
use nova_key_daemon.Client.Frame.{encode_inner_message_frame, encrypt_v3_outer_frame}
use nova_key_daemon.Client.EndToEnd.{decrypt_message_frame-encrypted}
use nova_key_daemon.Tests.{device, store, client_keys, plaintext_of, frame_with}

-- An arm message of "d" with the payload "5".
abbrev inner_arm : Bytes
inner_arm = 1 ∷ 3 ∷ 0 ∷ 1 ∷ 0 ∷ 0 ∷ 0 ∷ 1 ∷ 100 ∷ 53 ∷ []

decode-encode_example :
    (encode_message_frame (codes "d") 3 (53 ∷ []) >>= decode_message_frame)
    ≡ ok (codes "d", 3, 53 ∷ [])
decode-encode_example =
    decode-encode (codes "d") 3 (53 ∷ []) (λ e. cc) refl (omega arith) (omega arith)

encode-decode_example : encode_message_frame (codes "d") 3 (53 ∷ []) ≡ ok inner_arm
unfolding decode_message_frame
encode-decode_example = encode-decode inner_arm (omega arith) refl

age_error-eq-none_iff_example :
    (age_error 1000 900 ≡ none) ↔ ((900 ≤ 1000 + 120) × (1000 ≤ 900 + 300))
age_error-eq-none_iff_example = age_error-eq-none_iff 1000 900 (omega arith) (omega arith)

age_error_wraps_example : age_error 1000 (2 ^ 63 + 7) ≡ none
age_error_wraps_example =
    age_error_wraps 1000 (2 ^ 63 + 7) (omega arith) (omega arith) (omega arith)

abbrev request : ℕ → Replay.Request
request now = record { now = now; limit = 60; device = codes "d"; nonce = 5 ∷ 6 ∷ []; ts = 1000 }

answer-run_replayed_example :
    Replay.answer
      (Replay.run
        (Replay.step no_requests (request 1000))
        (record (request 1001) { nonce = [] } ∷ []))
      (request 1002)
    ≢ ok tt
unfolding Replay.answer validate_freshness_and_rate bytes_dec
answer-run_replayed_example =
    Replay.answer-run_replayed no_requests (request 1000) (request 1002)
      (record (request 1001) { nonce = [] } ∷ []) refl refl refl refl (omega arith) (omega arith)
      (omega arith)

-- One request of the window that began at 1000 was accepted before.
abbrev opened : ReplayState
opened = record no_requests {
  rate_state = (codes "d", record { window_start = 1000; count = 1 }) ∷ [];
}

passes-le-limit_example : Rate.passes (codes "d") opened (request 1000 ∷ request 1010 ∷ []) + 1 ≤ 60
unfolding bytes_dec lookup
passes-le-limit_example =
    Rate.passes-le-limit (codes "d") opened 1000 60 (request 1000 ∷ request 1010 ∷ []) (omega arith)
      (omega arith) (omega arith) (refl, omega arith)
      (omega arith, omega arith, refl, (omega arith, omega arith, refl, tt))

frame_opens :
    decrypt_outer_v3 toy store (frame_with 3 53) ≡ ok (codes "d", plaintext_of 3 53, 5 ∷ 6 ∷ [])
unfolding decrypt_outer_v3 bytes_dec
frame_opens = refl

derived : derive_aead_key toy (1 ∷ 2 ∷ []) (7 ∷ 9 ∷ []) ≡ some (7 ∷ 9 ∷ 1 ∷ 2 ∷ [])
unfolding derive_aead_key
derived = refl

decrypt_message_frame-Received_example :
    Received toy store no_requests 1000 60 (frame_with 3 53) (codes "d") 3 (53 ∷ [])
unfolding decrypt_message_frame bytes_dec
decrypt_message_frame-Received_example =
    decrypt_message_frame-Received toy store no_requests 1000 60 (frame_with 3 53) refl

decrypt_message_frame-encrypted_example :
    (decrypt_message_frame toy store no_requests 1000 60 (frame_with 3 53)).0
    ≡ ok (codes "d", 3, 53 ∷ [])
unfolding encode_inner_message_frame encrypt_v3_outer_frame outer_keys validate_freshness_and_rate
    bytes_dec
decrypt_message_frame-encrypted_example =
    decrypt_message_frame-encrypted toy toy-IsLawful client_keys store device (8 ∷ []) [] 1000
      (5 ∷ 6 ∷ []) inner_arm (frame_with 3 53) 3 (53 ∷ []) no_requests 1000 60 refl (omega arith)
      refl refl refl refl refl (omega arith) refl
