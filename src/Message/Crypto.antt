-- ===== src/Message/Crypto.antt =====
-- What the daemon and the client call of the libraries for ML-KEM-768, HKDF-SHA-256 and
-- XChaCha20-Poly1305. Those are not part of the repository, so they are a parameter of the model:
-- each operation is a field, and what the program relies on is a law of `IsLawful`.
pub mod Toy
use nova_key_daemon.Common.{ℕ, ◌+◌, ◌^◌, ◌<◌, ◌≡◌, Bool, true, Option, some, Bytes, length}

pub record Crypto : Type 0 where
  -- `mlkem768.CiphertextSize`, `aead.NonceSize()` and `aead.Overhead()`
  pub ciphertext_size : ℕ
  pub nonce_size : ℕ
  pub overhead : ℕ
  -- `mlkem768.Decapsulate` (decapsulation key, ciphertext)
  pub decapsulate : Bytes → Bytes → Option Bytes
  -- `mlkem768.Encapsulate` (encapsulation key; the second argument is the randomness it draws)
  pub encapsulate : Bytes → Bytes → Option (Bytes × Bytes)
  -- `dk.EncapsulationKey()`
  pub encapsulation_key : Bytes → Bytes
  -- HKDF read to 32 bytes (secret, salt, info)
  pub hkdf : Bytes → Bytes → Bytes → Option Bytes
  -- whether `chacha20poly1305.NewX` takes the key
  pub new_x : Bytes → Bool
  -- `aead.Seal` and `aead.Open` (key, nonce, text, additional data)
  pub seal : Bytes → Bytes → Bytes → Bytes → Bytes
  pub unseal : Bytes → Bytes → Bytes → Bytes → Option Bytes

-- What the packages document of a key pair, of keys of the right size and of sealed text.
pub record IsLawful (C : Crypto) : Type 0 where
  pub ciphertext_fits : C.ciphertext_size < 2 ^ 16
  pub decapsulate-encapsulate :
      (key rand ct shared : Bytes)
      → C.encapsulate (C.encapsulation_key key) rand ≡ some (ct, shared)
      → C.decapsulate key ct ≡ some shared
  pub unseal-seal :
      (key nonce text aad : Bytes) → C.unseal key nonce (C.seal key nonce text aad) aad ≡ some text
  pub length-seal :
      (key nonce text aad : Bytes) → length (C.seal key nonce text aad) ≡ length text + C.overhead
