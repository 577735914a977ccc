-- ===== src/Message/Crypto/Toy.antt =====
-- A value of `Crypto` that meets its laws: a shared secret in the clear, and a tag of two bytes.
use nova_key_daemon.Common.{
  ℕ, ◌+◌, refl, true, Option, none, some, [], ◌∷◌, ◌++◌, arith, if◌then◌else◌, Bytes, ◌=?◌, =?_refl,
  length, take, drop,
}
use nova_key_daemon.Message.Crypto.{Crypto, IsLawful}

-- The tag depends on the key's first byte and on the lengths of the nonce and the additional data.
abbrev head_or_zero : Bytes → ℕ
head_or_zero [] = 0
head_or_zero (c ∷ s) = c

abbrev tag : Bytes → Bytes → Bytes → Bytes
tag key nonce aad = (head_or_zero key + length nonce) ∷ length aad ∷ []

abbrev unseal_parts : Bytes → Bytes → Bytes → Bytes → Option Bytes
unseal_parts got want text _ = if got =? want then some text else none

abbrev pub toy : Crypto
toy = record {
  ciphertext_size = 2;
  nonce_size = 2;
  overhead = 2;
  decapsulate = λ key ct. some ct;
  encapsulate = λ pub_key rand. some (7 ∷ 9 ∷ [], 7 ∷ 9 ∷ []);
  encapsulation_key = λ key. key;
  hkdf = λ secret salt info. some (secret ++ salt);
  new_x = λ key. true;
  seal = λ key nonce text aad. tag key nonce aad ++ text;
  unseal = λ key nonce text aad. unseal_parts (take 2 text) (tag key nonce aad) (drop 2 text) [];
}

pub toy-IsLawful : IsLawful toy
toy-IsLawful = record {
  ciphertext_fits = omega arith;
  decapsulate-encapsulate = λ key rand ct shared e. ground arith;
  unseal-seal = λ key nonce text aad. rw (=?_refl (tag key nonce aad)) refl;
  length-seal = λ key nonce text aad. omega arith;
}
