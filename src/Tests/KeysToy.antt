-- ===== src/Tests/KeysToy.antt =====
-- Formats of the server's keys that meet their laws, and a key of two bytes.
use nova_key_daemon.Common.{
  ◌≡◌, refl, ap, sym, ◌∙◌, Bool, true, false, [], ◌∷◌, ◌++◌, none, some, arith, Bytes, length, take,
  drop, take-append, drop-append,
}
use nova_key_daemon.Message.Crypto.{Crypto}
use nova_key_daemon.Message.Crypto.Toy.{toy}
use nova_key_daemon.ServerKeys.{ServerKeys, KeyFormats, KeyMachine}
use nova_key_daemon.ServerKeys.Laws.{IsKeyFormat, IsGenerated}
use nova_key_daemon.Tests.StoreToy.{base64, base64-IsBase64}

-- As the toy, with a public key of one byte for every key.
abbrev pub keyed : Crypto
keyed = record toy { encapsulation_key = λ dk. 5 ∷ [] }

abbrev pub read_both : ServerKeys → Bytes → Bool × ServerKeys
read_both old [] = (false, old)
read_both old (n ∷ rest) = (true, record { kyber_pub = take n rest; kyber_priv = drop n rest })

-- Only the key `6 7` is ever made.
abbrev pub two : Bytes
two = 6 ∷ 7 ∷ []

abbrev pub key_formats : KeyFormats
key_formats = record {
  base64 = base64;
  marshal_keys = λ ks. some (length ks.kyber_pub ∷ ks.kyber_pub ++ ks.kyber_priv);
  unmarshal_keys = read_both;
  seed_size = 2;
  encapsulation_key_size = 1;
  new_key_from_seed = λ seed. some seed;
  seed_of = λ dk. dk;
}

both_read :
    (old ks : ServerKeys) (b : Bytes)
    → some (length ks.kyber_pub ∷ ks.kyber_pub ++ ks.kyber_priv) ≡ some b
    → read_both old b ≡ (true, ks)
both_read old ks b e =
    ap (read_both old) (sym (text e))
    ∙ rw
        (
          take-append (length ks.kyber_pub) ks.kyber_pub ks.kyber_priv refl,
          drop-append (length ks.kyber_pub) ks.kyber_pub ks.kyber_priv refl,
        )
        refl
  where
    text : {x y : Bytes} → some x ≡ some y → x ≡ y
    text h = cc

pub key_formats-IsKeyFormat : IsKeyFormat keyed key_formats
key_formats-IsKeyFormat = record {
  base64 = base64-IsBase64;
  sized = λ seed dk e. refl;
  seed_pos = omega arith;
  key_pos = omega arith;
  unmarshal-marshal = λ old ks {b} e. both_read old ks b e;
}

pub two-IsGenerated : IsGenerated keyed key_formats two
two-IsGenerated = record { seed_sized = refl; from_seed = refl }

-- A daemon that has no keys yet.
abbrev pub keyless : KeyMachine
keyless = record {
  files = [];
  srv_keys = record { kyber_pub = []; kyber_priv = [] };
  keys = record { devices = none; server_decap_key = none; server_encap_key = [] };
}
