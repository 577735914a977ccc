-- ===== src/Tests/StoreToy.antt =====
-- Values that meet what the device store asks of its surroundings: formats that hold one device, a
-- machine on which everything works, and a phone's device "d" with a key of 32 bytes.
use nova_key_daemon.Common.{
  ◌≡◌, refl, ap, sym, ◌∙◌, Bool, true, false, List, [], ◌∷◌, ◌++◌, Option, none, some, arith, Bytes,
  codes, length, take, drop, take-append, drop-append, ◌==◌, if◌then◌else◌, All,
}
use nova_key_daemon.Base64.{Base64, IsBase64}
use nova_key_daemon.Files.{Os}
use nova_key_daemon.Message.Crypto.Toy.{toy}
use nova_key_daemon.Devices.{DeviceConfig}
use nova_key_daemon.Devices.Unix.{DeviceFormats, SealedDevicesFileV1, Host, Machine}
use nova_key_daemon.Devices.Unix.Faithful.{IsFaithful, IsHealthy, no_wrapper}

abbrev pub strip_first : Bytes → Option Bytes
strip_first [] = none
strip_first (c ∷ s) = some s

abbrev pub base64 : Base64
base64 = record { encode = λ s. 9 ∷ s; decode = strip_first }

pub base64-IsBase64 : IsBase64 base64
base64-IsBase64 = record { decode-encode = λ s. refl; encode-ne_nil = λ s n e. cc }

abbrev pub any_name : Bytes → Bool
any_name s = true

abbrev pub marshal_one : List DeviceConfig → Option Bytes
marshal_one [] = none
marshal_one (d ∷ []) = some (1 ∷ length d.id ∷ d.id ++ d.key_hex)
marshal_one (d ∷ e ∷ ds) = none

abbrev pub unmarshal_one : Bytes → Option (List DeviceConfig)
unmarshal_one [] = none
unmarshal_one (c ∷ []) = none
unmarshal_one (c ∷ n ∷ rest) =
    if c == 1 then some (record { id = take n rest; key_hex = drop n rest } ∷ []) else none

abbrev pub marshal_wrapper : SealedDevicesFileV1 → Option Bytes
marshal_wrapper w = some (2 ∷ length w.nonce_b64 ∷ w.nonce_b64 ++ w.ct_b64)

abbrev pub unmarshal_wrapper : Bytes → Option SealedDevicesFileV1
unmarshal_wrapper [] = none
unmarshal_wrapper (c ∷ []) = none
unmarshal_wrapper (c ∷ n ∷ rest) =
    if c == 2
    then some (record {
      v = 1;
      alg = codes "xchacha20poly1305";
      nonce_b64 = take n rest;
      ct_b64 = drop n rest;
    })
    else some no_wrapper

abbrev pub toy_formats : DeviceFormats
toy_formats = record {
  base64 = base64;
  marshal_devices = marshal_one;
  unmarshal_devices = unmarshal_one;
  marshal_sealed = marshal_wrapper;
  unmarshal_sealed = unmarshal_wrapper;
}

one_read : (d : DeviceConfig) → unmarshal_one (1 ∷ length d.id ∷ d.id ++ d.key_hex) ≡ some (d ∷ [])
one_read d =
    rw
      (take-append (length d.id) d.id d.key_hex refl, drop-append (length d.id) d.id d.key_hex refl)
      refl

unmarshal-marshal :
    (ds : List DeviceConfig) (b : Bytes) → marshal_one ds ≡ some b → unmarshal_one b ≡ some ds
unmarshal-marshal [] b e = cc
unmarshal-marshal (d ∷ []) b e = ap unmarshal_one (sym (text e)) ∙ one_read d
  where
    text : {x y : Bytes} → some x ≡ some y → x ≡ y
    text h = cc
unmarshal-marshal (d ∷ e ∷ ds) b h = cc

plain_unsealed :
    (ds : List DeviceConfig) (b : Bytes)
    → marshal_one ds ≡ some b
    → unmarshal_wrapper b ≡ some no_wrapper
plain_unsealed [] b e = cc
plain_unsealed (d ∷ []) b e = ap unmarshal_wrapper (sym (text e))
  where
    text : {x y : Bytes} → some x ≡ some y → x ≡ y
    text h = cc
plain_unsealed (d ∷ e ∷ ds) b h = cc

wrapper_read :
    (n c b : Bytes)
    → some (2 ∷ length n ∷ n ++ c) ≡ some b
    → unmarshal_wrapper b
      ≡ some (record { v = 1; alg = codes "xchacha20poly1305"; nonce_b64 = n; ct_b64 = c })
wrapper_read n c b e =
    ap unmarshal_wrapper (sym (text e))
    ∙ rw (take-append (length n) n c refl, drop-append (length n) n c refl) refl
  where
    text : {x y : Bytes} → some x ≡ some y → x ≡ y
    text h = cc

any_name-each : (ds : List DeviceConfig) → All (λ d. any_name d.id ≡ true) ds
any_name-each [] = tt
any_name-each (d ∷ ds) = (refl, any_name-each ds)

pub toy-IsFaithful : IsFaithful any_name toy_formats
toy-IsFaithful = record {
  base64 = base64-IsBase64;
  unmarshal-marshal = λ ds {b} w e. unmarshal-marshal ds b e;
  unmarshal_valid = λ b ds e. any_name-each ds;
  unmarshal-marshal_sealed = λ n c {b} e. wrapper_read (9 ∷ n) (9 ∷ c) b e;
  plain_unsealed = λ ds {b} e. plain_unsealed ds b e;
}

abbrev pub working_os : Os
working_os = record {
  readable = λ p. true;
  writable = λ p. true;
  partial = λ p. none;
  renames = λ p. true;
  removes = λ p. true;
  makes_dir = λ p. true;
  dir = λ p. [];
}

-- Nothing can be written any more.
abbrev pub full_os : Os
full_os = record working_os { writable = λ p. false }

abbrev pub key_hex : Bytes
key_hex = codes "0101010101010101010101010101010101010101010101010101010101010101"

abbrev pub eight : Bytes
eight = 1 ∷ 1 ∷ 1 ∷ 1 ∷ 1 ∷ 1 ∷ 1 ∷ 1 ∷ []

abbrev pub key : Bytes
key = eight ++ (eight ++ (eight ++ eight))

abbrev pub host : Host
host = record {
  os = working_os;
  keyring_reads = true;
  keyring_writes = true;
  load_key = key;
  save_key = key;
  save_nonce = 3 ∷ 4 ∷ [];
}

abbrev pub locked_host : Host
locked_host = record host { keyring_reads = false }

abbrev pub path : Bytes
path = codes "devices.json"

abbrev pub fresh : Machine
fresh = record { files = []; item = none }

pub host-IsHealthy : IsHealthy toy path host host
host-IsHealthy = record {
  reads = refl;
  keyring_later = refl;
  key_sized = refl;
  nonce_sized = refl;
  nonce_pos = omega arith;
  overhead_pos = omega arith;
}

abbrev pub device_d : DeviceConfig
device_d = record { id = codes "d"; key_hex = key_hex }

-- The file of that one device in plain text.
abbrev pub plain_file : Bytes
plain_file = 1 ∷ 1 ∷ codes "d" ++ key_hex
