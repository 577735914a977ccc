-- ===== src/Devices/Unix/Faithful.antt =====
-- What the store relies on: of the formats, and of the machine.
use nova_key_daemon.Common.{◌<◌, ◌≡◌, Bool, true, List, [], some, Bytes, codes, length, All}
use nova_key_daemon.Base64.{IsBase64}
use nova_key_daemon.Message.Crypto.{Crypto}
use nova_key_daemon.Devices.{DeviceConfig}
use nova_key_daemon.Devices.Write.{IsWritable}
use nova_key_daemon.Devices.Unix.{DeviceFormats, Host, SealedDevicesFileV1}

abbrev pub no_wrapper : SealedDevicesFileV1
no_wrapper = record { v = 0; alg = []; nonce_b64 = []; ct_b64 = [] }

-- What `encoding/json` documents: texts that are valid UTF-8 are read back, a name that is read is
-- valid UTF-8, and a file of devices names no field of a wrapper.
pub record IsFaithful (valid : Bytes → Bool) (F : DeviceFormats) : Type 0 where
  pub base64 : IsBase64 F.base64
  pub unmarshal-marshal :
      (ds : List DeviceConfig) {b : Bytes}
      → IsWritable valid ds
      → F.marshal_devices ds ≡ some b
      → F.unmarshal_devices b ≡ some ds
  pub unmarshal_valid :
      (b : Bytes) (ds : List DeviceConfig)
      → F.unmarshal_devices b ≡ some ds
      → All (λ d. valid d.id ≡ true) ds
  pub unmarshal-marshal_sealed :
      (nonce ct : Bytes) {b : Bytes}
      → F.marshal_sealed (record {
        v = 1;
        alg = codes "xchacha20poly1305";
        nonce_b64 = F.base64.encode nonce;
        ct_b64 = F.base64.encode ct;
      })
        ≡ some b
      → F.unmarshal_sealed b
        ≡ some (record {
          v = 1;
          alg = codes "xchacha20poly1305";
          nonce_b64 = F.base64.encode nonce;
          ct_b64 = F.base64.encode ct;
        })
  pub plain_unsealed :
      (ds : List DeviceConfig) {b : Bytes}
      → F.marshal_devices ds ≡ some b
      → F.unmarshal_sealed b ≡ some no_wrapper

-- A machine on which an operation works: the file can be read, and the keyring too. `now` is the host
-- of the save and `later` that of the load; the key and the nonce are drawn at their sizes.
pub record IsHealthy (C : Crypto) (path : Bytes) (now later : Host) : Type 0 where
  pub reads : later.os.readable path ≡ true
  pub keyring_later : later.keyring_reads ≡ true
  pub key_sized : length now.save_key ≡ 32
  pub nonce_sized : length now.save_nonce ≡ C.nonce_size
  pub nonce_pos : 0 < C.nonce_size
  pub overhead_pos : 0 < C.overhead
