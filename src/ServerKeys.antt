-- ===== src/ServerKeys.antt =====
-- cmd/novakey/keys.go: the server's key pair, read from its file or made.
pub mod Laws
pub mod Reload
use nova_key_daemon.Common.{
  ℕ, Bool, true, false, not, ◌&&◌, ◌||◌, [], ◌∷◌, Option, none, some, Bytes, codes, bytes_dec, ◌=?◌,
  ◌==◌, length, if◌then◌else◌, Result, ok, err,
}
use nova_key_daemon.Common.Dict.{Dict}
use nova_key_daemon.Base64.{Base64}
use nova_key_daemon.Files.{
  Os, ReadError, not_exist, unreadable, read_file, write_file, rename_file, tmp_of,
}
use nova_key_daemon.Message.Crypto.{Crypto}
use nova_key_daemon.Message.Outer.{KeyStore}

pub record ServerKeys : Type 0 where
  pub kyber_pub : Bytes
  pub kyber_priv : Bytes

pub data KeysError : Type 0 where
  keys_read_failed keys_parse_failed keys_missing : KeysError
  priv_bad_base64 priv_wrong_length priv_rejected : KeysError
  pub_bad_base64 pub_wrong_length keys_mismatch : KeysError
  generate_failed marshal_failed keys_write_failed keys_rename_failed : KeysError

-- The calls of `encoding/json`, `encoding/base64` and `mlkem768`. `unmarshal_keys` writes into the
-- record that is there, also where it fails.
pub record KeyFormats : Type 0 where
  pub base64 : Base64
  pub marshal_keys : ServerKeys → Option Bytes
  pub unmarshal_keys : ServerKeys → Bytes → Bool × ServerKeys
  pub seed_size : ℕ
  pub encapsulation_key_size : ℕ
  pub new_key_from_seed : Bytes → Option Bytes
  pub seed_of : Bytes → Bytes

-- The files, `srvKeys`, and the keys in use.
pub record KeyMachine : Type 0 where
  pub files : Dict Bytes
  pub srv_keys : ServerKeys
  pub keys : KeyStore

module _ (C : Crypto) (F : KeyFormats) where
  abbrev pub_checked : Bytes → Option Bytes → KeyMachine → Result KeysError (Unit {0}) × KeyMachine
  pub_checked dk none M = (err pub_bad_base64, M)
  pub_checked dk (some pub_bytes) M =
      if not (length pub_bytes == F.encapsulation_key_size)
      then (err pub_wrong_length, M)
      else if length (C.encapsulation_key dk) == length pub_bytes
          && not (C.encapsulation_key dk =? pub_bytes)
      then (err keys_mismatch, M)
      else (ok tt, record M { keys = record M.keys { server_encap_key = pub_bytes } })

  -- The decapsulation key is in use from here on, whatever the rest finds.
  abbrev key_made : Option Bytes → KeyMachine → Result KeysError (Unit {0}) × KeyMachine
  key_made none M = (err priv_rejected, M)
  key_made (some dk) M =
      pub_checked dk (F.base64.decode M.srv_keys.kyber_pub)
        (record M { keys = record M.keys { server_decap_key = some dk } })

  abbrev seed_checked : Option Bytes → KeyMachine → Result KeysError (Unit {0}) × KeyMachine
  seed_checked none M = (err priv_bad_base64, M)
  seed_checked (some seed) M =
      if not (length seed == F.seed_size)
      then (err priv_wrong_length, M)
      else key_made (F.new_key_from_seed seed) M

  unfoldable pub materialize_server_keys : KeyMachine → Result KeysError (Unit {0}) × KeyMachine
  unfolding bytes_dec
  materialize_server_keys M = seed_checked (F.base64.decode M.srv_keys.kyber_priv) M

  module _ (os : Os) where
    -- A temporary file that cannot be renamed stays.
    abbrev renamed_keys : Bool × Dict Bytes → KeyMachine → Result KeysError (Unit {0}) × KeyMachine
    renamed_keys (false, files) M = (err keys_rename_failed, record M { files = files })
    renamed_keys (true, files) M = materialize_server_keys (record M { files = files })

    abbrev written_keys :
        Bytes → Bool × Dict Bytes → KeyMachine → Result KeysError (Unit {0}) × KeyMachine
    written_keys path (false, files) M = (err keys_write_failed, record M { files = files })
    written_keys path (true, files) M = renamed_keys (rename_file os (tmp_of path) path files) M

    abbrev put_keys : Bytes → Option Bytes → KeyMachine → Result KeysError (Unit {0}) × KeyMachine
    put_keys path none M = (err marshal_failed, M)
    put_keys path (some b) M = written_keys path (write_file os (tmp_of path) b M.files) M

    abbrev key_texts : Bytes → ServerKeys
    key_texts dk = record {
      kyber_pub = F.base64.encode (C.encapsulation_key dk);
      kyber_priv = F.base64.encode (F.seed_of dk);
    }

    -- `mlkem768.GenerateKey` is the second argument.
    unfoldable pub generate_and_save_server_keys :
        Bytes → Option Bytes → KeyMachine → Result KeysError (Unit {0}) × KeyMachine
    unfolding write_file rename_file materialize_server_keys
    generate_and_save_server_keys path none M = (err generate_failed, M)
    generate_and_save_server_keys path (some dk) M =
        put_keys path (F.marshal_keys (key_texts dk)) (record M { srv_keys = key_texts dk })

    abbrev parsed_keys : Bool × ServerKeys → KeyMachine → Result KeysError (Unit {0}) × KeyMachine
    parsed_keys (false, ks) M = (err keys_parse_failed, record M { srv_keys = ks })
    parsed_keys (true, ks) M =
        if (ks.kyber_pub =? []) || (ks.kyber_priv =? [])
        then (err keys_missing, record M { srv_keys = ks })
        else materialize_server_keys (record M { srv_keys = ks })

    abbrev read_keys :
        Bytes
        → Option Bytes
        → Result ReadError Bytes
        → KeyMachine
        → Result KeysError (Unit {0}) × KeyMachine
    read_keys path drawn (err not_exist) M = generate_and_save_server_keys path drawn M
    read_keys path drawn (err unreadable) M = (err keys_read_failed, M)
    read_keys path drawn (ok b) M = parsed_keys (F.unmarshal_keys M.srv_keys b) M

    abbrev keys_path : Bytes → Bytes
    keys_path path = if path =? [] then codes "server_keys.json" else path

    unfoldable pub load_or_create_server_keys :
        Bool → Bytes → Option Bytes → KeyMachine → Result KeysError (Unit {0}) × KeyMachine
    unfolding generate_and_save_server_keys read_file materialize_server_keys bytes_dec
    load_or_create_server_keys rotate path drawn M =
        if rotate
        then generate_and_save_server_keys (keys_path path) drawn M
        else read_keys (keys_path path) drawn (read_file os M.files (keys_path path)) M
