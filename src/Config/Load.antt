-- ===== src/Config/Load.antt =====
-- `loadConfig`, `pickConfigPath` and `fileExists` of cmd/novakey/config.go.
pub mod Laws
use nova_key_daemon.Common.{
  ◌≡◌, refl, ap, sym, ◌∙◌, Bool, true, false, ◌||◌, [], ◌∷◌, Option, none, some, if◌then◌else◌,
  Bytes, codes, bytes_dec, ◌=?◌, Result, ok, err, Bool-cases, inl, inr, is_some, arith,
}
use nova_key_daemon.Common.Dict.{Dict, lookup}
use nova_key_daemon.Common.Text.{Unicode, to_lower}
use nova_key_daemon.Config.{ServerConfig}
use nova_key_daemon.Config.Defaults.{apply_defaults}
use nova_key_daemon.Files.{Os, ReadError, read_file}

pub data ConfigError : Type 0 where
  config_not_read config_not_parsed unsupported_extension : ConfigError

-- `json.Unmarshal` and `yaml.Unmarshal` into the record that is there, and `filepath.Ext`.
pub record ConfigFormats : Type 0 where
  pub unicode : Unicode
  pub ext : Bytes → Bytes
  pub unmarshal_json : ServerConfig → Bytes → Option ServerConfig
  pub unmarshal_yaml : ServerConfig → Bytes → Option ServerConfig

-- `os.Stat` succeeds.
abbrev pub file_exists : Dict Bytes → Bytes → Bool
file_exists files path = is_some (lookup path files)

unfoldable pub pick_config_path : Dict Bytes → Bytes
unfolding lookup
pick_config_path files =
    if file_exists files (codes "server_config.yaml")
    then codes "server_config.yaml"
    else if file_exists files (codes "server_config.yml")
    then codes "server_config.yml"
    else codes "server_config.json"

module _ (F : ConfigFormats) where
  abbrev completed : Option ServerConfig → Result ConfigError ServerConfig
  completed none = err config_not_parsed
  completed (some cfg) = ok (apply_defaults cfg)

  abbrev parsed : ServerConfig → Bytes → Bytes → Result ConfigError ServerConfig
  parsed cfg ext b =
      if (ext =? codes ".yaml") || (ext =? codes ".yml")
      then completed (F.unmarshal_yaml cfg b)
      else if ext =? codes ".json"
      then completed (F.unmarshal_json cfg b)
      else err unsupported_extension

  abbrev read_config :
      ServerConfig → Bytes → Result ReadError Bytes → Result ConfigError ServerConfig
  read_config cfg path (err e) = err config_not_read
  read_config cfg path (ok b) = parsed cfg (to_lower F.unicode (F.ext path)) b

  unfoldable pub load_config : Os → Dict Bytes → ServerConfig → Result ConfigError ServerConfig
  unfolding pick_config_path read_file bytes_dec to_lower apply_defaults
  load_config os files cfg =
      read_config cfg (pick_config_path files) (read_file os files (pick_config_path files))
