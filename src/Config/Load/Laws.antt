-- ===== src/Config/Load/Laws.antt =====
-- Every configuration that is loaded is a completed one.
use nova_key_daemon.Common.{
  ◌≡◌, refl, ap, sym, ◌∙◌, Bool, true, false, ◌||◌, Option, none, some, if◌then◌else◌, Bytes, codes,
  ◌=?◌, Result, ok, err,
}
use nova_key_daemon.Common.Dict.{Dict}
use nova_key_daemon.Common.Text.{to_lower}
use nova_key_daemon.Config.{ServerConfig}
use nova_key_daemon.Config.Defaults.{apply_defaults, restricts_targets, apply_defaults_restricts}
use nova_key_daemon.Files.{Os, ReadError, read_file}
use nova_key_daemon.Config.Load.{
  ConfigFormats, ConfigError, completed, parsed, read_config, pick_config_path, load_config,
}

-- What a loaded configuration is: the defaults are filled in.
pub record IsCompleted (out : ServerConfig) : Type 0 where
  pub cfg : ServerConfig
  pub same : apply_defaults cfg ≡ out

module _ (F : ConfigFormats) (cfg out : ServerConfig) where
  completed-IsCompleted : (o : Option ServerConfig) → completed F o ≡ ok out → IsCompleted out
  completed-IsCompleted none h = cc
  completed-IsCompleted (some c) h = record { cfg = c; same = cc }

  parsed-IsCompleted : (ext b : Bytes) → parsed F cfg ext b ≡ ok out → IsCompleted out
  parsed-IsCompleted ext b h =
      by_ext ((ext =? codes ".yaml") || (ext =? codes ".yml")) (ext =? codes ".json") h
    where
      by_ext :
          (x y : Bool)
          → (if x
              then completed F (F.unmarshal_yaml cfg b)
              else if y
              then completed F (F.unmarshal_json cfg b)
              else err ConfigError.unsupported_extension)
            ≡ ok out
          → IsCompleted out
      by_ext true y h = completed-IsCompleted (F.unmarshal_yaml cfg b) h
      by_ext false true h = completed-IsCompleted (F.unmarshal_json cfg b) h
      by_ext false false h = cc

  read_config-IsCompleted :
      (path : Bytes) (r : Result ReadError Bytes)
      → read_config F cfg path r ≡ ok out
      → IsCompleted out
  read_config-IsCompleted path (err e) h = cc
  read_config-IsCompleted path (ok b) h = parsed-IsCompleted (to_lower F.unicode (F.ext path)) b h

  load_config-IsCompleted :
      (os : Os) (files : Dict Bytes) → load_config F os files cfg ≡ ok out → IsCompleted out
  unfolding load_config
  load_config-IsCompleted os files h =
      read_config-IsCompleted (pick_config_path files) (read_file os files (pick_config_path files))
        h

  completed_enabled :
      (c : ServerConfig) → (apply_defaults c).target_policy_enabled ≡ c.target_policy_enabled
  unfolding apply_defaults
  completed_enabled c = refl

  -- A configuration that is loaded with the target policy on has the built-in list in use, or an entry
  -- in one of the four lists.
  pub load_config-restricts_targets :
      (os : Os) (files : Dict Bytes)
      → load_config F os files cfg ≡ ok out
      → out.target_policy_enabled ≡ true
      → restricts_targets out ≡ true
  load_config-restricts_targets os files h e =
      let c = load_config-IsCompleted os files h in
      sym (ap restricts_targets c.same)
      ∙ apply_defaults_restricts c.cfg
          (sym (completed_enabled c.cfg) ∙ ap (λ x. x.target_policy_enabled) c.same ∙ e)
