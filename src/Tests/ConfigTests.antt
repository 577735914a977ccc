-- ===== src/Tests/ConfigTests.antt =====
-- The configuration and the policies at concrete values.
use nova_key_daemon.Common.{
  ◌≡◌, ◌↔◌, inl, refl, bytes_dec, true, [], ◌∷◌, some, codes, ok, err, Bytes, none,
}
use nova_key_daemon.Common.Int64
use nova_key_daemon.Config.{ServerConfig}
use nova_key_daemon.Config.Defaults.{apply_defaults}
use mathlib.Core.List.Memᴰ
use nova_key_daemon.Common.Text.{
  to_lower, trim_space, trim_suffix, is_ascii, trim_left, trim_right, lower_byte,
}
use nova_key_daemon.Policy.Target.{denied, built_in, enforce_target_policy}
use nova_key_daemon.Policy.Target.Rules.{program_name, NamesProgram, Denied, Permitted}
use nova_key_daemon.Policy.Target.Correct.{enforce_target_policy_iff}
use nova_key_daemon.Policy.Target.Loaded.{load_config-built_in}
use nova_key_daemon.Common.Dict.{Dict, lookup}
use nova_key_daemon.Config.Load.{ConfigFormats, load_config}
use nova_key_daemon.Tests.StoreToy.{working_os}
use nova_key_daemon.Tests.{config, formats}

abbrev policy_config : ServerConfig
policy_config = record config {
  target_policy_enabled = true;
  denied_process_names = codes "Notes.exe" ∷ [];
}

-- The policy is on, the built-in list off, and there are no rules.
abbrev bare_config : ServerConfig
bare_config = record config { target_policy_enabled = true }

-- JSON that holds the configuration.
abbrev config_formats : ConfigFormats
config_formats = record {
  unicode = formats.unicode;
  ext = λ p. codes ".JSON";
  unmarshal_json = λ old b. some bare_config;
  unmarshal_yaml = λ old b. none;
}

abbrev config_files : Dict Bytes
config_files = (codes "server_config.json", []) ∷ []

load_config-built_in_example :
    (enforce_target_policy formats.unicode
        (apply_defaults bare_config)
        (some (codes "bash", codes "todo"))
      ≡ ok tt)
    ↔ NamesProgram formats.unicode (codes "bash") built_in
unfolding load_config apply_defaults lookup
load_config-built_in_example =
    load_config-built_in config_formats config (apply_defaults bare_config) working_os config_files
      formats.unicode (codes "bash") (codes "todo") refl refl
      (record {
        allowed_processes = refl;
        allowed_titles = refl;
        denied_processes = refl;
        denied_titles = refl;
      })

enforce_target_policy_iff_example :
    ((enforce_target_policy formats.unicode policy_config (some (codes "/opt/notes", codes "todo"))
        ≡ ok tt)
      ↔ Permitted formats.unicode policy_config (codes "/opt/notes") (codes "todo"))
    × ((enforce_target_policy formats.unicode policy_config
            (some (codes "/opt/notes", codes "todo"))
          ≡ err denied)
        ↔ Denied formats.unicode policy_config (codes "/opt/notes") (codes "todo"))
enforce_target_policy_iff_example =
    enforce_target_policy_iff formats.unicode policy_config (codes "/opt/notes") (codes "todo") refl

-- The denied name is that of the focused program.
notes-Denied : Denied formats.unicode policy_config (codes "/opt/notes") (codes "todo")
unfolding program_name trim_space to_lower trim_suffix is_ascii trim_left trim_right lower_byte
    bytes_dec
notes-Denied = inl (codes "Notes.exe", Memᴰ.head refl, refl, λ e. cc)
