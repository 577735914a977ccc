-- ===== src/Config/Defaults.antt =====
-- `applyDefaults` of cmd/novakey/config.go.
use nova_key_daemon.Common.{
  ℕ, ◌≡◌, refl, Bool, true, false, not, ◌&&◌, ◌||◌, List, [], ◌∷◌, Option, none, some, arith,
  if◌then◌else◌, ◌==◌, Bytes, ◌=?◌, codes,
}
use nova_key_daemon.Config.{ServerConfig, bool_deref}

abbrev or_text : Bytes → Bytes → Bytes
or_text s def = if s =? [] then def else s

abbrev or_int : ℕ → ℕ → ℕ
or_int n def = if n == 0 then def else n

abbrev or_bool : Option Bool → Bool → Option Bool
or_bool none def = some def
or_bool (some b) def = some b

abbrev pub is_empty : List Bytes → Bool
is_empty [] = true
is_empty (x ∷ xs) = false

-- Each `if` of the source sets one field, and the last reads the list fields, which none sets.
unfoldable pub apply_defaults : ServerConfig → ServerConfig
apply_defaults cfg = record cfg {
  listen_addr = or_text cfg.listen_addr (codes "0.0.0.0:60768");
  max_payload_len = or_int cfg.max_payload_len 4096;
  max_requests_per_min = or_int cfg.max_requests_per_min 60;
  devices_file = or_text cfg.devices_file (codes "devices.json");
  server_keys_file = or_text cfg.server_keys_file (codes "server_keys.json");
  pair_hello_max_per_min = or_int cfg.pair_hello_max_per_min 30;
  log_rotate_mb = or_int cfg.log_rotate_mb 10;
  log_keep = or_int cfg.log_keep 10;
  log_stderr = or_bool cfg.log_stderr true;
  log_redact = or_bool cfg.log_redact true;
  two_man_enabled = or_bool cfg.two_man_enabled true;
  arm_duration_ms = or_int cfg.arm_duration_ms 20000;
  arm_consume_on_inject = or_bool cfg.arm_consume_on_inject true;
  allow_clipboard_when_disarmed = or_bool cfg.allow_clipboard_when_disarmed false;
  allow_clipboard_on_inject_failure = or_bool cfg.allow_clipboard_on_inject_failure false;
  allow_typing_fallback = or_bool cfg.allow_typing_fallback true;
  macos_prefer_clipboard = or_bool cfg.macos_prefer_clipboard true;
  max_inject_len = or_int cfg.max_inject_len 256;
  approve_window_ms = or_int cfg.approve_window_ms 15000;
  approve_consume_on_inject = or_bool cfg.approve_consume_on_inject true;
  use_built_in_allowlist =
      if cfg.target_policy_enabled
        && not cfg.use_built_in_allowlist
        && is_empty cfg.allowed_process_names
        && is_empty cfg.allowed_window_titles
        && is_empty cfg.denied_process_names
        && is_empty cfg.denied_window_titles
      then true
      else cfg.use_built_in_allowlist;
}

or_text_idem : (s def : Bytes) → or_text (or_text s def) def ≡ or_text s def
or_text_idem s def = ground arith

or_int_idem : (n def : ℕ) → or_int (or_int n def) def ≡ or_int n def
or_int_idem n def = ground arith

or_bool_idem : (b : Option Bool) (def : Bool) → or_bool (or_bool b def) def ≡ or_bool b def
or_bool_idem none def = refl
or_bool_idem (some b) def = refl

-- Filling in the defaults twice is filling them in once: a configuration that was completed, saved
-- and loaded again is not changed further.
pub apply_defaults_idem :
    (cfg : ServerConfig) → apply_defaults (apply_defaults cfg) ≡ apply_defaults cfg
unfolding apply_defaults
apply_defaults_idem cfg = simp (or_text_idem, or_int_idem, or_bool_idem) (ground arith)

-- The defaults written into the file's record are those that the readers fall back on, so a missing
-- switch means the same before and after: two-man approval on, both gates consumed by an
-- injection, the clipboard unused, typing allowed.
pub apply_defaults-bool_deref :
    (cfg : ServerConfig)
    → let c = apply_defaults cfg in
      (bool_deref c.two_man_enabled true ≡ bool_deref cfg.two_man_enabled true)
      × (bool_deref c.approve_consume_on_inject true
          ≡ bool_deref cfg.approve_consume_on_inject true)
      × (bool_deref c.arm_consume_on_inject true ≡ bool_deref cfg.arm_consume_on_inject true)
      × (bool_deref c.allow_clipboard_when_disarmed false
          ≡ bool_deref cfg.allow_clipboard_when_disarmed false)
      × (bool_deref c.allow_clipboard_on_inject_failure false
          ≡ bool_deref cfg.allow_clipboard_on_inject_failure false)
      × (bool_deref c.allow_typing_fallback true ≡ bool_deref cfg.allow_typing_fallback true)
unfolding apply_defaults
apply_defaults-bool_deref cfg = ground arith

-- Whether the built-in list is in use, or one of the four lists has an entry, a blank one too.
abbrev pub restricts_targets : ServerConfig → Bool
restricts_targets c =
    c.use_built_in_allowlist
    || not (is_empty c.allowed_process_names)
    || not (is_empty c.allowed_window_titles)
    || not (is_empty c.denied_process_names)
    || not (is_empty c.denied_window_titles)

-- With the target policy on, a completed configuration has the built-in list in use, or an
-- entry in one of the four lists.
pub apply_defaults_restricts :
    (cfg : ServerConfig)
    → cfg.target_policy_enabled ≡ true
    → restricts_targets (apply_defaults cfg) ≡ true
unfolding apply_defaults
apply_defaults_restricts cfg h = ground arith
