-- ===== src/Config.antt =====
-- cmd/novakey/config.go (the record and `applyDefaults`) and helpers_bool.go.
pub mod Defaults
pub mod Load
use nova_key_daemon.Common.{ℕ, Bool, true, false, List, [], ◌∷◌, Option, none, some, Bytes}

-- Go's `int` fields are int64 patterns; a `*bool` is an `Option`.
pub record ServerConfig : Type 0 where
  pub listen_addr : Bytes
  pub max_payload_len : ℕ
  pub max_requests_per_min : ℕ
  pub devices_file : Bytes
  pub server_keys_file : Bytes
  pub require_sealed_device_store : Bool
  pub rotate_kyber_keys : Bool
  pub rotate_device_psk_on_repair : Bool
  pub pair_hello_max_per_min : ℕ
  pub log_file : Bytes
  pub log_dir : Bytes
  pub log_rotate_mb : ℕ
  pub log_keep : ℕ
  pub log_stderr : Option Bool
  pub log_redact : Option Bool
  pub arm_duration_ms : ℕ
  pub arm_consume_on_inject : Option Bool
  pub allow_clipboard_when_disarmed : Option Bool
  pub allow_clipboard_on_inject_failure : Option Bool
  pub allow_typing_fallback : Option Bool
  pub macos_prefer_clipboard : Option Bool
  pub allow_newlines : Bool
  pub max_inject_len : ℕ
  pub two_man_enabled : Option Bool
  pub approve_window_ms : ℕ
  pub approve_consume_on_inject : Option Bool
  pub target_policy_enabled : Bool
  pub use_built_in_allowlist : Bool
  pub allowed_process_names : List Bytes
  pub allowed_window_titles : List Bytes
  pub denied_process_names : List Bytes
  pub denied_window_titles : List Bytes

-- The configuration before a file is read: Go's zero value.
abbrev pub zero_config : ServerConfig
zero_config = record {
  listen_addr = [];
  max_payload_len = 0;
  max_requests_per_min = 0;
  devices_file = [];
  server_keys_file = [];
  require_sealed_device_store = false;
  rotate_kyber_keys = false;
  rotate_device_psk_on_repair = false;
  pair_hello_max_per_min = 0;
  log_file = [];
  log_dir = [];
  log_rotate_mb = 0;
  log_keep = 0;
  log_stderr = none;
  log_redact = none;
  arm_duration_ms = 0;
  arm_consume_on_inject = none;
  allow_clipboard_when_disarmed = none;
  allow_clipboard_on_inject_failure = none;
  allow_typing_fallback = none;
  macos_prefer_clipboard = none;
  allow_newlines = false;
  max_inject_len = 0;
  two_man_enabled = none;
  approve_window_ms = 0;
  approve_consume_on_inject = none;
  target_policy_enabled = false;
  use_built_in_allowlist = false;
  allowed_process_names = [];
  allowed_window_titles = [];
  denied_process_names = [];
  denied_window_titles = [];
}

abbrev pub bool_deref : Option Bool → Bool → Bool
bool_deref none def = def
bool_deref (some b) def = b

abbrev pub allow_clipboard_when_blocked : ServerConfig → Bool
allow_clipboard_when_blocked cfg = bool_deref cfg.allow_clipboard_when_disarmed false

abbrev pub allow_clipboard_on_failure : ServerConfig → Bool
allow_clipboard_on_failure cfg = bool_deref cfg.allow_clipboard_on_inject_failure false
