-- ===== src/Tests.antt =====
-- The results at concrete values: a registered device "d", the client's keys for it, and the bytes
-- that it sends.
mod StoreToy
mod StoreTests
mod LogFileTests
mod ServedTests
mod WindowsTests
mod KeysToy
mod KeysTests
mod PairingTests
mod GateTests
mod MessageTests
mod HandlerTests
mod ConfigTests
mod LoggingTests
mod PairTokenTests
use nova_key_daemon.Common.{
  ℕ, Bool, true, false, Option, none, some, [], ◌∷◌, ◌++◌, Bytes, codes, length, Result, ok,
}
use nova_key_daemon.Common.Text.{Unicode}
use nova_key_daemon.Config.{ServerConfig, zero_config}
use nova_key_daemon.Client.Frame.{ClientKeys}
use nova_key_daemon.Gates.Arm.{ArmGate}
use nova_key_daemon.Gates.TwoMan.{TwoManGate}
use nova_key_daemon.Message.Freshness.{no_requests}
use nova_key_daemon.Message.Outer.{DeviceState, KeyStore}
use nova_key_daemon.Handler.{Desktop, Clock, Daemon, direct}
use nova_key_daemon.Handler.Serve.{Input, Formats}

abbrev pub device : DeviceState
device = record { id = codes "d"; static_key = 1 ∷ 2 ∷ [] }

abbrev pub store : KeyStore
store = record {
  devices = some ((codes "d", device) ∷ []);
  server_decap_key = some (8 ∷ []);
  server_encap_key = 8 ∷ [];
}

abbrev pub client_keys : ClientKeys
client_keys = record {
  client_device_id = codes "d";
  device_static_key = 1 ∷ 2 ∷ [];
  server_encap_key = 8 ∷ [];
}

-- The header of "d" with the toy's ciphertext of two bytes.
abbrev pub header_d : Bytes
header_d = 3 ∷ 1 ∷ 1 ∷ 100 ∷ 0 ∷ 2 ∷ 7 ∷ 9 ∷ []

-- What is behind the tag: second 1000, and a message of "d" with a payload of one byte.
abbrev pub plaintext_of : ℕ → ℕ → Bytes
plaintext_of t c = 0 ∷ 0 ∷ 0 ∷ 0 ∷ 0 ∷ 0 ∷ 3 ∷ 232 ∷ 1 ∷ t ∷ 0 ∷ 1 ∷ 0 ∷ 0 ∷ 0 ∷ 1 ∷ 100 ∷ c ∷ []

abbrev pub frame_with : ℕ → ℕ → Bytes
frame_with t c = header_d ++ (5 ∷ 6 ∷ 9 ∷ 8 ∷ plaintext_of t c)

abbrev pub input_with : ℕ → ℕ → Input
input_with t c = record { sent = 0 ∷ 30 ∷ frame_with t c; closed = true }

-- The library calls: no text beyond ASCII, no JSON and no numbers are used here.
abbrev pub formats : Formats
formats = record {
  unicode = record { lower = λ s. s; trim = λ s. s; fields = λ s. s ∷ [] };
  arm_ms = λ s. none;
  format_int = λ n. n ∷ [];
}

abbrev pub desk : Desktop
desk = record {
  focused = some (codes "/usr/bin/Notes", codes "todo");
  xdg_session_type = codes "x11";
  wayland_display = [];
  clipboard_works = true;
  injection = ok direct;
}

abbrev pub clock : Clock
clock = record { unix = 1000; unix_reply = 1001; cleanup = 50; approval = 50; arm = 50 }

-- Two-man mode is on and the target policy off; the gates are open until 90.
abbrev pub config : ServerConfig
config = record zero_config { max_payload_len = 4096; max_inject_len = 256 }

abbrev pub daemon : Daemon
daemon = record {
  cfg = config;
  keys = store;
  requests = no_requests;
  arm_gate = record { armed_until = 90 };
  approval_gate = record { until = (codes "d", 90) ∷ [] };
  global_req_id = 6;
}

-- Nobody armed or approved yet.
abbrev pub closed_daemon : Daemon
closed_daemon = record daemon {
  arm_gate = record { armed_until = 0 };
  approval_gate = record { until = [] };
}
