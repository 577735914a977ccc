-- ===== src/Handler.antt =====
-- `handleMsgConn` of cmd/novakey/msg_handler.go, one connection to "/msg" from its first byte to
-- its reply.
--
-- What the platform answers (the focused window, the clipboard, the injection, the session's
-- environment variables) and every reading of the clock is an argument; what the handler does to
-- the outside is the list of its actions, in order. Logging is left out, as if each log call
-- returned. One call is one connection: the handler of the source may run for several at once, and
-- the gates, which have their own locks, are then called in any order (see Gates).
pub mod Reply
pub mod Actions
pub mod Inject
pub mod Serve
-- The answers to the calls, and the actions.
use nova_key_daemon.Common.{ℕ, Bool, Option, Bytes, List, Result}
use nova_key_daemon.Config.{ServerConfig}
use nova_key_daemon.Gates.Arm.{ArmGate}
use nova_key_daemon.Gates.TwoMan.{TwoManGate}
use nova_key_daemon.Message.Freshness.{ReplayState}
use nova_key_daemon.Message.Outer.{KeyStore}
use nova_key_daemon.Handler.Reply.{ServerReply}

-- `InjectMethod`; `other_method` is any string that is none of the three.
pub data InjectMethod : Type 0 where
  direct typing clipboard other_method : InjectMethod

-- `errors.Is(err, ErrInjectUnavailableWayland)`, or any other error.
pub data InjectError : Type 0 where
  unavailable_wayland inject_failed : InjectError

pub record Desktop : Type 0 where
  -- `getFocusedTarget()`: process name and window title
  pub focused : Option (Bytes × Bytes)
  pub xdg_session_type : Bytes
  pub wayland_display : Bytes
  -- whether `trySetClipboard` succeeds
  pub clipboard_works : Bool
  -- `InjectPasswordToFocusedControl`
  pub injection : Result InjectError InjectMethod

-- The readings of the clock in a call: `Unix()` for the freshness test and for the reply, and those
-- of the gates.
pub record Clock : Type 0 where
  pub unix : ℕ
  pub unix_reply : ℕ
  pub cleanup : ℕ
  pub approval : ℕ
  pub arm : ℕ

pub data Action : Type 0 where
  try_set_clipboard : Bytes → Action
  inject_password : Bytes → Action
  reply : ServerReply → Action

-- The daemon's global variables that the handler reads or writes.
pub record Daemon : Type 0 where
  pub cfg : ServerConfig
  pub keys : KeyStore
  pub requests : ReplayState
  pub arm_gate : ArmGate
  pub approval_gate : TwoManGate
  pub global_req_id : ℕ
