-- ===== src/Client/Commands.antt =====
-- The commands of cmd/nvclient/main.go and arm.go, and `sendV3OuterFrame`: what is sent, and the exit
-- code.
use nova_key_daemon.Common.{
  ℕ, ◌%◌, ◌^◌, Bool, not, ◌&&◌, List, [], ◌∷◌, ◌++◌, Option, none, some, if◌then◌else◌, ltb, Bytes,
  bytes_dec, ◌=?◌, codes, length, Result, ok, err,
}
use nova_key_daemon.Message.Crypto.{Crypto}
use nova_key_daemon.Message.Wire.{put_u16}
use nova_key_daemon.Router.Laws.{route_line_msg}
use nova_key_daemon.Client.Frame.{
  ClientKeys, ClientError, encode_inner_message_frame, init_crypto_client, encrypt_v3_outer_frame,
  parse_reply_status, is_success,
}

pub record CommonArgs : Type 0 where
  pub addr : Bytes
  pub device_id : Bytes
  pub key_hex : Bytes
  pub server_kyber_pub_b64 : Bytes
  pub password : Bytes

-- What the package `flag` makes of the arguments.
pub record ParsedFlags : Type 0 where
  pub failed : Bool
  pub help : Bool
  pub args : CommonArgs
  pub ms : ℕ

-- Whether the program goes on: `log.Fatal` otherwise.
unfoldable pub require_crypto_inputs : CommonArgs → Bool
unfolding bytes_dec
require_crypto_inputs c =
    not (c.key_hex =? []) && not (c.server_kyber_pub_b64 =? []) && not (c.device_id =? [])

pub data SendError : Type 0 where
  not_encrypted : ClientError → SendError
  frame_too_large no_reply : SendError

-- The bytes of a request: the route line, the length and the frame.
abbrev pub sized_request : Result ClientError Bytes → Result SendError Bytes
sized_request (err e) = err (not_encrypted e)
sized_request (ok frame) =
    if ltb 0xFFFF (length frame)
    then err frame_too_large
    else ok (route_line_msg ++ (put_u16 (length frame % 2 ^ 16) ++ frame))

unfoldable pub request : Crypto → ClientKeys → Bytes → ℕ → Bytes → Bytes → Result SendError Bytes
unfolding encrypt_v3_outer_frame
request C keys rand now nonce inner =
    sized_request (encrypt_v3_outer_frame C keys rand now nonce inner)

-- The libraries and the network: base64, JSON, `%d`, the draws and the clock, and the reply line that
-- comes back for a request to an address, or none where the connection fails.
pub record Remote : Type 0 where
  pub decode_base64 : Bytes → Option Bytes
  pub encapsulation_key_size : ℕ
  pub reply_status : Bytes → Option ℕ
  pub format_int : ℕ → Bytes
  pub rand : Bytes
  pub now : ℕ
  pub nonce : Bytes
  pub exchange : Bytes → Bytes → Option Bytes

module _ (C : Crypto) (R : Remote) where
  abbrev answered : Option Bytes → Result SendError Bytes
  answered none = err no_reply
  answered (some line) = ok line

  abbrev sent : Bytes → Result SendError Bytes → Result SendError Bytes
  sent addr (err e) = err e
  sent addr (ok out) = answered (R.exchange addr out)

  unfoldable pub send_v3_outer_frame : Bytes → ClientKeys → Bytes → Result SendError Bytes
  unfolding request
  send_v3_outer_frame addr keys inner = sent addr (request C keys R.rand R.now R.nonce inner)

  -- The exit code, and the reply line that is printed.
  abbrev replied : Result SendError Bytes → ℕ × List Bytes
  replied (err e) = (1, [])
  replied (ok line) =
      let (st, parsed) = parse_reply_status R.reply_status line in
      if parsed && not (is_success st) then (1, line ∷ []) else (0, line ∷ [])

  abbrev encoded : CommonArgs → ClientKeys → Result ClientError Bytes → ℕ × List Bytes
  encoded c keys (err e) = (1, [])
  encoded c keys (ok inner) = replied (send_v3_outer_frame c.addr keys inner)

  abbrev initialized : CommonArgs → ℕ → Bytes → Result ClientError ClientKeys → ℕ × List Bytes
  initialized c t payload (err e) = (1, [])
  initialized c t payload (ok keys) =
      encoded c keys (encode_inner_message_frame c.device_id t payload)

  -- From the parsed flags on; every command does the same with its type and payload.
  unfoldable pub send_message : CommonArgs → ℕ → Bytes → ℕ × List Bytes
  unfolding require_crypto_inputs init_crypto_client encode_inner_message_frame send_v3_outer_frame
      bytes_dec
  send_message c t payload =
      if not (require_crypto_inputs c)
      then (1, [])
      else initialized c t payload (
          init_crypto_client R.decode_base64 R.encapsulation_key_size c.device_id c.key_hex
            c.server_kyber_pub_b64)

  abbrev command : ParsedFlags → ℕ → Bytes → ℕ × List Bytes
  command p t payload =
      if p.help then (0, []) else if p.failed then (2, []) else send_message p.args t payload

  abbrev pub arm_payload : ℕ → Bytes
  arm_payload ms = codes "{\"ms\":" ++ (R.format_int ms ++ codes "}")

  unfoldable pub cmd_arm : ParsedFlags → ℕ × List Bytes
  unfolding send_message
  cmd_arm p = command p 3 (arm_payload p.ms)

  unfoldable pub cmd_approve : ParsedFlags → ℕ × List Bytes
  unfolding send_message
  cmd_approve p = command p 2 []

  unfoldable pub cmd_disarm : ParsedFlags → ℕ × List Bytes
  unfolding send_message
  cmd_disarm p = command p 4 []

  -- `main` without a subcommand: a failed parse ends it at once.
  unfoldable pub main_inject : ParsedFlags → ℕ × List Bytes
  unfolding send_message
  main_inject p =
      if p.failed
      then (2, [])
      else if p.help
      then (0, [])
      else send_message p.args 1 p.args.password
