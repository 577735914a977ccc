-- ===== src/Handler/Reply.antt =====
-- cmd/novakey/reply.go and response.go: the one line that answers a request.
use nova_key_daemon.Common.{ℕ, [], ◌++◌, if◌then◌else◌, Bytes, codes, bytes_dec, ◌=?◌}

abbrev pub reply_version : ℕ
reply_version = 1

pub data RespStatus : Type 0 where
  status_ok status_not_armed status_needs_approve status_not_paired status_bad_request
        status_bad_timestamp status_replay status_rate_limit status_crypto_fail status_ok_clipboard
        status_internal :
      RespStatus

-- `uint8(st)`
abbrev pub status_code : RespStatus → ℕ
status_code status_ok = 0
status_code status_not_armed = 1
status_code status_needs_approve = 2
status_code status_not_paired = 3
status_code status_bad_request = 4
status_code status_bad_timestamp = 5
status_code status_replay = 6
status_code status_rate_limit = 7
status_code status_crypto_fail = 8
status_code status_ok_clipboard = 9
status_code status_internal = 127

pub data ReplyStage : Type 0 where
  stage_msg stage_inject stage_approve stage_arm stage_disarm : ReplyStage

pub data ReplyReason : Type 0 where
  reason_ok reason_clipboard_fallback reason_typing_fallback reason_inject_unavailable_wayland
        reason_not_armed reason_needs_approve reason_not_paired reason_bad_request
        reason_bad_timestamp reason_replay reason_rate_limit reason_crypto_fail reason_internal :
      ReplyReason

-- `string(reason)`
abbrev pub reason_text : ReplyReason → Bytes
reason_text reason_ok = codes "ok"
reason_text reason_clipboard_fallback = codes "clipboard_fallback"
reason_text reason_typing_fallback = codes "typing_fallback"
reason_text reason_inject_unavailable_wayland = codes "inject_unavailable_wayland"
reason_text reason_not_armed = codes "not_armed"
reason_text reason_needs_approve = codes "needs_approve"
reason_text reason_not_paired = codes "not_paired"
reason_text reason_bad_request = codes "bad_request"
reason_text reason_bad_timestamp = codes "bad_timestamp"
reason_text reason_replay = codes "replay"
reason_text reason_rate_limit = codes "rate_limit"
reason_text reason_crypto_fail = codes "crypto_fail"
reason_text reason_internal = codes "internal_error"

pub record ServerReply : Type 0 where
  pub v : ℕ
  pub status : ℕ
  pub stage : ReplyStage
  pub reason : ReplyReason
  pub msg : Bytes
  pub ts_unix : ℕ
  pub req_id : ℕ

abbrev pub downgrade : ReplyReason → Bytes → ReplyReason × Bytes
downgrade reason msg = (
  reason_ok,
  codes "reason=" ++ reason_text reason ++ codes "; " ++ (if msg =? [] then codes "error" else msg),
)

-- The reasons that most clients know stay as they are.
unfoldable pub safe_reason_for_client : RespStatus → ReplyReason → Bytes → ReplyReason × Bytes
unfolding bytes_dec
safe_reason_for_client st reason_ok msg = (reason_ok, msg)
safe_reason_for_client st reason_not_armed msg = (reason_not_armed, msg)
safe_reason_for_client st reason_needs_approve msg = (reason_needs_approve, msg)
safe_reason_for_client st reason_clipboard_fallback msg = (reason_clipboard_fallback, msg)
safe_reason_for_client st reason_typing_fallback msg = (reason_typing_fallback, msg)
safe_reason_for_client st reason_inject_unavailable_wayland msg =
    (reason_inject_unavailable_wayland, msg)
safe_reason_for_client st reason msg = downgrade reason msg

-- The arguments after the request's number and before the status: the clock (`time.Now().Unix()`).
unfoldable pub make_reply : ℕ → ℕ → RespStatus → ReplyStage → ReplyReason → Bytes → ServerReply
unfolding safe_reason_for_client
make_reply req_id now st stage reason msg =
    let (safe_reason, safe_msg) = safe_reason_for_client st reason msg in
    record {
      v = reply_version;
      status = status_code st;
      stage = stage;
      reason = safe_reason;
      msg = safe_msg;
      ts_unix = now;
      req_id = req_id;
    }
