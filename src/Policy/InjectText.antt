-- ===== src/Policy/InjectText.antt =====
-- cmd/novakey/validate.go.
use nova_key_daemon.Common.{ℕ, ◌≢◌, ◌&&◌, not, if◌then◌else◌, Bytes, codes, length, Result, ok, err}
use nova_key_daemon.Common.Int64
use nova_key_daemon.Common.Text.{contains_any}
use nova_key_daemon.Config.{ServerConfig}

pub data InjectTextError : Type 0 where
  too_long has_newline : InjectTextError

unfoldable pub validate_inject_text : ServerConfig → Bytes → Result InjectTextError (Unit {0})
unfolding contains_any
validate_inject_text cfg s =
    if Int64.lt 0 cfg.max_inject_len && Int64.lt cfg.max_inject_len (length s)
    then err too_long
    else if not cfg.allow_newlines && contains_any s (codes "\r\n")
    then err has_newline
    else ok tt

-- Neither a carriage return nor a line feed.
abbrev pub IsPrintable : ℕ → Type 0
IsPrintable c = (c ≢ 13) × (c ≢ 10)
