-- ===== src/Tests/LoggingTests.antt =====
-- Log lines with and without a value behind a key.
use nova_key_daemon.Common.{◌≡◌, refl, none, some, Bytes, codes, bytes_dec, arith}
use nova_key_daemon.Common.Text.{is_ascii, to_lower, index}
use nova_key_daemon.Logging.{replace_value, redact_step, redact_key_value_hints}
use nova_key_daemon.Logging.Hints.{redact_key_value_hints_endless}
use nova_key_daemon.Tests.{formats}

abbrev line : Bytes
line = codes "GET /pair?token=AAA done"

replaced :
    redact_step formats.unicode (codes "token=") line
    ≡ some (codes "GET /pair?token=[REDACTED] done")
unfolding redact_step to_lower index replace_value
replaced = refl

redact_key_value_hints_endless_example : redact_key_value_hints formats.unicode 1000 line ≡ none
unfolding is_ascii bytes_dec
redact_key_value_hints_endless_example =
    redact_key_value_hints_endless formats.unicode 1000 line (codes "token=") refl refl
      (λ e. ground (arith, replaced))
