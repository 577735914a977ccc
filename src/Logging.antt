-- ===== src/Logging.antt =====
-- The key/value redaction of cmd/novakey/logging.go, which every log line passes.
pub mod Marked
pub mod Endless
pub mod Hints
use nova_key_daemon.Common.{
  ℕ, zero, suc, ◌+◌, Bool, true, false, ◌||◌, ◌&&◌, not, ◌/◌, ◌%◌, leb, List, [], ◌∷◌, ◌++◌, Option,
  none, some, if◌then◌else◌, ltb, ◌==◌, Bytes, codes, length, take, drop,
}
use nova_key_daemon.Common.Text.{Unicode, to_lower, index, holds_byte}

-- Space, tab, carriage return, newline, and `,"'&?#;)]}`.
abbrev pub delimiters : Bytes
delimiters = 32 ∷ 9 ∷ 13 ∷ 10 ∷ 44 ∷ 34 ∷ 39 ∷ 38 ∷ 63 ∷ 35 ∷ 59 ∷ 41 ∷ 93 ∷ 125 ∷ []

-- How far the inner loop runs: `end - start`.
unfoldable pub value_length : Bytes → ℕ
value_length [] = 0
value_length (c ∷ s) = let n = value_length s in if holds_byte c delimiters then 0 else n + 1

abbrev pub mark : Bytes
mark = codes "[REDACTED]"

-- A line whose value behind `start` is replaced, or none where the value is empty.
unfoldable pub replace_value : ℕ → Bytes → Option Bytes
unfolding value_length
replace_value start out =
    let rest = drop start out in
    if ltb 0 (value_length rest)
    then some (take start out ++ (mark ++ drop (value_length rest) rest))
    else none

abbrev pub redact_at : Bytes → Bytes → Option ℕ → Option Bytes
redact_at k out none = none
redact_at k out (some idx) = replace_value (idx + length k) out

-- One round of the loop for a key: none is `break`.
unfoldable pub redact_step : Unicode → Bytes → Bytes → Option Bytes
redact_step u k out = redact_at k out (index (to_lower u out) k)

-- `break`, or the next round.
abbrev pub redact_more : (Bytes → Option Bytes) → Bytes → Option Bytes → Option Bytes
redact_more next out none = some out
redact_more next out (some out') = next out'

-- The loop for a key; none where the fuel runs out.
unfoldable pub redact_key : Unicode → ℕ → Bytes → Bytes → Option Bytes
redact_key u zero k out = none
redact_key u (suc fuel) k out =
    redact_more (λ out'. redact_key u fuel k out') out (redact_step u k out)

abbrev pub redact_rest : (Bytes → Option Bytes) → Option Bytes → Option Bytes
redact_rest next none = none
redact_rest next (some out) = next out

unfoldable pub redact_keys : Unicode → ℕ → List Bytes → Bytes → Option Bytes
redact_keys u fuel [] out = some out
redact_keys u fuel (k ∷ ks) out =
    redact_rest (λ out'. redact_keys u fuel ks out') (redact_key u fuel k out)

abbrev pub hint_keys : List Bytes
hint_keys =
    codes "password="
    ∷ codes "pass="
    ∷ codes "secret="
    ∷ codes "token="
    ∷ codes "key_hex="
    ∷ codes "kyber="
    ∷ codes "aead="
    ∷ []

unfoldable pub redact_key_value_hints : Unicode → ℕ → Bytes → Option Bytes
unfolding redact_keys
redact_key_value_hints u fuel s = redact_keys u fuel hint_keys s

-- `blobChars`
abbrev pub is_blob_char : ℕ → Bool
is_blob_char c =
    (leb 65 c && leb c 90)
    || (leb 97 c && leb c 122)
    || (leb 48 c && leb c 57)
    || holds_byte c (codes "+/=_-")

-- A run that has ended.
abbrev pub end_run : Bytes → Bytes
end_run run = if leb 120 (length run) then codes "[REDACTED_BLOB]" else run

-- The run so far, and the rest of the text.
unfoldable pub redact_runs : Bytes → Bytes → Bytes
redact_runs run [] = end_run run
redact_runs run (c ∷ s) =
    let longer = redact_runs (run ++ (c ∷ [])) s in
    let fresh = redact_runs [] s in if is_blob_char c then longer else end_run run ++ (c ∷ fresh)

unfoldable pub redact_long_blobs : Bytes → Bytes
unfolding redact_runs
redact_long_blobs s = redact_runs [] s

-- The loop of `itoa64`, whose buffer has 20 bytes, as many as the digits of 2 ^ 64.
unfoldable pub itoa_digits : ℕ → ℕ → Bytes → Bytes
itoa_digits zero v buf = buf
itoa_digits (suc fuel) v buf =
    let rest = itoa_digits fuel (v / 10) ((48 + v % 10) ∷ buf) in if v == 0 then buf else rest

unfoldable pub itoa64 : ℕ → Bytes
unfolding itoa_digits
itoa64 v = if v == 0 then codes "0" else itoa_digits 20 v []

unfoldable pub format_req_id : ℕ → Bytes
unfolding itoa64
format_req_id id = codes "req:" ++ itoa64 id

abbrev pub logging_redact_enabled : Option Bool → Bool
logging_redact_enabled none = true
logging_redact_enabled (some b) = b

-- `redactLine`; the replacement of the secrets is the argument `replace_secrets`, and none is a
-- call that does not return.
unfoldable pub redact_line : Unicode → ℕ → Option Bool → (Bytes → Bytes) → Bytes → Option Bytes
unfolding redact_long_blobs redact_key_value_hints
redact_line u fuel log_redact replace_secrets line =
    if not (logging_redact_enabled log_redact)
    then some line
    else redact_key_value_hints u fuel (redact_long_blobs (replace_secrets line))
