-- ===== src/Common/Text.antt =====
-- The functions of Go's `strings` that the daemon calls. On ASCII text `ToLower`, `TrimSpace` and
-- `Fields` are written out; on other text they go by Unicode tables, which are the argument `u`.
pub mod Search
use Prim.Native.Nat.{ℕ, suc, ◌+◌, ◌-◌}
use mathlib.Core.Bool.{Bool, true, false, ◌&&◌, ◌||◌}
use mathlib.Core.Option.{Option, none, some}
use mathlib.Core.List.{List, [], ◌∷◌, ◌++◌, map}
use mathlib.Core.Option
use nova_key_daemon.Common.Tests.{ltb, leb, ◌==◌, if◌then◌else◌}
use nova_key_daemon.Common.Lists.{length, take, drop}
use nova_key_daemon.Common.Strings.{Bytes, bytes_dec, ◌=?◌}

pub record Unicode : Type 0 where
  pub lower : Bytes → Bytes
  pub trim : Bytes → Bytes
  pub fields : Bytes → List Bytes

unfoldable pub is_ascii : Bytes → Bool
is_ascii [] = true
is_ascii (c ∷ s) = ltb c 0x80 && is_ascii s

unfoldable pub lower_byte : ℕ → ℕ
lower_byte c = if leb b'A' c && leb c b'Z' then c + 32 else c

unfoldable pub to_lower : Unicode → Bytes → Bytes
unfolding is_ascii lower_byte
to_lower u s = if is_ascii s then map lower_byte s else u.lower s

-- Tab, newline, vertical tab, form feed, carriage return, space.
abbrev pub is_space : ℕ → Bool
is_space c = (leb 9 c && leb c 13) || c == 32

unfoldable pub trim_left : Bytes → Bytes
trim_left [] = []
trim_left (c ∷ s) = if is_space c then trim_left s else c ∷ s

unfoldable pub trim_right : Bytes → Bytes
trim_right [] = []
trim_right (c ∷ s) = let r = trim_right s in if is_space c && (r =? []) then [] else c ∷ r

unfoldable pub trim_space : Unicode → Bytes → Bytes
unfolding is_ascii trim_left trim_right
trim_space u s = if is_ascii s then trim_right (trim_left s) else u.trim s

-- `strings.Fields`: the runs of bytes that are no space; `word` is the run so far.
unfoldable pub split_fields : Bytes → Bytes → List Bytes
split_fields word [] = if word =? [] then [] else word ∷ []
split_fields word (c ∷ s) =
    let rest = split_fields [] s in
    let longer = split_fields (word ++ (c ∷ [])) s in
    if is_space c then (if word =? [] then rest else word ∷ rest) else longer

unfoldable pub fields : Unicode → Bytes → List Bytes
unfolding is_ascii split_fields
fields u s = if is_ascii s then split_fields [] s else u.fields s

unfoldable pub has_prefix : Bytes → Bytes → Bool
has_prefix s [] = true
has_prefix [] (p ∷ ps) = false
has_prefix (c ∷ s) (p ∷ ps) = c == p && has_prefix s ps

-- `TrimPrefix`
unfoldable pub trim_prefix : Bytes → Bytes → Bytes
unfolding has_prefix
trim_prefix s p = if has_prefix s p then drop (length p) s else s

-- `HasSuffix` compares the last bytes.
abbrev pub has_suffix : Bytes → Bytes → Bool
has_suffix s p = leb (length p) (length s) && (drop (length s - length p) s =? p)

unfoldable pub trim_suffix : Bytes → Bytes → Bytes
unfolding bytes_dec
trim_suffix s p = if has_suffix s p then take (length s - length p) s else s

-- `strings.Index`, with -1 as `none`.
unfoldable pub index : Bytes → Bytes → Option ℕ
unfolding has_prefix
index [] p = if has_prefix [] p then some 0 else none
index (c ∷ s) p = if has_prefix (c ∷ s) p then some 0 else Option.map suc (index s p)

-- `strings.Contains`
unfoldable pub contains_text : Bytes → Bytes → Bool
unfolding has_prefix
contains_text [] p = has_prefix [] p
contains_text (c ∷ s) p = has_prefix (c ∷ s) p || contains_text s p

-- `LastIndexByte`, with -1 as `none`.
unfoldable pub last_index_byte : Bytes → ℕ → Option ℕ
last_index_byte [] c = none
last_index_byte (x ∷ s) c = elim (last_index_byte s c) [
  | some i ↦ some (suc i)
  | none ↦ if x == c then some 0 else none
]

abbrev pub holds_byte : ℕ → Bytes → Bool
holds_byte x [] = false
holds_byte x (c ∷ cs) = x == c || holds_byte x cs

-- `strings.ContainsAny` of a text and a set of ASCII bytes.
unfoldable pub contains_any : Bytes → Bytes → Bool
contains_any [] cs = false
contains_any (x ∷ s) cs = holds_byte x cs || contains_any s cs
