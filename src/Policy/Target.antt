-- ===== src/Policy/Target.antt =====
-- cmd/novakey/target_policy.go.
pub mod Rules
pub mod Matching
pub mod Reading
pub mod Decision
pub mod Correct
pub mod Loaded
use nova_key_daemon.Common.{
  ℕ, zero, suc, ◌+◌, Bool, true, false, not, ◌&&◌, ◌||◌, List, [], ◌∷◌, ◌++◌, Option, none, some,
  if◌then◌else◌, ltb, Bytes, codes, bytes_dec, ◌=?◌, contains, drop, length, Result, ok, err,
}
use nova_key_daemon.Common.Text.{
  Unicode, to_lower, trim_space, has_suffix, trim_suffix, last_index_byte, contains_text,
}
use nova_key_daemon.Config.{ServerConfig}

-- The larger of two indices, where -1 is `none`.
abbrev pub later_index : Option ℕ → Option ℕ → Option ℕ
later_index none i2 = i2
later_index (some i1) none = some i1
later_index (some i1) (some i2) = if ltb i1 i2 then some i2 else some i1

abbrev pub last_separator : Bytes → Option ℕ
last_separator s = later_index (last_index_byte s b'\\') (last_index_byte s b'/')

-- The `for` loop: the text behind the last separator, again and again, until none is left. Each
-- round shortens the text, so its length is fuel enough.
unfoldable pub strip_path : ℕ → Bytes → Bytes
unfolding last_index_byte
strip_path zero s = s
strip_path (suc fuel) s = elim (last_separator s) [
  | none ↦ s
  | some i ↦ strip_path fuel (drop (i + 1) s)
]

unfoldable pub normalize_proc_name : Unicode → Bytes → Bytes
unfolding trim_space to_lower strip_path trim_suffix bytes_dec
normalize_proc_name u s =
    let t = to_lower u (trim_space u s) in
    if t =? []
    then []
    else trim_suffix (trim_suffix (trim_space u (strip_path (length t) t)) (codes ".app"))
        (codes ".exe")

-- The loop of `normalizeProcList` and `normalizeTitleList`: what is empty or was seen is skipped.
-- The map of the names seen holds the names of the output.
unfoldable pub normalize_list : (Bytes → Bytes) → List Bytes → List Bytes → List Bytes
unfolding bytes_dec
normalize_list normalize [] out = out
normalize_list normalize (x ∷ xs) out =
    let n = normalize x in
    normalize_list normalize xs (if (n =? []) || contains out n then out else out ++ (n ∷ []))

unfoldable pub normalize_proc_list : Unicode → List Bytes → List Bytes
unfolding normalize_list normalize_proc_name
normalize_proc_list u names = normalize_list (normalize_proc_name u) names []

unfoldable pub normalize_title : Unicode → Bytes → Bytes
unfolding to_lower trim_space
normalize_title u s = to_lower u (trim_space u s)

unfoldable pub normalize_title_list : Unicode → List Bytes → List Bytes
unfolding normalize_list normalize_title
normalize_title_list u titles = normalize_list (normalize_title u) titles []

abbrev pub string_in_slice : Bytes → List Bytes → Bool
string_in_slice s list = contains list s

-- A pattern matches as a substring; an empty one is passed over.
unfoldable pub title_matches_any : Bytes → List Bytes → Bool
unfolding contains_text bytes_dec
title_matches_any title [] = false
title_matches_any title (p ∷ ps) =
    (not (p =? []) && contains_text title p) || title_matches_any title ps

pub data TargetError : Type 0 where
  no_target denied not_allowed : TargetError

abbrev pub built_in : List Bytes
built_in =
    codes "msedge"
    ∷ codes "chrome"
    ∷ codes "chromium"
    ∷ codes "brave"
    ∷ codes "firefox"
    ∷ codes "opera"
    ∷ codes "vivaldi"
    ∷ codes "safari"
    ∷ codes "1password"
    ∷ codes "bitwarden"
    ∷ codes "lastpass"
    ∷ codes "dashlane"
    ∷ codes "keeper"
    ∷ codes "nordpass"
    ∷ codes "protonpass"
    ∷ codes "roboform"
    ∷ codes "notepad"
    ∷ codes "textedit"
    ∷ codes "gedit"
    ∷ codes "kate"
    ∷ []

abbrev pub is_empty : List Bytes → Bool
is_empty [] = true
is_empty (x ∷ xs) = false

-- Whether the focused process is on a list, or its title matches one.
abbrev pub proc_on : Bytes → List Bytes → Bool
proc_on proc procs = not (proc =? []) && string_in_slice proc procs

abbrev pub title_on : Bytes → List Bytes → Bool
title_on title titles = not (title =? []) && title_matches_any title titles

-- From the normalized names and lists on.
unfoldable pub decide_target :
    Bytes
    → Bytes
    → List Bytes
    → List Bytes
    → List Bytes
    → List Bytes
    → Bool
    → List Bytes
    → Result TargetError (Unit {0})
unfolding title_matches_any bytes_dec
decide_target proc title allow_procs deny_procs allow_titles deny_titles use_built_in builtin =
    if proc_on proc deny_procs
    then err denied
    else if title_on title deny_titles
    then err denied
    else if not (is_empty allow_procs) || not (is_empty allow_titles)
    then (if proc_on proc allow_procs
        then ok tt
        else if title_on title allow_titles
        then ok tt
        else err not_allowed)
    else if not use_built_in
    then ok tt
    else if proc_on proc builtin
    then ok tt
    else err not_allowed

abbrev pub decide_focused :
    Unicode → ServerConfig → Option (Bytes × Bytes) → Result TargetError (Unit {0})
decide_focused u cfg none = err no_target
decide_focused u cfg (some (proc, title)) =
    decide_target (normalize_proc_name u proc) (normalize_title u title)
      (normalize_proc_list u cfg.allowed_process_names)
      (normalize_proc_list u cfg.denied_process_names)
      (normalize_title_list u cfg.allowed_window_titles)
      (normalize_title_list u cfg.denied_window_titles) cfg.use_built_in_allowlist
      (normalize_proc_list u built_in)

-- The last argument is the answer of `getFocusedTarget`: process and title, or its error.
unfoldable pub enforce_target_policy :
    Unicode → ServerConfig → Option (Bytes × Bytes) → Result TargetError (Unit {0})
enforce_target_policy u cfg focused =
    if not cfg.target_policy_enabled then ok tt else decide_focused u cfg focused
