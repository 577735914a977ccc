-- ===== src/Policy/Target/Rules.antt =====
-- The target policy as README.md and docs/daemon/config.md tell it: whether a rule names the focused
-- program or is in the window's title, and what follows. The lists are read as they are configured.
use mathlib.Core.List.{Memᴰ}
use nova_key_daemon.Common.{
  ℕ, ◌≡◌, ◌≢◌, ◌⊎◌, Bool, false, ◌||◌, List, [], ◌∷◌, ◌++◌, if◌then◌else◌, ◌==◌, Bytes, codes,
}
use nova_key_daemon.Common.Text.{Unicode, to_lower, trim_space, trim_suffix}
use nova_key_daemon.Config.{ServerConfig}
use nova_key_daemon.Policy.Target.{built_in}

abbrev pub is_separator : ℕ → Bool
is_separator c = c == b'\\' || c == b'/'

abbrev pub has_separator : Bytes → Bool
has_separator [] = false
has_separator (c ∷ s) = is_separator c || has_separator s

-- The text behind the last separator of a path.
abbrev pub last_part : Bytes → Bytes
last_part [] = []
last_part (c ∷ s) = let rest = last_part s in if has_separator (c ∷ s) then rest else c ∷ s

-- A program's name: the last part of its path in lower case, without the endings of a bundle and of
-- an executable.
unfoldable pub program_name : Unicode → Bytes → Bytes
unfolding trim_space to_lower trim_suffix
program_name u s =
    trim_suffix
      (trim_suffix (trim_space u (last_part (to_lower u (trim_space u s)))) (codes ".app"))
      (codes ".exe")

unfoldable pub title_text : Unicode → Bytes → Bytes
unfolding trim_space to_lower
title_text u s = to_lower u (trim_space u s)

-- One of the names is that of the program.
abbrev pub NamesProgram : Unicode → Bytes → List Bytes → Type 0
NamesProgram u proc names =
    (name : Bytes) × Memᴰ name names
    × (program_name u name ≡ program_name u proc)
    × (program_name u proc ≢ [])

-- One of the patterns is not blank, and stands in the title.
abbrev pub ShowsTitle : Unicode → Bytes → List Bytes → Type 0
ShowsTitle u title patterns =
    (pattern : Bytes) × Memᴰ pattern patterns
    × (title_text u pattern ≢ [])
    × ((before : Bytes) × (after : Bytes) × (title_text u title
          ≡ before ++ (title_text u pattern ++ after)))

-- A denied rule meets the focused window.
abbrev pub Denied : Unicode → ServerConfig → Bytes → Bytes → Type 0
Denied u cfg proc title =
    NamesProgram u proc cfg.denied_process_names ⊎ ShowsTitle u title cfg.denied_window_titles

-- An allowed rule meets it.
abbrev pub Allowed : Unicode → ServerConfig → Bytes → Bytes → Type 0
Allowed u cfg proc title =
    NamesProgram u proc cfg.allowed_process_names ⊎ ShowsTitle u title cfg.allowed_window_titles

-- There are no allowed rules but blank ones.
abbrev pub NoAllowedRule : Unicode → ServerConfig → Type 0
NoAllowedRule u cfg =
    ((name : Bytes) → Memᴰ name cfg.allowed_process_names → program_name u name ≡ [])
    × ((title : Bytes) → Memᴰ title cfg.allowed_window_titles → title_text u title ≡ [])

-- The ways to be let through: by an allowed rule; without one, if the built-in list is off, or by a
-- name on it. A denied rule goes before all of them.
pub data Permitted (u : Unicode) (cfg : ServerConfig) (proc title : Bytes) : Type 0 where
  by_rule : ¬ Denied u cfg proc title → Allowed u cfg proc title → Permitted u cfg proc title
  by_absence :
      ¬ Denied u cfg proc title
      → NoAllowedRule u cfg
      → cfg.use_built_in_allowlist ≡ false
      → Permitted u cfg proc title
  by_built_in :
      ¬ Denied u cfg proc title
      → NoAllowedRule u cfg
      → NamesProgram u proc built_in
      → Permitted u cfg proc title
