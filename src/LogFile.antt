-- ===== src/LogFile.antt =====
-- `rotatingFileWriter` of cmd/novakey/logfile.go, over the directory of the log.
pub mod Laws
pub mod Writes
use nova_key_daemon.Common.{
  ℕ, ◌+◌, Bool, true, false, not, ◌&&◌, ◌||◌, List, [], ◌∷◌, ◌++◌, Option, none, some,
  if◌then◌else◌, ltb, leb, ◌==◌, Bytes, codes, bytes_dec, ◌=?◌, length, drop,
}
use nova_key_daemon.Common.Dict.{Dict, lookup, insert, erase}
use nova_key_daemon.Common.Text.{has_prefix}

-- Of a file the model keeps the size and the time of the last change.
pub record LogEntry : Type 0 where
  pub size : ℕ
  pub changed : ℕ

pub record RotatingFileWriter : Type 0 where
  pub base : Bytes
  pub max_bytes : ℕ
  pub keep_files : ℕ

-- How the calls of one write are answered: `stamp` is the time as it is formatted for a name.
pub record LogHost : Type 0 where
  pub opens : Bool
  pub stats : Bool
  pub renames : Bool
  pub lists : Bool
  pub removes : Bytes → Bool
  pub stamp : Bytes
  pub now : ℕ

-- The directory, and whether the file is open.
pub record LogState : Type 0 where
  pub entries : Dict LogEntry
  pub is_open : Bool

unfoldable pub is_rotated : Bytes → Bytes → Bool
unfolding has_prefix bytes_dec
is_rotated base name = not (name =? base) && has_prefix name (base ++ codes ".")

unfoldable pub candidates : Bytes → Dict LogEntry → Dict LogEntry
unfolding is_rotated
candidates base [] = []
candidates base ((name, e) ∷ es) =
    let rest = candidates base es in if is_rotated base name then (name, e) ∷ rest else rest

-- `sort.Slice`, the latest first; entries of one time are in no fixed order.
unfoldable pub insert_by_time : Bytes × LogEntry → Dict LogEntry → Dict LogEntry
insert_by_time c [] = c ∷ []
insert_by_time c (d ∷ ds) =
    let rest = insert_by_time c ds in if ltb c.1.changed d.1.changed then d ∷ rest else c ∷ d ∷ ds

unfoldable pub sort_by_time : Dict LogEntry → Dict LogEntry
unfolding insert_by_time
sort_by_time [] = []
sort_by_time (c ∷ cs) = insert_by_time c (sort_by_time cs)

unfoldable pub remove_all : LogHost → Dict LogEntry → Dict LogEntry → Dict LogEntry
unfolding erase
remove_all H [] es = es
remove_all H ((name, e) ∷ cs) es = remove_all H cs (if H.removes name then erase name es else es)

module _ (w : RotatingFileWriter) (H : LogHost) where
  unfoldable pub cleanup_old_locked : Dict LogEntry → Dict LogEntry
  unfolding candidates sort_by_time remove_all
  cleanup_old_locked es =
      if not H.lists
      then es
      else remove_all H (drop w.keep_files (sort_by_time (candidates w.base es))) es

  -- An empty file where there is none.
  abbrev created : Option LogEntry → Dict LogEntry → Dict LogEntry
  created none es = insert w.base (record { size = 0; changed = H.now }) es
  created (some e) es = es

  unfoldable pub open_if_needed : LogState → LogState
  unfolding lookup insert
  open_if_needed s =
      if s.is_open
      then s
      else if H.opens
      then record { entries = created (lookup w.base s.entries) s.entries; is_open = true }
      else s

  abbrev moved : Option LogEntry → Dict LogEntry → Dict LogEntry
  moved none es = es
  moved (some e) es =
      if H.renames then insert (w.base ++ (codes "." ++ H.stamp)) e (erase w.base es) else es

  abbrev cleaned : LogState → LogState
  cleaned s = if s.is_open then record s { entries = cleanup_old_locked s.entries } else s

  abbrev rotate_found : Option LogEntry → Dict LogEntry → LogState
  rotate_found none es = open_if_needed (record { entries = es; is_open = false })
  rotate_found (some e) es =
      if not H.stats || e.size == 0
      then open_if_needed (record { entries = es; is_open = false })
      else cleaned (open_if_needed (record { entries = moved (some e) es; is_open = false }))

  unfoldable pub rotate_locked : LogState → LogState
  unfolding open_if_needed cleanup_old_locked lookup insert erase
  rotate_locked s = rotate_found (lookup w.base s.entries) s.entries

  -- Whether the text goes to a file, and the state.
  abbrev appended : ℕ → Option LogEntry → LogState → Bool × LogState
  appended n none s = (s.is_open, s)
  appended n (some e) s =
      if s.is_open
      then (
        true,
        record s {
          entries = insert w.base (record { size = e.size + n; changed = H.now }) s.entries;
        },
      )
      else (false, s)

  abbrev grown : ℕ → LogState → Bool × LogState
  grown n s = appended n (lookup w.base s.entries) s

  abbrev too_long : ℕ → Option LogEntry → Bool
  too_long n none = false
  too_long n (some e) = H.stats && ltb 0 w.max_bytes && ltb w.max_bytes (e.size + n)

  abbrev opened : ℕ → LogState → Bool × LogState
  opened n s =
      if not s.is_open
      then (false, s)
      else grown n (if too_long n (lookup w.base s.entries) then rotate_locked s else s)

  -- Of a text of `n` bytes.
  unfoldable pub write : ℕ → LogState → Bool × LogState
  unfolding open_if_needed rotate_locked lookup insert
  write n s = opened n (open_if_needed s)
