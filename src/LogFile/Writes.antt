-- ===== src/LogFile/Writes.antt =====
-- What a write leaves of the other files of the log's directory.
use nova_key_daemon.Common.{
  ℕ, ◌+◌, ◌≡◌, ◌≢◌, refl, ◌∙◌, Bool, true, false, not, ◌&&◌, ◌||◌, ◌++◌, Option, none, Bool-cases,
  inl, inr, some, append_assoc, arith, if◌then◌else◌, ◌==◌, ◌=?◌, Bytes, codes,
}
use nova_key_daemon.Common.Dict.{Dict, lookup, insert, erase, lookup-insert, lookup-erase}
use nova_key_daemon.Common.Text.Search.{has_prefix-suffix}
use nova_key_daemon.LogFile.{
  LogEntry, RotatingFileWriter, LogHost, LogState, is_rotated, cleanup_old_locked, created,
  open_if_needed, moved, cleaned, rotate_found, rotate_locked, appended, grown, too_long, opened,
  write,
}
use nova_key_daemon.LogFile.Laws.{cleanup_old_locked-lookup}

-- What cleaning up takes for a rotated log is named by the log's name, a dot and some text.
is_rotated-suffix :
    (base name : Bytes)
    → is_rotated base name ≡ true
    → (t : Bytes) × (name ≡ base ++ (codes "." ++ t))
unfolding is_rotated
is_rotated-suffix base name h =
    let (t, e) = has_prefix-suffix name (base ++ codes ".") (second (not (name =? base)) h) in
    (t, e ∙ append_assoc base (codes ".") t)
  where
    second : (a : Bool) {b : Bool} → (a && b) ≡ true → b ≡ true
    second a e = ground arith

module _ (w : RotatingFileWriter) (H : LogHost) (j : Bytes) (other : j ≢ w.base)
    (plain : (t : Bytes) → j ≢ w.base ++ (codes "." ++ t)) where
  kept_by_cleaning : is_rotated w.base j ≡ false
  kept_by_cleaning = elim (Bool-cases (is_rotated w.base j)) [
    | inr e ↦ e
    | inl e ↦ let (t, same) = is_rotated-suffix w.base j e in absurd (plain t same)
  ]

  created-lookup :
      (o : Option LogEntry) (es : Dict LogEntry) → lookup j (created w H o es) ≡ lookup j es
  created-lookup none es =
      ground (arith, lookup-insert j w.base (record { size = 0; changed = H.now }) es)
  created-lookup (some e) es = refl

  open_if_needed-lookup :
      (s : LogState) → lookup j (open_if_needed w H s).entries ≡ lookup j s.entries
  unfolding open_if_needed
  open_if_needed-lookup s = flags s.is_open H.opens
    where
      flags :
          (a b : Bool)
          → lookup j
              (if a
                then s
                else if b
                then record {
                  entries = created w H (lookup w.base s.entries) s.entries;
                  is_open = true;
                }
                else s).entries
            ≡ lookup j s.entries
      flags true b = refl
      flags false true = created-lookup (lookup w.base s.entries) s.entries
      flags false false = refl

  moved-lookup :
      (o : Option LogEntry) (es : Dict LogEntry) → lookup j (moved w H o es) ≡ lookup j es
  moved-lookup none es = refl
  moved-lookup (some e) es = flag H.renames
    where
      flag :
          (b : Bool)
          → lookup j
              (if b then insert (w.base ++ (codes "." ++ H.stamp)) e (erase w.base es) else es)
            ≡ lookup j es
      flag false = refl
      flag true = ground (
        arith,
        lookup-insert j (w.base ++ (codes "." ++ H.stamp)) e (erase w.base es),
        lookup-erase j w.base es,
        plain H.stamp,
      )

  cleaned-lookup : (s : LogState) → lookup j (cleaned w H s).entries ≡ lookup j s.entries
  cleaned-lookup s = flag s.is_open
    where
      flag :
          (b : Bool)
          → lookup j
              (if b then record s { entries = cleanup_old_locked w H s.entries } else s).entries
            ≡ lookup j s.entries
      flag true = cleanup_old_locked-lookup w H s.entries j kept_by_cleaning
      flag false = refl

  rotate_found-lookup :
      (o : Option LogEntry) (es : Dict LogEntry)
      → lookup j (rotate_found w H o es).entries ≡ lookup j es
  rotate_found-lookup none es = open_if_needed-lookup (record { entries = es; is_open = false })
  rotate_found-lookup (some e) es = flag (not H.stats || e.size == 0)
    where
      flag :
          (b : Bool)
          → lookup j
              (if b
                then open_if_needed w H (record { entries = es; is_open = false })
                else cleaned w H (
                    open_if_needed w H
                      (record { entries = moved w H (some e) es; is_open = false }))).entries
            ≡ lookup j es
      flag true = open_if_needed-lookup (record { entries = es; is_open = false })
      flag false =
          cleaned-lookup
            (open_if_needed w H (record { entries = moved w H (some e) es; is_open = false }))
          ∙ open_if_needed-lookup (record { entries = moved w H (some e) es; is_open = false })
          ∙ moved-lookup (some e) es

  rotate_locked-lookup :
      (s : LogState) → lookup j (rotate_locked w H s).entries ≡ lookup j s.entries
  unfolding rotate_locked
  rotate_locked-lookup s = rotate_found-lookup (lookup w.base s.entries) s.entries

  abbrev choose : Bool → Bool × LogState → Bool × LogState → Bool × LogState
  choose b x y = if b then x else y

  choose-lookup :
      (b : Bool) (x y : Bool × LogState) (o : Option LogEntry)
      → lookup j x.1.entries ≡ o
      → lookup j y.1.entries ≡ o
      → lookup j (choose b x y).1.entries ≡ o
  choose-lookup true x y o hx hy = hx
  choose-lookup false x y o hx hy = hy

  appended-lookup :
      (n : ℕ) (o : Option LogEntry) (s : LogState)
      → lookup j (appended w H n o s).1.entries ≡ lookup j s.entries
  appended-lookup n none s = refl
  appended-lookup n (some e) s =
      let grow : LogEntry = record { size = e.size + n; changed = H.now } in
      choose-lookup s.is_open (true, record s { entries = insert w.base grow s.entries }) (false, s)
        (lookup j s.entries) (ground (arith, lookup-insert j w.base grow s.entries)) refl

  grown-lookup :
      (n : ℕ) (b : Bool) (s : LogState)
      → lookup j (grown w H n (if b then rotate_locked w H s else s)).1.entries ≡ lookup j s.entries
  grown-lookup n true s =
      appended-lookup n (lookup w.base (rotate_locked w H s).entries) (rotate_locked w H s)
      ∙ rotate_locked-lookup s
  grown-lookup n false s = appended-lookup n (lookup w.base s.entries) s

  opened-lookup : (n : ℕ) (s : LogState) → lookup j (opened w H n s).1.entries ≡ lookup j s.entries
  opened-lookup n s =
      let rotates = too_long w H n (lookup w.base s.entries) in
      choose-lookup (not s.is_open) (false, s)
        (grown w H n (if rotates then rotate_locked w H s else s)) (lookup j s.entries) refl
        (grown-lookup n rotates s)

  -- A write to the log, with whatever rotation and cleaning up it brings, leaves every file as it
  -- was whose name is neither the log's name nor begins with the log's name and a dot.
  pub write-lookup :
      (n : ℕ) (s : LogState) → lookup j (write w H n s).1.entries ≡ lookup j s.entries
  unfolding write
  write-lookup n s = opened-lookup n (open_if_needed w H s) ∙ open_if_needed-lookup s
