-- ===== src/LogFile/Laws.antt =====
-- A rotation removes nothing but rotated logs.
use nova_key_daemon.Common.{
  ℕ, ◌≡◌, ◌≢◌, refl, ap, ◌∙◌, Bool, true, false, not, zero, suc, [], ◌∷◌, arith, if◌then◌else◌, ltb,
  Bytes, drop,
}
use nova_key_daemon.Common.Dict.{Dict, lookup, erase, lookup-erase}
use nova_key_daemon.LogFile.{
  LogEntry, RotatingFileWriter, LogHost, is_rotated, candidates, insert_by_time, sort_by_time,
  remove_all, cleanup_old_locked,
}

abbrev Rotated : Bytes → Dict LogEntry → Type 0
Rotated base [] = Unit
Rotated base ((name, e) ∷ cs) = (is_rotated base name ≡ true) × Rotated base cs

candidates-Rotated : (base : Bytes) (es : Dict LogEntry) → Rotated base (candidates base es)
unfolding candidates
candidates-Rotated base [] = tt
candidates-Rotated base ((name, e) ∷ es) =
    by_test (is_rotated base name) (candidates base es) refl (candidates-Rotated base es)
  where
    by_test :
        (b : Bool) (rest : Dict LogEntry)
        → is_rotated base name ≡ b
        → Rotated base rest
        → Rotated base (if b then (name, e) ∷ rest else rest)
    by_test true rest h r = (h, r)
    by_test false rest h r = r

insert_by_time-Rotated :
    (base : Bytes) (name : Bytes) (e : LogEntry) (cs : Dict LogEntry)
    → is_rotated base name ≡ true
    → Rotated base cs
    → Rotated base (insert_by_time (name, e) cs)
unfolding insert_by_time
insert_by_time-Rotated base name e [] h r = (h, tt)
insert_by_time-Rotated base name e ((j, d) ∷ cs) h (hj, r) =
    by_test (ltb e.changed d.changed) (insert_by_time (name, e) cs)
      (insert_by_time-Rotated base name e cs h r)
  where
    by_test :
        (b : Bool) (rest : Dict LogEntry)
        → Rotated base rest
        → Rotated base (if b then (j, d) ∷ rest else (name, e) ∷ (j, d) ∷ cs)
    by_test true rest t = (hj, t)
    by_test false rest t = (h, (hj, r))

sort_by_time-Rotated :
    (base : Bytes) (cs : Dict LogEntry) → Rotated base cs → Rotated base (sort_by_time cs)
unfolding sort_by_time
sort_by_time-Rotated base [] r = tt
sort_by_time-Rotated base ((name, e) ∷ cs) (h, r) =
    insert_by_time-Rotated base name e (sort_by_time cs) h (sort_by_time-Rotated base cs r)

drop-Rotated :
    (base : Bytes) (n : ℕ) (cs : Dict LogEntry) → Rotated base cs → Rotated base (drop n cs)
drop-Rotated base zero cs r = r
drop-Rotated base (suc n) [] r = tt
drop-Rotated base (suc n) ((name, e) ∷ cs) (h, r) = drop-Rotated base n cs r

remove_all-lookup :
    (base : Bytes) (H : LogHost) (j : Bytes) (cs es : Dict LogEntry)
    → is_rotated base j ≡ false
    → Rotated base cs
    → lookup j (remove_all H cs es) ≡ lookup j es
unfolding remove_all
remove_all-lookup base H j [] es h r = refl
remove_all-lookup base H j ((name, e) ∷ cs) es h (hn, r) =
    remove_all-lookup base H j cs (if H.removes name then erase name es else es) h r
    ∙ one (H.removes name)
  where
    other : j ≢ name
    other same = absurd (ground (arith, ap (is_rotated base) same))

    one : (b : Bool) → lookup j (if b then erase name es else es) ≡ lookup j es
    one true = ground (arith, lookup-erase j name es, other)
    one false = refl

-- Cleaning up leaves the log itself, and every file that is no rotated log, as it was.
pub cleanup_old_locked-lookup :
    (w : RotatingFileWriter) (H : LogHost) (es : Dict LogEntry) (j : Bytes)
    → is_rotated w.base j ≡ false
    → lookup j (cleanup_old_locked w H es) ≡ lookup j es
unfolding cleanup_old_locked
cleanup_old_locked-lookup w H es j h = by_list H.lists
  where
    by_list :
        (b : Bool)
        → lookup j (
            if not b
            then es
            else remove_all H (drop w.keep_files (sort_by_time (candidates w.base es))) es)
          ≡ lookup j es
    by_list false = refl
    by_list true =
        remove_all-lookup w.base H j (drop w.keep_files (sort_by_time (candidates w.base es))) es h
          (drop-Rotated w.base w.keep_files (sort_by_time (candidates w.base es))
            (sort_by_time-Rotated w.base (candidates w.base es) (candidates-Rotated w.base es)))
