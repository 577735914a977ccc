-- ===== src/Files/Laws.antt =====
-- A file is replaced whole or stays as it was.
use nova_key_daemon.Common.{
  ◌≡◌, ◌≢◌, refl, ap, ◌∙◌, Bool, true, false, none, some, Option-cases, inl, inr, arith, Bytes,
  codes, length, length-append, bytes_dec, ◌=?◌, ok, err, if◌then◌else◌, Bool-cases,
}
use nova_key_daemon.Common.Dict.{Dict, lookup, erase, lookup-insert, lookup-erase}
use nova_key_daemon.Files.{
  Os, FileError, read_file, write_file, remove_file, rename_file, tmp_of, atomic_write_0600,
  renamed, written, dir_ready, read_found,
}

pub tmp_of-ne : (path : Bytes) → path ≢ tmp_of path
tmp_of-ne path e = absurd (omega (arith, ap length e, length-append path (codes ".tmp")))

pub lookup-remove_file :
    (os : Os) (j path : Bytes) (files : Dict Bytes)
    → j ≢ path
    → lookup j (remove_file os path files) ≡ lookup j files
unfolding remove_file
lookup-remove_file os j path files h = ground (arith, lookup-erase j path files)

pub lookup-remove_file_self :
    (os : Os) (path : Bytes) (files : Dict Bytes)
    → os.removes path ≡ true
    → lookup path (remove_file os path files) ≡ none
unfolding remove_file
lookup-remove_file_self os path files h = ground (arith, lookup-erase path path files)

pub lookup-write_file :
    (os : Os) (j path b : Bytes) (files : Dict Bytes)
    → j ≢ path
    → lookup j (write_file os path b files).1 ≡ lookup j files
unfolding write_file
lookup-write_file os j path b files h = elim (Option-cases (os.partial path)) [
  | inl e ↦ ground (arith, lookup-insert j path b files)
  | inr (p, e) ↦ ground (arith, lookup-insert j path b files, lookup-insert j path p files)
]

-- The file that a write leaves, where it succeeds.
pub lookup-write_file_self :
    (os : Os) (path b : Bytes) (files : Dict Bytes)
    → (write_file os path b files).0 ≡ true
    → lookup path (write_file os path b files).1 ≡ some b
unfolding write_file
lookup-write_file_self os path b files h = ground (arith, lookup-insert path path b files)

pub lookup-rename_file :
    (os : Os) (j from to : Bytes) (files : Dict Bytes)
    → (rename_file os from to files).0 ≡ true
    → lookup j (rename_file os from to files).1
      ≡ (if j =? to then lookup from files else if j =? from then none else lookup j files)
unfolding rename_file
lookup-rename_file os j from to files h = elim (Option-cases (lookup from files)) [
  | inl e ↦ absurd (ground arith)
  | inr (b, e) ↦ ground (arith, lookup-erase j from files, lookup-insert j to b (erase from files))
]

pub rename_file_failed :
    (os : Os) (from to : Bytes) (files : Dict Bytes)
    → (rename_file os from to files).0 ≡ false
    → (rename_file os from to files).1 ≡ files
unfolding rename_file
rename_file_failed os from to files h = elim (Option-cases (lookup from files)) [
  | inl e ↦ ground arith
  | inr (b, e) ↦ ground arith
]

-- A file is read by its own entry alone.
pub read_file-lookup :
    (os : Os) (path : Bytes) (a b : Dict Bytes)
    → lookup path a ≡ lookup path b
    → read_file os a path ≡ read_file os b path
unfolding read_file
read_file-lookup os path a b e = ap (read_found os path) e

module _ (os : Os) (path : Bytes) where
  renamed_failed :
      (j : Bytes) (r : Bool × Dict Bytes) (e : FileError)
      → j ≢ tmp_of path
      → (renamed os path r).0 ≡ err e
      → lookup j (renamed os path r).1 ≡ lookup j r.1
  renamed_failed j (true, files) e h k = cc
  renamed_failed j (false, files) e h k = lookup-remove_file os j (tmp_of path) files h

  written_failed :
      (j : Bytes) (r : Bool × Dict Bytes) (e : FileError)
      → j ≢ tmp_of path
      → (written os path r).0 ≡ err e
      → lookup j (written os path r).1 ≡ lookup j r.1
  written_failed j (false, files) e h k = refl
  written_failed j (true, files) e h k =
      elim (Bool-cases (rename_file os (tmp_of path) path files).0) [
        | inl moved ↦ absurd (ground (arith, moved_ok (rename_file os (tmp_of path) path files)))
        | inr same ↦
            renamed_failed j (rename_file os (tmp_of path) path files) e h k
            ∙ ap (lookup j) (rename_file_failed os (tmp_of path) path files same)
      ]
    where
      moved_ok : (r : Bool × Dict Bytes) → r.0 ≡ true → (renamed os path r).0 ≡ ok tt
      moved_ok (true, fs) t = refl
      moved_ok (false, fs) t = cc

  -- A replacement that fails leaves every file but the temporary one as it was.
  pub atomic_write_0600_failed :
      (j b : Bytes) (files : Dict Bytes) (e : FileError)
      → j ≢ tmp_of path
      → (atomic_write_0600 os path b files).0 ≡ err e
      → lookup j (atomic_write_0600 os path b files).1 ≡ lookup j files
  unfolding atomic_write_0600
  atomic_write_0600_failed j b files e h k = elim (Bool-cases (dir_ready os (os.dir path))) [
    | inr gone ↦ rw gone refl
    | inl ready ↦ rw ready (
        written_failed j (write_file os (tmp_of path) b files) e h (rw ready at k)
        ∙ lookup-write_file os j (tmp_of path) b files h)
  ]

  renamed-ok :
      (j b : Bytes) (r : Bool × Dict Bytes)
      → (renamed os path r).0 ≡ ok tt
      → renamed os path r ≡ (ok tt, r.1)
  renamed-ok j b (true, files) h = refl
  renamed-ok j b (false, files) h = cc

  renamed-ok_true : (r : Bool × Dict Bytes) → (renamed os path r).0 ≡ ok tt → r.0 ≡ true
  renamed-ok_true (true, files) h = refl
  renamed-ok_true (false, files) h = cc

  written-ok :
      (j b : Bytes) (r : Bool × Dict Bytes)
      → lookup (tmp_of path) r.1 ≡ some b
      → (written os path r).0 ≡ ok tt
      → lookup j (written os path r).1
        ≡ (if j =? path then some b else if j =? tmp_of path then none else lookup j r.1)
  written-ok j b (false, files) found h = cc
  written-ok j b (true, files) found h =
      let moved = rename_file os (tmp_of path) path files in
      ap (λ r. lookup j r.1) (renamed-ok j b moved h)
      ∙ lookup-rename_file os j (tmp_of path) path files (renamed-ok_true moved h)
      ∙ ap (λ o. if j =? path then o else if j =? tmp_of path then none else lookup j files) found

  write_file_or_failed : (r : Bool × Dict Bytes) → (written os path r).0 ≡ ok tt → r.0 ≡ true
  write_file_or_failed (true, files) h = refl
  write_file_or_failed (false, files) h = cc

  -- A replacement that succeeds leaves the new text, no temporary file, and every other file as it was.
  pub atomic_write_0600-ok :
      (j b : Bytes) (files : Dict Bytes)
      → (atomic_write_0600 os path b files).0 ≡ ok tt
      → lookup j (atomic_write_0600 os path b files).1
        ≡ (if j =? path then some b else if j =? tmp_of path then none else lookup j files)
  unfolding atomic_write_0600
  atomic_write_0600-ok j b files h = elim (Bool-cases (dir_ready os (os.dir path))) [
    | inr gone ↦ absurd (ground arith)
    | inl ready ↦
        let w = write_file os (tmp_of path) b files in
        let done = write_file_or_failed w (rw ready at h) in
        rw ready (
          written-ok j b w (lookup-write_file_self os (tmp_of path) b files done) (rw ready at h)
          ∙ others j)
  ]
    where
      others :
          (j : Bytes)
          → (if j =? path
              then some b
              else if j =? tmp_of path
              then none
              else lookup j (write_file os (tmp_of path) b files).1)
            ≡ (if j =? path then some b else if j =? tmp_of path then none else lookup j files)
      others j = elim (bytes_dec j (tmp_of path)) [
        | yes e ↦ ground arith
        | no e ↦ rw (lookup-write_file os j (tmp_of path) b files e)
      ]
