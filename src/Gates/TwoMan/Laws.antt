-- ===== src/Gates/TwoMan/Laws.antt =====
-- What the calls of the two-man gate do to every device's entry.
use nova_key_daemon.Common.{
  ℕ, ◌≡◌, refl, Bool, false, ◌&&◌, Option, none, some, arith, if◌then◌else◌, Bytes, ◌=?◌,
  Option-cases, inl, inr,
}
use nova_key_daemon.Common.Dict.{
  lookup, retain, NodupKeys, keep_if, lookup-insert, lookup-erase, lookup-retain, insert-NodupKeys,
  erase-NodupKeys, retain-NodupKeys,
}
use nova_key_daemon.Gates.Clock.{add_time}
use nova_key_daemon.Gates.TwoMan.{
  TwoManGate, alive, cleanup_locked, approve, consume_entry, consume, approved_until,
}

-- Whether the entry stands for an approval that `now` is not after.
abbrev pub within : ℕ → Option ℕ → Bool
within now none = false
within now (some u) = alive now u

-- `Approve` sets the entry of its device to the end of the new window, and drops or keeps those of
-- the others by the clock alone.
pub lookup-approve :
    (g : TwoManGate) (t now d : ℕ) (dev j : Bytes)
    → NodupKeys g.until
    → lookup j (approve g t now dev d).1.until
      ≡ (if j =? dev then some (add_time now d) else keep_if (alive t) (lookup j g.until))
unfolding approve cleanup_locked
lookup-approve g t now d dev j u = ground (
  arith,
  lookup-insert j dev (add_time now d) (retain (alive t) g.until),
  lookup-retain (alive t) j g.until u,
)

consume_entry_answer :
    (g : TwoManGate) (now : ℕ) (dev : Bytes) (c : Bool) (o : Option ℕ)
    → (consume_entry g now dev c o).0 ≡ within now o
unfolding consume_entry
consume_entry_answer g now dev c none = refl
consume_entry_answer g now dev c (some u) = ground arith

within-keep_if : (now : ℕ) (o : Option ℕ) → within now (keep_if (alive now) o) ≡ within now o
within-keep_if now none = refl
within-keep_if now (some u) = ground arith

-- `Consume` lets a device through exactly when that device has an approval that has not run out.
pub consume-eq-within :
    (g : TwoManGate) (now : ℕ) (dev : Bytes) (c : Bool)
    → NodupKeys g.until
    → (consume g now dev c).0 ≡ within now (lookup dev g.until)
unfolding consume cleanup_locked
consume-eq-within g now dev c u = ground (
  arith,
  consume_entry_answer (cleanup_locked g now) now dev c (lookup dev (retain (alive now) g.until)),
  lookup-retain (alive now) dev g.until u,
  within-keep_if now (lookup dev g.until),
)

lookup-consume_entry :
    (g : TwoManGate) (now : ℕ) (dev j : Bytes) (c : Bool) (o : Option ℕ)
    → lookup j (consume_entry g now dev c o).1.until
      ≡ (if (j =? dev) && c && within now o then none else lookup j g.until)
unfolding consume_entry
lookup-consume_entry g now dev j c none = ground arith
lookup-consume_entry g now dev j c (some u) = ground (arith, lookup-erase j dev g.until)

-- `Consume` takes away the entry that it spends and those that have run out, and no other: one
-- device's attempt never spends another's approval.
pub lookup-consume :
    (g : TwoManGate) (now : ℕ) (dev j : Bytes) (c : Bool)
    → NodupKeys g.until
    → lookup j (consume g now dev c).1.until
      ≡ (if (j =? dev) && c then none else keep_if (alive now) (lookup j g.until))
unfolding consume cleanup_locked
lookup-consume g now dev j c u = elim (Option-cases (lookup dev g.until)) [
  | inl e ↦ ground (
    arith,
    lookup-consume_entry (cleanup_locked g now) now dev j c
        (lookup dev (retain (alive now) g.until)),
    lookup-retain (alive now) j g.until u,
    lookup-retain (alive now) dev g.until u,
  )
  | inr (w, e) ↦ ground (
    arith,
    lookup-consume_entry (cleanup_locked g now) now dev j c
        (lookup dev (retain (alive now) g.until)),
    lookup-retain (alive now) j g.until u,
    lookup-retain (alive now) dev g.until u,
  )
]

-- After a refusal the device has no entry, whatever the reason: a lookup then reads the zero time,
-- also where an approval had run out.
pub approved_until-consume :
    (g : TwoManGate) (now : ℕ) (dev : Bytes) (c : Bool)
    → NodupKeys g.until
    → (consume g now dev c).0 ≡ false
    → approved_until (consume g now dev c).1 dev ≡ 0
unfolding approved_until
approved_until-consume g now dev c u h = elim (Option-cases (lookup dev g.until)) [
  | inl e ↦ ground (arith, lookup-consume g now dev dev c u, consume-eq-within g now dev c u)
  | inr (w, e) ↦ ground (arith, lookup-consume g now dev dev c u, consume-eq-within g now dev c u)
]

pub approve-NodupKeys :
    (g : TwoManGate) (t now d : ℕ) (dev : Bytes)
    → NodupKeys g.until
    → NodupKeys (approve g t now dev d).1.until
unfolding approve cleanup_locked
approve-NodupKeys g t now d dev u = insert-NodupKeys dev _ _ (retain-NodupKeys (alive t) g.until u)

pub consume-NodupKeys :
    (g : TwoManGate) (now : ℕ) (dev : Bytes) (c : Bool)
    → NodupKeys g.until
    → NodupKeys (consume g now dev c).1.until
unfolding consume cleanup_locked
consume-NodupKeys g now dev c u =
    entry (lookup dev (retain (alive now) g.until)) (retain-NodupKeys (alive now) g.until u)
  where
    entry :
        (o : Option ℕ)
        → NodupKeys (retain (alive now) g.until)
        → NodupKeys (consume_entry (cleanup_locked g now) now dev c o).1.until
    entry none v = unfold consume_entry in v
    entry (some w) v =
        unfold consume_entry in ground (arith, erase-NodupKeys dev (retain (alive now) g.until) v)
