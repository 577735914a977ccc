-- ===== src/Common/Dict.antt =====
-- A Go map with string keys, as an association list. Go's iteration order is not fixed; a loop
-- over a map is a loop over the entries in the order of the list.
use mathlib.Core.Path.{◌≡◌, refl}
use mathlib.Core.Bool.{Bool, true}
use mathlib.Core.Option.{Option, none, some}
use mathlib.Core.List.{List, [], ◌∷◌}
use native.Mathlib.Omega.{arith}
use nova_key_daemon.Common.Tests.{if◌then◌else◌}
use nova_key_daemon.Common.Strings.{Bytes, ◌=?◌}

abbrev pub Dict {ℓ} : Type ℓ → Type ℓ
Dict V = List (Bytes × V)

module _ {ℓ} {V : Type ℓ} where
  unfoldable pub lookup : Bytes → Dict V → Option V
  lookup k [] = none
  lookup k ((j, v) ∷ m) = if k =? j then some v else lookup k m

  unfoldable pub insert : Bytes → V → Dict V → Dict V
  insert k v [] = (k, v) ∷ []
  insert k v ((j, w) ∷ m) = if k =? j then (k, v) ∷ m else (j, w) ∷ insert k v m

  -- Every entry of the key goes; a map that `insert` built has at most one.
  unfoldable pub erase : Bytes → Dict V → Dict V
  erase k [] = []
  erase k ((j, w) ∷ m) = let rest = erase k m in if k =? j then rest else (j, w) ∷ rest

  -- `for k, v := range m { if !keep(v) { delete(m, k) } }`
  unfoldable pub retain : (V → Bool) → Dict V → Dict V
  retain keep [] = []
  retain keep ((j, w) ∷ m) = let rest = retain keep m in if keep w then (j, w) ∷ rest else rest

  -- A key stands at most once.
  abbrev pub NodupKeys : Dict V → Type ℓ
  NodupKeys [] = Unit
  NodupKeys ((k, _) ∷ m) = (lookup k m ≡ none) × NodupKeys m

  pub lookup-nil : (k : Bytes) → lookup k [] ≡ none
  unfolding lookup
  lookup-nil k = refl

  pub lookup-insert :
      (j k : Bytes) (v : V) (m : Dict V)
      → lookup j (insert k v m) ≡ (if j =? k then some v else lookup j m)
  unfolding insert lookup
  lookup-insert j k v [] = refl
  lookup-insert j k v ((i, w) ∷ m) = ground (arith, lookup-insert j k v m)

  pub lookup-erase :
      (j k : Bytes) (m : Dict V) → lookup j (erase k m) ≡ (if j =? k then none else lookup j m)
  unfolding erase lookup
  lookup-erase j k [] = ground arith
  lookup-erase j k ((i, w) ∷ m) = ground (arith, lookup-erase j k m)

  pub insert-NodupKeys : (k : Bytes) (v : V) (m : Dict V) → NodupKeys m → NodupKeys (insert k v m)
  unfolding insert
  insert-NodupKeys k v [] _ = (lookup-nil k, tt)
  insert-NodupKeys k v ((j, w) ∷ m) (fresh, u) =
      ground (arith, insert-NodupKeys k v m u, lookup-insert j k v m)

  pub lookup-retain-none :
      (keep : V → Bool) (j : Bytes) (m : Dict V)
      → lookup j m ≡ none
      → lookup j (retain keep m) ≡ none
  unfolding retain lookup
  lookup-retain-none keep j [] h = refl
  lookup-retain-none keep j ((i, w) ∷ m) h = ground (arith, lookup-retain-none keep j m)

  pub lookup-retain-some :
      (keep : V → Bool) (j : Bytes) (m : Dict V) (v : V)
      → lookup j m ≡ some v
      → keep v ≡ true
      → lookup j (retain keep m) ≡ some v
  unfolding retain lookup
  lookup-retain-some keep j [] v h k = cc
  lookup-retain-some keep j ((i, w) ∷ m) v h k = ground (arith, lookup-retain-some keep j m v)

  -- What a filter keeps of a key's entry, where keys stand once.
  abbrev pub keep_if : (V → Bool) → Option V → Option V
  keep_if keep none = none
  keep_if keep (some v) = if keep v then some v else none

  pub lookup-retain :
      (keep : V → Bool) (j : Bytes) (m : Dict V)
      → NodupKeys m
      → lookup j (retain keep m) ≡ keep_if keep (lookup j m)
  unfolding retain lookup
  lookup-retain keep j [] u = refl
  lookup-retain keep j ((i, w) ∷ m) (fresh, u) =
      ground (arith, lookup-retain keep j m u, lookup-retain-none keep j m)

  pub erase-NodupKeys : (k : Bytes) (m : Dict V) → NodupKeys m → NodupKeys (erase k m)
  unfolding erase
  erase-NodupKeys k [] u = tt
  erase-NodupKeys k ((j, w) ∷ m) (fresh, u) =
      ground (arith, erase-NodupKeys k m u, lookup-erase j k m)

  pub retain-NodupKeys : (keep : V → Bool) (m : Dict V) → NodupKeys m → NodupKeys (retain keep m)
  unfolding retain
  retain-NodupKeys keep [] u = tt
  retain-NodupKeys keep ((j, w) ∷ m) (fresh, u) =
      ground (arith, retain-NodupKeys keep m u, lookup-retain-none keep j m)
