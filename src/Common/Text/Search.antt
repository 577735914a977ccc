-- ===== src/Common/Text/Search.antt =====
-- What `strings.HasPrefix`, `strings.Contains` and `strings.LastIndexByte` find, as equations on the
-- text.
use nova_key_daemon.Common.{
  ℕ, zero, suc, ◌≡◌, refl, ap, ◌∙◌, Bool, true, false, ◌&&◌, [], ◌∷◌, ◌++◌, Option, none, some,
  Bool-cases, inl, inr, ◌⊎◌, arith, ==_iff, ◌==◌, if◌then◌else◌, Bytes, drop,
}
use nova_key_daemon.Common.Text.{has_prefix, contains_text, last_index_byte}

both_tests : (a b : Bool) → (a && b) ≡ true → (a ≡ true) × (b ≡ true)
both_tests a b e = ground arith

pub has_prefix-suffix : (s p : Bytes) → has_prefix s p ≡ true → (t : Bytes) × (s ≡ p ++ t)
unfolding has_prefix
has_prefix-suffix s [] h = (s, refl)
has_prefix-suffix [] (c ∷ p) h = cc
has_prefix-suffix (x ∷ s) (c ∷ p) h =
    let (same, rest) = both_tests (x == c) (has_prefix s p) h in
    let (t, e) = has_prefix-suffix s p rest in
    (t, ap (λ y. y ∷ s) ((==_iff x c).0 same) ∙ ap (λ y. c ∷ y) e)

has_prefix-append : (p s : Bytes) → has_prefix (p ++ s) p ≡ true
unfolding has_prefix
has_prefix-append [] [] = refl
has_prefix-append [] (c ∷ s) = refl
has_prefix-append (c ∷ p) s = ground (arith, has_prefix-append p s)

pub contains_text-split :
    (s p : Bytes) → contains_text s p ≡ true → (a : Bytes) × (b : Bytes) × (s ≡ a ++ (p ++ b))
unfolding contains_text
contains_text-split [] p h = let (t, e) = has_prefix-suffix [] p h in ([], t, e)
contains_text-split (c ∷ s) p h = elim (Bool-cases (has_prefix (c ∷ s) p)) [
  | inl e ↦ let (t, same) = has_prefix-suffix (c ∷ s) p e in ([], t, same)
  | inr e ↦
      let (a, b, same) = contains_text-split s p (rw e at h) in (c ∷ a, b, ap (λ y. c ∷ y) same)
]

contains_text_here : (s p : Bytes) → has_prefix s p ≡ true → contains_text s p ≡ true
unfolding contains_text
contains_text_here [] p h = h
contains_text_here (c ∷ s) p h = rw h refl

pub contains_text-append : (a p b : Bytes) → contains_text (a ++ (p ++ b)) p ≡ true
unfolding contains_text
contains_text-append [] p b = contains_text_here (p ++ b) p (has_prefix-append p b)
contains_text-append (c ∷ a) p b = ground (arith, contains_text-append a p b)

abbrev index_step : Option ℕ → Bool → Option ℕ
index_step o b = elim o [ some i ↦ some (suc i) | none ↦ if b then some zero else none ]

index_step-none : (o : Option ℕ) (b : Bool) → index_step o b ≡ none → (o ≡ none) × (b ≡ false)
index_step-none none true h = cc
index_step-none none false h = (refl, refl)
index_step-none (some i) b h = cc

pub last_index_byte-none :
    (x : ℕ) (s : Bytes) (c : ℕ)
    → last_index_byte (x ∷ s) c ≡ none
    → (last_index_byte s c ≡ none) × ((x == c) ≡ false)
unfolding last_index_byte
last_index_byte-none x s c h = index_step-none (last_index_byte s c) (x == c) h

-- The byte stands before what is cut off behind its index.
pub last_index_byte-some :
    (s : Bytes) (c i : ℕ)
    → last_index_byte s c ≡ some i
    → (a : Bytes) × (s ≡ a ++ (c ∷ drop (suc i) s))
unfolding last_index_byte
last_index_byte-some [] c i h = cc
last_index_byte-some (x ∷ s) c i h =
    step (last_index_byte s c) (λ j e. last_index_byte-some s c j e) (Bool-cases (x == c)) h
  where
    zero_index : some zero ≡ some i → zero ≡ i
    zero_index e = cc

    no_index : ◌≡◌ {A = Option ℕ} none (some i) → ⊥
    no_index e = cc

    next_index : (j : ℕ) → some (suc j) ≡ some i → suc j ≡ i
    next_index j e = cc

    step :
        (o : Option ℕ)
        → ((j : ℕ) → o ≡ some j → (a : Bytes) × (s ≡ a ++ (c ∷ drop (suc j) s)))
        → ((x == c) ≡ true) ⊎ ((x == c) ≡ false)
        → index_step o (x == c) ≡ some i
        → (a : Bytes) × (x ∷ s ≡ a ++ (c ∷ drop (suc i) (x ∷ s)))
    step none ih (inl e) k =
        let at_zero : zero ≡ i = zero_index (rw e at k) in
        ([], ap (λ y. y ∷ s) ((==_iff x c).0 e) ∙ ap (λ n. c ∷ drop (suc n) (x ∷ s)) at_zero)
    step none ih (inr e) k = absurd (no_index (rw e at k))
    step (some j) ih b k =
        let (a, same) = ih j refl in
        (
          x ∷ a,
          ap (λ y. x ∷ y) same ∙ ap (λ n. x ∷ (a ++ (c ∷ drop (suc n) (x ∷ s)))) (next_index j k),
        )
