-- ===== src/Logging/Hints.antt =====
-- The loops of all keys.
use nova_key_daemon.Common.{
  ℕ, zero, suc, ◌<◌, ◌≡◌, ◌≢◌, refl, sym, ◌∙◌, ap, true, false, ◌||◌, List, [], ◌∷◌, none, some,
  arith, Bytes, length, Option-cases, inl, inr, contains, All, ite, bytes_dec,
}
use nova_key_daemon.Common.Text.{Unicode, is_ascii}
use nova_key_daemon.Logging.{
  redact_more, redact_rest, redact_step, redact_key, redact_keys, hint_keys, redact_key_value_hints,
}
use nova_key_daemon.Logging.Endless.{redact_key_lem}

-- Of some keys, none empty: where one of them has a value in the line, the loops do not end.
redact_keys_endless :
    (u : Unicode) (fuel : ℕ) (ks : List Bytes) (s k : Bytes)
    → is_ascii s ≡ true
    → All (λ j. 0 < length j) ks
    → contains ks k ≡ true
    → redact_step u k s ≢ none
    → redact_keys u fuel ks s ≡ none
unfolding redact_keys
redact_keys_endless u fuel [] s k plain all has h = absurd (ground arith)
redact_keys_endless u fuel (j ∷ ks) s k plain (pos, all) has h =
    unfold redact_keys in
    elim (Option-cases (redact_step u j s)) [
      | inr (out, e) ↦
          ap (redact_rest (λ o. redact_keys u fuel ks o))
            ((redact_key_lem u j pos fuel s plain).0 (λ f. some_none (sym e ∙ f)))
      | inl e ↦ unchanged fuel e (λ has'. redact_keys_endless u fuel ks s k plain all has' h)
    ]
  where
    some_none : {x : Bytes} → some x ≡ none → ⊥
    some_none e = cc

    later : redact_step u j s ≡ none → contains ks k ≡ true
    later e = other (bytes_dec k j) has
      where
        other :
            (d : Dec (k ≡ j)) → (ite d true false || contains ks k) ≡ true → contains ks k ≡ true
        other (yes p) f = absurd (h (ap (λ x. redact_step u x s) p ∙ e))
        other (no q) f = f

    unchanged :
        (fuel : ℕ)
        → redact_step u j s ≡ none
        → (contains ks k ≡ true → redact_keys u fuel ks s ≡ none)
        → redact_rest (λ o. redact_keys u fuel ks o) (redact_key u fuel j s) ≡ none
    unchanged zero e ih = unfold redact_key in refl
    unchanged (suc fuel) e ih =
        ap (redact_rest (λ o. redact_keys u (suc fuel) ks o))
          ((redact_key_lem u j pos fuel s plain).1 e)
        ∙ ih (later e)

-- Where an ASCII line holds one of the keys with a value behind it, so that the first round for
-- that key replaces something, no amount of fuel is enough: `redactKeyValueHints` does not return.
pub redact_key_value_hints_endless :
    (u : Unicode) (fuel : ℕ) (s k : Bytes)
    → is_ascii s ≡ true
    → contains hint_keys k ≡ true
    → redact_step u k s ≢ none
    → redact_key_value_hints u fuel s ≡ none
unfolding redact_key_value_hints
redact_key_value_hints_endless u fuel s k plain has h =
    redact_keys_endless u fuel hint_keys s k plain (omega arith) has h

redact_keys_clean :
    (u : Unicode) (fuel : ℕ) (ks : List Bytes) (s : Bytes)
    → All (λ k. redact_step u k s ≡ none) ks
    → redact_keys u (suc fuel) ks s ≡ some s
unfolding redact_keys redact_key
redact_keys_clean u fuel [] s h = refl
redact_keys_clean u fuel (k ∷ ks) s (h, hs) =
    ap
      (λ o.
        redact_rest (λ x. redact_keys u (suc fuel) ks x)
          (redact_more (λ x. redact_key u fuel k x) s o))
      h
    ∙ redact_keys_clean u fuel ks s hs

-- A line in which no key has a value behind its first match comes back as it is, after one round
-- for each key.
pub redact_key_value_hints_clean :
    (u : Unicode) (fuel : ℕ) (s : Bytes)
    → All (λ k. redact_step u k s ≡ none) hint_keys
    → redact_key_value_hints u (suc fuel) s ≡ some s
unfolding redact_key_value_hints
redact_key_value_hints_clean u fuel s h = redact_keys_clean u fuel hint_keys s h
