-- ===== src/Logging/Endless.antt =====
-- The redaction of a value puts a value in its place, so the loop finds it again.
use nova_key_daemon.Common.{
  ℕ, zero, suc, ◌+◌, ◌≤◌, ◌<◌, ◌≡◌, ◌≢◌, refl, sym, ◌∙◌, ap, true, ◌&&◌, [], ◌∷◌, ◌++◌, map, Option,
  none, some, arith, if◌then◌else◌, ltb, Bytes, length, take, drop, take-append, drop-append,
  length-take, length-drop, take-append-drop, Option-cases, inl, inr, Bool-cases,
}
use nova_key_daemon.Common.Text.{Unicode, to_lower, index, is_ascii, lower_byte}
use nova_key_daemon.Logging.{
  value_length, mark, replace_value, redact_at, redact_more, redact_step, redact_key,
}
use nova_key_daemon.Logging.Marked.{
  index_stable, map-lower-append, length-map-lower, is_ascii-append, plain_marked, marked_value,
}

module _ (u : Unicode) (k : Bytes) (pos : 0 < length k) where
  -- An ASCII line in which the first match of the key is followed by a value.
  record Stuck (s : Bytes) : Type 0 where
    before : Bytes
    value : Bytes
    at : ℕ
    split : s ≡ before ++ value
    plain : (is_ascii before && is_ascii value) ≡ true
    found : index (map lower_byte before ++ map lower_byte value) k ≡ some at
    ends : at + length k ≡ length before
    some_value : ltb 0 (value_length value) ≡ true

  to_lower_plain :
      (a v : Bytes)
      → (is_ascii a && is_ascii v) ≡ true
      → to_lower u (a ++ v) ≡ map lower_byte a ++ map lower_byte v
  unfolding to_lower
  to_lower_plain a v plain =
      ap (λ b. if b then map lower_byte (a ++ v) else u.lower (a ++ v))
        (is_ascii-append a v ∙ plain)
      ∙ map-lower-append a v

  redact_step-parts :
      (a v : Bytes) (i : ℕ)
      → (is_ascii a && is_ascii v) ≡ true
      → index (map lower_byte a ++ map lower_byte v) k ≡ some i
      → i + length k ≡ length a
      → redact_step u k (a ++ v) ≡ replace_value (length a) (a ++ v)
  unfolding redact_step
  redact_step-parts a v i plain found ends =
      ap (λ t. redact_at k (a ++ v) (index t k)) (to_lower_plain a v plain)
      ∙ ap (redact_at k (a ++ v)) found
      ∙ ap (λ n. replace_value n (a ++ v)) ends

  replace_value-parts :
      (a v : Bytes)
      → ltb 0 (value_length v) ≡ true
      → replace_value (length a) (a ++ v) ≡ some (a ++ (mark ++ drop (value_length v) v))
  unfolding replace_value
  replace_value-parts a v h =
      rw (drop-append (length a) a v refl, take-append (length a) a v refl, h) refl

  marked-Stuck :
      (a v : Bytes) (i : ℕ)
      → (is_ascii a && is_ascii v) ≡ true
      → index (map lower_byte a ++ map lower_byte v) k ≡ some i
      → i + length k ≡ length a
      → Stuck (a ++ (mark ++ drop (value_length v) v))
  marked-Stuck a v i plain found ends = record {
    before = a;
    value = mark ++ drop (value_length v) v;
    at = i;
    split = refl;
    plain = plain_marked a v (value_length v) plain;
    found =
        index_stable (map lower_byte a) (map lower_byte v)
          (map lower_byte (mark ++ drop (value_length v) v)) k i found
          (omega (arith, length-map-lower a)) pos;
    ends = ends;
    some_value = marked_value (drop (value_length v) v);
  }

  redact_key_next :
      (fuel : ℕ) (s out : Bytes)
      → redact_step u k s ≡ some out
      → redact_key u (suc fuel) k s ≡ redact_key u fuel k out
  unfolding redact_key
  redact_key_next fuel s out h = ap (redact_more (λ o. redact_key u fuel k o) s) h

  redact_key-Stuck : (fuel : ℕ) (s : Bytes) → Stuck s → redact_key u fuel k s ≡ none
  redact_key-Stuck zero s w = unfold redact_key in refl
  redact_key-Stuck (suc fuel) s w =
      let next = w.before ++ (mark ++ drop (value_length w.value) w.value) in
      redact_key_next fuel s next (
        ap (redact_step u k) w.split
        ∙ redact_step-parts w.before w.value w.at w.plain w.found w.ends
        ∙ replace_value-parts w.before w.value w.some_value)
      ∙ redact_key-Stuck fuel next (marked-Stuck w.before w.value w.at w.plain w.found w.ends)

  replaced_value :
      (n : ℕ) (s out : Bytes)
      → replace_value n s ≡ some out
      → (ltb 0 (value_length (drop n s)) ≡ true) × (n ≤ length s)
  unfolding replace_value
  replaced_value n s out h = elim (Bool-cases (ltb 0 (value_length (drop n s)))) [
    | inr e ↦ absurd (none_some (rw e at h))
    | inl e ↦ (e, omega (arith, has_value (drop n s) e, length-drop n s))
  ]
    where
      none_some : {x : Bytes} → none ≡ some x → ⊥
      none_some e = cc

      has_value : (v : Bytes) → ltb 0 (value_length v) ≡ true → 0 < length v
      has_value [] e = unfold value_length in absurd (ground arith)
      has_value (c ∷ v) e = omega arith

  -- A line that the first round changes is one that every round changes.
  redact_step-Stuck : (s out : Bytes) → is_ascii s ≡ true → redact_step u k s ≡ some out → Stuck s
  unfolding redact_step
  redact_step-Stuck s out plain = from (index (to_lower u s) k) refl
    where
      lowered : to_lower u s ≡ map lower_byte s
      lowered = unfold to_lower in ap (λ b. if b then map lower_byte s else u.lower s) plain

      from : (o : Option ℕ) → index (to_lower u s) k ≡ o → redact_at k s o ≡ some out → Stuck s
      from none e h = absurd (none_some h)
        where
          none_some : {x : Bytes} → none ≡ some x → ⊥
          none_some e = cc
      from (some i) e h =
          let n = i + length k in
          let (valued, le) = replaced_value n s out h in
          record {
            before = take n s;
            value = drop n s;
            at = i;
            split = sym (take-append-drop n s);
            plain =
                sym (is_ascii-append (take n s) (drop n s))
                ∙ ap is_ascii (take-append-drop n s)
                ∙ plain;
            found =
                ap (λ t. index t k)
                  (sym (map-lower-append (take n s) (drop n s))
                    ∙ ap (map lower_byte) (take-append-drop n s)
                    ∙ sym lowered)
                ∙ e;
            ends = sym (length-take n s le);
            some_value = valued;
          }

  -- The loop of a key, on an ASCII line: either the first round changes nothing and the loop ends
  -- there, or no amount of fuel is enough.
  pub redact_key_lem :
      (fuel : ℕ) (s : Bytes)
      → is_ascii s ≡ true
      → (redact_step u k s ≢ none → redact_key u fuel k s ≡ none)
        × (redact_step u k s ≡ none → redact_key u (suc fuel) k s ≡ some s)
  redact_key_lem fuel s plain = (changed, unchanged)
    where
      changed : redact_step u k s ≢ none → redact_key u fuel k s ≡ none
      changed h = elim (Option-cases (redact_step u k s)) [
        | inl e ↦ absurd (h e)
        | inr (out, e) ↦ redact_key-Stuck fuel s (redact_step-Stuck s out plain e)
      ]

      unchanged : redact_step u k s ≡ none → redact_key u (suc fuel) k s ≡ some s
      unchanged h = unfold redact_key in ap (redact_more (λ o. redact_key u fuel k o) s) h
