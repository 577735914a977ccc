-- ===== src/Policy/Target/Reading.antt =====
-- The tests of cmd/novakey/target_policy.go on whole lists are the rules' meaning.
use mathlib.Core.Path.{subst}
use mathlib.Core.List.{Memᴰ}
use mathlib.Core.List.Memᴰ
use nova_key_daemon.Common.{
  ◌≡◌, ◌≢◌, ◌↔◌, inl, inr, refl, ap, sym, ◌∙◌, Bool, true, false, not, ◌&&◌, ◌||◌, List, [], ◌∷◌,
  ◌++◌, map, Bool-cases, arith, Bytes, ◌=?◌, contains,
}
use nova_key_daemon.Common.Text.{Unicode, contains_text}
use nova_key_daemon.Common.Text.Search.{contains_text-split, contains_text-append}
use nova_key_daemon.Policy.Target.{normalize_proc_name, normalize_title, title_matches_any}
use nova_key_daemon.Policy.Target.Rules.{program_name, title_text, NamesProgram, ShowsTitle}
use nova_key_daemon.Policy.Target.Decision.{meets_proc, meets_title, restricts, all_empty}
use nova_key_daemon.Policy.Target.Matching.{
  normalize_proc_name-eq-program_name, normalize_title-eq-title_text, contains-map_found,
  contains-map_there,
}

module _ (u : Unicode) where
  -- The test of the program on a list is whether one of the configured names is its name.
  pub meets_proc-names :
      (proc : Bytes) (names : List Bytes)
      → (meets_proc u proc names ≡ true) ↔ NamesProgram u proc names
  meets_proc-names proc names = (found, there)
    where
      name_eq : (s : Bytes) → normalize_proc_name u s ≡ program_name u s
      name_eq s = normalize_proc_name-eq-program_name u s

      tests : (p : Bytes) (b : Bool) → (not (p =? []) && b) ≡ true → (p ≢ []) × (b ≡ true)
      tests p b h = ground arith

      tests_back : (p : Bytes) (b : Bool) → p ≢ [] → b ≡ true → (not (p =? []) && b) ≡ true
      tests_back p b n h = ground arith

      found : meets_proc u proc names ≡ true → NamesProgram u proc names
      found h =
          let p = normalize_proc_name u proc in
          let (n, k) = tests p (contains (map (normalize_proc_name u) names) p) h in
          let (name, listed, e) =
            contains-map_found (normalize_proc_name u) (program_name u) name_eq names p k in
          (name, listed, e ∙ name_eq proc, λ z. n (name_eq proc ∙ z))

      there : NamesProgram u proc names → meets_proc u proc names ≡ true
      there (name, listed, e, n) =
          let p = normalize_proc_name u proc in
          tests_back p (contains (map (normalize_proc_name u) names) p)
            (λ z. n (sym (name_eq proc) ∙ z))
            (contains-map_there (normalize_proc_name u) (program_name u) name_eq names p name listed
              (e ∙ sym (name_eq proc)))

  -- The part of a title test that one pattern is.
  abbrev Shown : Bytes → Bytes → Type 0
  Shown t p = (p ≢ []) × ((a : Bytes) × (b : Bytes) × (t ≡ a ++ (p ++ b)))

  pattern-Shown : (t p : Bytes) → (not (p =? []) && contains_text t p) ≡ true → Shown t p
  pattern-Shown t p h = both (λ k. contains_text-split t p k) h
    where
      both : {B : Type 0} {b : Bool} → (b ≡ true → B) → (not (p =? []) && b) ≡ true → (p ≢ []) × B
      both f e = (λ z. absurd (ground arith), f (ground arith))

  Shown-pattern : (t p : Bytes) → Shown t p → (not (p =? []) && contains_text t p) ≡ true
  Shown-pattern t p (n, (a, b, e)) =
      both (contains_text t p) (ap (λ x. contains_text x p) e ∙ contains_text-append a p b)
    where
      both : (c : Bool) → c ≡ true → (not (p =? []) && c) ≡ true
      both c k = ground arith

  titles_found :
      (t : Bytes) (patterns : List Bytes)
      → title_matches_any t (map (normalize_title u) patterns) ≡ true
      → (pattern : Bytes) × Memᴰ pattern patterns × Shown t (title_text u pattern)
  unfolding title_matches_any
  titles_found t [] h = cc
  titles_found t (x ∷ patterns) h =
      let p = normalize_title u x in
      elim (Bool-cases (not (p =? []) && contains_text t p)) [
        | inl e ↦ (x, Memᴰ.head refl, by_name x (pattern-Shown t p e))
        | inr e ↦
            let (pattern, listed, s) = titles_found t patterns (later _ _ e h) in
            (pattern, Memᴰ.tail listed, s)
      ]
    where
      later : (a b : Bool) → a ≡ false → (a || b) ≡ true → b ≡ true
      later a b e k = ground arith

      by_name : (x : Bytes) → Shown t (normalize_title u x) → Shown t (title_text u x)
      by_name x s = subst (Shown t) (normalize_title-eq-title_text u x) s

  titles_there :
      (t : Bytes) (patterns : List Bytes) (pattern : Bytes)
      → Memᴰ pattern patterns
      → Shown t (title_text u pattern)
      → title_matches_any t (map (normalize_title u) patterns) ≡ true
  unfolding title_matches_any
  titles_there t [] pattern h s = absurd (Memᴰ.not-nil h)
  titles_there t (x ∷ patterns) pattern (Memᴰ.head at) s = first _ _ (
      Shown-pattern t (normalize_title u x) (
        subst (Shown t) (sym (normalize_title-eq-title_text u pattern) ∙ ap (normalize_title u) at)
          s))
    where
      first : (a b : Bool) → a ≡ true → (a || b) ≡ true
      first a b e = ground arith
  titles_there t (x ∷ patterns) pattern (Memᴰ.tail h) s =
      second _ _ (titles_there t patterns pattern h s)
    where
      second : (a b : Bool) → b ≡ true → (a || b) ≡ true
      second a b e = ground arith

  -- The test of the title is whether one of the configured patterns stands in it.
  pub meets_title-patterns :
      (title : Bytes) (patterns : List Bytes)
      → (meets_title u title patterns ≡ true) ↔ ShowsTitle u title patterns
  meets_title-patterns title patterns = (found, there)
    where
      title_eq : normalize_title u title ≡ title_text u title
      title_eq = normalize_title-eq-title_text u title

      second : (a b : Bool) → (a && b) ≡ true → b ≡ true
      second a b e = ground arith

      nonempty : (t p : Bytes) → Shown t p → t ≢ []
      nonempty t [] (n, r) z = n refl
      nonempty t (c ∷ p) (n, ([], b, e)) z = absurd (clash (sym z ∙ e))
        where
          clash : [] ≡ c ∷ (p ++ b) → ⊥
          clash k = cc
      nonempty t (c ∷ p) (n, (x ∷ a, b, e)) z = absurd (clash (sym z ∙ e))
        where
          clash : [] ≡ x ∷ (a ++ (c ∷ (p ++ b))) → ⊥
          clash k = cc

      tests_back : (t : Bytes) (b : Bool) → t ≢ [] → b ≡ true → (not (t =? []) && b) ≡ true
      tests_back t b n h = ground arith

      found : meets_title u title patterns ≡ true → ShowsTitle u title patterns
      found h =
          let t = normalize_title u title in
          let (pattern, listed, (n, (a, b, e))) =
            titles_found t patterns
              (second (not (t =? [])) (title_matches_any t (map (normalize_title u) patterns)) h) in
          (pattern, listed, n, (a, b, sym title_eq ∙ e))

      there : ShowsTitle u title patterns → meets_title u title patterns ≡ true
      there (pattern, listed, n, (a, b, e)) =
          let t = normalize_title u title in
          let s : Shown t (title_text u pattern) = (n, (a, b, title_eq ∙ e)) in
          tests_back t (title_matches_any t (map (normalize_title u) patterns))
            (nonempty t (title_text u pattern) s) (titles_there t patterns pattern listed s)

module _ (f g : Bytes → Bytes) (same : (s : Bytes) → f s ≡ g s) where
  -- A list restricts nothing exactly if all its entries are blank.
  pub restricts-none :
      (entries : List Bytes)
      → (restricts f entries ≡ false) ↔ ((x : Bytes) → Memᴰ x entries → g x ≡ [])
  restricts-none entries = (blank entries, all_blank entries)
    where
      both : (p : Bytes) (b : Bool) → not ((p =? []) && b) ≡ false → (p ≡ []) × (not b ≡ false)
      both p b h = ground arith

      join : (p : Bytes) (b : Bool) → p ≡ [] → not b ≡ false → not ((p =? []) && b) ≡ false
      join p b e h = ground arith

      blank : (xs : List Bytes) → restricts f xs ≡ false → (x : Bytes) → Memᴰ x xs → g x ≡ []
      blank [] h x m = absurd (Memᴰ.not-nil m)
      blank (y ∷ ys) h x (Memᴰ.head e) =
          ap g e ∙ sym (same y) ∙ (both (f y) (all_empty (map f ys)) h).0
      blank (y ∷ ys) h x (Memᴰ.tail m) = blank ys (both (f y) (all_empty (map f ys)) h).1 x m

      all_blank : (xs : List Bytes) → ((x : Bytes) → Memᴰ x xs → g x ≡ []) → restricts f xs ≡ false
      all_blank [] h = refl
      all_blank (y ∷ ys) h =
          join (f y) (all_empty (map f ys)) (same y ∙ h y (Memᴰ.head refl))
            (all_blank ys (λ x m. h x (Memᴰ.tail m)))
