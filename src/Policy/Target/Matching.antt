-- ===== src/Policy/Target/Matching.antt =====
-- The tests of cmd/novakey/target_policy.go on one list find what the rules mean.
use mathlib.Core.List.{Memᴰ}
use mathlib.Core.List.Memᴰ
use nova_key_daemon.Common.{
  ℕ, zero, suc, ◌+◌, ◌≤◌, ◌≡◌, ◌≢◌, ◌⊎◌, refl, ap, sym, ◌∙◌, Bool, true, false, ◌||◌, List, [], ◌∷◌,
  ◌++◌, map, Option, none, some, Bool-cases, arith, if◌then◌else◌, ◌==◌, ltb, Bytes, codes,
  bytes_dec, ◌=?◌, contains, length, length-append, drop,
}
use nova_key_daemon.Common.Text.{
  Unicode, to_lower, trim_space, trim_suffix, trim_right, trim_left, is_ascii, last_index_byte,
}
use nova_key_daemon.Common.Text.Search.{last_index_byte-none, last_index_byte-some}
use nova_key_daemon.Policy.Target.{
  last_separator, later_index, strip_path, normalize_proc_name, normalize_title,
}
use nova_key_daemon.Policy.Target.Rules.{
  is_separator, has_separator, last_part, program_name, title_text,
}

has_separator-none :
    (s : Bytes)
    → last_index_byte s b'\\' ≡ none
    → last_index_byte s b'/' ≡ none
    → has_separator s ≡ false
has_separator-none [] h k = refl
has_separator-none (c ∷ s) h k =
    let (h', e) = last_index_byte-none c s b'\\' h in
    let (k', f) = last_index_byte-none c s b'/' k in
    neither (c == b'\\') (c == b'/') (has_separator s) e f (has_separator-none s h' k')
  where
    neither : (a b d : Bool) → a ≡ false → b ≡ false → d ≡ false → ((a || b) || d) ≡ false
    neither a b d x y z = ground arith

last_part_whole : (s : Bytes) → has_separator s ≡ false → last_part s ≡ s
last_part_whole [] h = refl
last_part_whole (c ∷ s) h = flag (is_separator c || has_separator s) h
  where
    flag : (b : Bool) → b ≡ false → (if b then last_part s else c ∷ s) ≡ c ∷ s
    flag true e = cc
    flag false e = refl

has_separator-append :
    (a t : Bytes) (c : ℕ) → is_separator c ≡ true → has_separator (a ++ (c ∷ t)) ≡ true
has_separator-append [] t c h = either (is_separator c) (has_separator t) h
  where
    either : (x y : Bool) → x ≡ true → (x || y) ≡ true
    either x y e = ground arith
has_separator-append (x ∷ a) t c h =
    either (is_separator x) (has_separator (a ++ (c ∷ t))) (has_separator-append a t c h)
  where
    either : (y z : Bool) → z ≡ true → (y || z) ≡ true
    either y z e = ground arith

last_part-append :
    (a t : Bytes) (c : ℕ) → is_separator c ≡ true → last_part (a ++ (c ∷ t)) ≡ last_part t
last_part-append [] t c h = flag (has_separator (c ∷ t)) (has_separator-append [] t c h)
  where
    flag : (b : Bool) → b ≡ true → (if b then last_part t else c ∷ t) ≡ last_part t
    flag true e = refl
    flag false e = cc
last_part-append (x ∷ a) t c h =
    flag (has_separator (x ∷ (a ++ (c ∷ t)))) (has_separator-append (x ∷ a) t c h)
    ∙ last_part-append a t c h
  where
    flag :
        (b : Bool)
        → b ≡ true
        → (if b then last_part (a ++ (c ∷ t)) else x ∷ (a ++ (c ∷ t))) ≡ last_part (a ++ (c ∷ t))
    flag true e = refl
    flag false e = cc

-- Where a separator is the last one, the text is cut behind a separator.
Cut : Bytes → ℕ → Type 0
Cut s i = (a : Bytes) × (c : ℕ) × (is_separator c ≡ true) × (s ≡ a ++ (c ∷ drop (suc i) s))

last_separator-Cut : (s : Bytes) (i : ℕ) → last_separator s ≡ some i → Cut s i
unfolding Cut
last_separator-Cut s i h =
    either (last_index_byte s b'\\') (last_index_byte s b'/') backward forward h
  where
    backward : (j : ℕ) → last_index_byte s b'\\' ≡ some j → Cut s j
    backward j e = let (a, same) = last_index_byte-some s b'\\' j e in (a, b'\\', refl, same)

    forward : (j : ℕ) → last_index_byte s b'/' ≡ some j → Cut s j
    forward j e = let (a, same) = last_index_byte-some s b'/' j e in (a, b'/', refl, same)

    index_eq : (j : ℕ) → some j ≡ some i → j ≡ i
    index_eq j e = cc

    larger :
        (j k : ℕ) (b : Bool) → Cut s j → Cut s k → (if b then some k else some j) ≡ some i → Cut s i
    larger j k true x y e = rw (sym (index_eq k e)) y
    larger j k false x y e = rw (sym (index_eq j e)) x

    either :
        (o p : Option ℕ)
        → ((j : ℕ) → o ≡ some j → Cut s j)
        → ((j : ℕ) → p ≡ some j → Cut s j)
        → later_index o p ≡ some i
        → Cut s i
    either none p x y e = y i e
    either (some j) none x y e = x i e
    either (some j) (some k) x y e = larger j k (ltb j k) (x j refl) (y k refl) e

last_separator-none : (s : Bytes) → last_separator s ≡ none → has_separator s ≡ false
last_separator-none s h =
    has_separator-none s (left (last_index_byte s b'\\') (last_index_byte s b'/') h)
      (right (last_index_byte s b'\\') (last_index_byte s b'/') h)
  where
    left : (o p : Option ℕ) → later_index o p ≡ none → o ≡ none
    left none p e = refl
    left (some j) none e = cc
    left (some j) (some k) e = ground arith

    right : (o p : Option ℕ) → later_index o p ≡ none → p ≡ none
    right none p e = e
    right (some j) none e = refl
    right (some j) (some k) e = ground arith

-- The loop's fuel, the length of the text, is enough: it ends at the text behind the last separator.
strip_path-last_part : (fuel : ℕ) (s : Bytes) → length s ≤ fuel → strip_path fuel s ≡ last_part s
unfolding strip_path Cut
strip_path-last_part zero [] h = refl
strip_path-last_part zero (c ∷ s) h = absurd (omega arith)
strip_path-last_part (suc fuel) s h =
    step (last_separator s) (λ t. strip_path-last_part fuel t) refl
  where
    step :
        (o : Option ℕ)
        → ((t : Bytes) → length t ≤ fuel → strip_path fuel t ≡ last_part t)
        → last_separator s ≡ o
        → (elim o [ none ↦ s | some i ↦ strip_path fuel (drop (i + 1) s) ]) ≡ last_part s
    step none ih e = sym (last_part_whole s (last_separator-none s e))
    step (some i) ih e =
        let (a, c, sep, same) = last_separator-Cut s i e in
        let rest = drop (suc i) s in
        let shorter : length rest ≤ fuel =
          omega (arith, h, ap length same, length-append a (c ∷ rest)) in
        ap (λ k. strip_path fuel (drop k s)) {y = suc i} (omega arith)
        ∙ ih rest shorter
        ∙ sym (ap last_part same ∙ last_part-append a rest c sep)

pub normalize_proc_name-eq-program_name :
    (u : Unicode) (s : Bytes) → normalize_proc_name u s ≡ program_name u s
unfolding normalize_proc_name program_name trim_space trim_suffix trim_right is_ascii trim_left
    bytes_dec
normalize_proc_name-eq-program_name u s =
    flag (to_lower u (trim_space u s)) (Bool-cases (to_lower u (trim_space u s) =? []))
  where
    behind : Bytes → Bytes
    behind t = trim_suffix (trim_suffix (trim_space u t) (codes ".app")) (codes ".exe")

    flag :
        (t : Bytes)
        → ((t =? []) ≡ true) ⊎ ((t =? []) ≡ false)
        → (if t =? [] then [] else behind (strip_path (length t) t)) ≡ behind (last_part t)
    flag [] e = refl
    flag (c ∷ t) e = ap behind (strip_path-last_part (length (c ∷ t)) (c ∷ t) (omega arith))

pub normalize_title-eq-title_text : (u : Unicode) (s : Bytes) → normalize_title u s ≡ title_text u s
unfolding normalize_title title_text
normalize_title-eq-title_text u s = refl

module _ (f g : Bytes → Bytes) (same : (s : Bytes) → f s ≡ g s) where
  pub contains-map_found :
      (names : List Bytes) (p : Bytes)
      → contains (map f names) p ≡ true
      → (name : Bytes) × Memᴰ name names × (g name ≡ p)
  contains-map_found [] p h = cc
  contains-map_found (x ∷ names) p h = elim (bytes_dec p (f x)) [
    | yes e ↦ (x, Memᴰ.head refl, sym (same x) ∙ sym e)
    | no n ↦
        let (name, there, e) = contains-map_found names p (later n h) in (name, Memᴰ.tail there, e)
  ]
    where
      later :
          p ≢ f x → (p =? f x || contains (map f names) p) ≡ true → contains (map f names) p ≡ true
      later n e = ground arith

  pub contains-map_there :
      (names : List Bytes) (p name : Bytes)
      → Memᴰ name names
      → g name ≡ p
      → contains (map f names) p ≡ true
  contains-map_there [] p name h e = absurd (Memᴰ.not-nil h)
  contains-map_there (x ∷ names) p name (Memᴰ.head at) e = here (same name ∙ e)
    where
      here : f name ≡ p → ((p =? f x) || contains (map f names) p) ≡ true
      here k = ground (arith, ap f at)
  contains-map_there (x ∷ names) p name (Memᴰ.tail h) e =
      later (contains-map_there names p name h e)
    where
      later : contains (map f names) p ≡ true → ((p =? f x) || contains (map f names) p) ≡ true
      later k = ground arith
