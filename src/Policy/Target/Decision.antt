-- ===== src/Policy/Target/Decision.antt =====
-- What the policy decides, told from the configured entries: normalizing the lists, dropping the
-- empty entries and the repeated ones changes no decision.
use nova_key_daemon.Common.{
  ◌≡◌, refl, ap, ◌∙◌, Bool, true, false, not, ◌&&◌, ◌||◌, List, [], ◌∷◌, ◌++◌, map, some, arith,
  if◌then◌else◌, Bytes, ◌=?◌, contains, Result, ok, err,
}
use nova_key_daemon.Common.Text.{Unicode, contains_text}
use nova_key_daemon.Config.{ServerConfig}
use nova_key_daemon.Policy.Target.{
  TargetError, denied, not_allowed, built_in, is_empty, normalize_list, normalize_proc_name,
  normalize_proc_list, normalize_title, normalize_title_list, title_matches_any, proc_on, title_on,
  decide_target, decide_focused, enforce_target_policy,
}

contains-append :
    (xs ys : List Bytes) (n : Bytes) → contains (xs ++ ys) n ≡ (contains xs n || contains ys n)
contains-append [] ys n = refl
contains-append (x ∷ xs) ys n = ground (arith, contains-append xs ys n)

title_matches_any-append :
    (t : Bytes) (xs ys : List Bytes)
    → title_matches_any t (xs ++ ys) ≡ (title_matches_any t xs || title_matches_any t ys)
unfolding title_matches_any
title_matches_any-append t [] ys = refl
title_matches_any-append t (x ∷ xs) ys = ground (arith, title_matches_any-append t xs ys)

abbrev any_on : (Bytes → Bool) → List Bytes → Bool
any_on m [] = false
any_on m (x ∷ xs) = m x || any_on m xs

any_on_seen :
    (m : Bytes → Bool) (xs : List Bytes) (p : Bytes)
    → contains xs p ≡ true
    → m p ≡ true
    → any_on m xs ≡ true
any_on_seen m [] p h k = cc
any_on_seen m (x ∷ xs) p h k = ground (arith, any_on_seen m xs p)

-- Whether a pattern is one and the title contains it.
matches : Bytes → Bytes → Bool
matches t p = not (p =? []) && contains_text t p

title_matches_any-any_on :
    (t : Bytes) (xs : List Bytes) → title_matches_any t xs ≡ any_on (matches t) xs
unfolding title_matches_any matches
title_matches_any-any_on t [] = refl
title_matches_any-any_on t (x ∷ xs) =
    ap (λ b. (not (x =? []) && contains_text t x) || b) (title_matches_any-any_on t xs)

-- A pattern that is on the list already adds nothing.
title_matches_seen :
    (t : Bytes) (xs : List Bytes) (p : Bytes)
    → contains xs p ≡ true
    → title_matches_any t (p ∷ []) ≡ true
    → title_matches_any t xs ≡ true
title_matches_seen t xs p h k =
    title_matches_any-any_on t xs
    ∙ any_on_seen (matches t) xs p h (or_false (matches t p) (rw title_matches_any-any_on at k))
  where
    or_false : (b : Bool) → (b || false) ≡ true → b ≡ true
    or_false true e = refl
    or_false false e = e

abbrev pub all_empty : List Bytes → Bool
all_empty [] = true
all_empty (x ∷ xs) = (x =? []) && all_empty xs

module _ (f : Bytes → Bytes) where
  contains-normalize_list :
      (xs out : List Bytes) (n : Bytes)
      → contains (normalize_list f xs out) n
        ≡ (contains out n || (not (n =? []) && contains (map f xs) n))
  unfolding normalize_list
  contains-normalize_list [] out n = ground arith
  contains-normalize_list (x ∷ xs) out n =
      contains-normalize_list xs
        (if (f x =? []) || contains out (f x) then out else out ++ (f x ∷ [])) n
      ∙ ground (arith, contains-append out (f x ∷ []) n)

  title_matches_any-normalize_list :
      (t : Bytes) (xs out : List Bytes)
      → title_matches_any t (normalize_list f xs out)
        ≡ (title_matches_any t out || title_matches_any t (map f xs))
  unfolding normalize_list title_matches_any
  title_matches_any-normalize_list t [] out = ground arith
  title_matches_any-normalize_list t (x ∷ xs) out =
      title_matches_any-normalize_list t xs
        (if (f x =? []) || contains out (f x) then out else out ++ (f x ∷ []))
      ∙ ground (arith, title_matches_any-append t out (f x ∷ []), title_matches_seen t out (f x))

  is_empty-normalize_list :
      (xs out : List Bytes)
      → is_empty (normalize_list f xs out) ≡ (is_empty out && all_empty (map f xs))
  unfolding normalize_list
  is_empty-normalize_list [] out = ground arith
  is_empty-normalize_list (x ∷ xs) out =
      is_empty-normalize_list xs
        (if (f x =? []) || contains out (f x) then out else out ++ (f x ∷ []))
      ∙ ground arith

-- Whether the focused process, or the focused title, meets an entry as it was configured.
abbrev pub meets_proc : Unicode → Bytes → List Bytes → Bool
meets_proc u proc names =
    let p = normalize_proc_name u proc in
    not (p =? []) && contains (map (normalize_proc_name u) names) p

abbrev pub meets_title : Unicode → Bytes → List Bytes → Bool
meets_title u title titles =
    let t = normalize_title u title in
    not (t =? []) && title_matches_any t (map (normalize_title u) titles)

-- Whether a list holds an entry that is not blank.
abbrev pub restricts : (Bytes → Bytes) → List Bytes → Bool
restricts f entries = not (all_empty (map f entries))

-- The policy in the words of the configuration: a match of a denied entry refuses, whatever is
-- allowed; otherwise, where an allowed entry is given, one has to match; otherwise the built-in
-- list has to match if it is in use, and everything passes if it is not.
unfoldable pub policy : Unicode → ServerConfig → Bytes → Bytes → Result TargetError (Unit {0})
policy u cfg proc title =
    if meets_proc u proc cfg.denied_process_names || meets_title u title cfg.denied_window_titles
    then err denied
    else if restricts (normalize_proc_name u) cfg.allowed_process_names
        || restricts (normalize_title u) cfg.allowed_window_titles
    then (if meets_proc u proc cfg.allowed_process_names
          || meets_title u title cfg.allowed_window_titles
        then ok tt
        else err not_allowed)
    else if cfg.use_built_in_allowlist && not (meets_proc u proc built_in)
    then err not_allowed
    else ok tt

proc_on-normalize :
    (u : Unicode) (proc : Bytes) (names : List Bytes)
    → proc_on (normalize_proc_name u proc) (normalize_proc_list u names) ≡ meets_proc u proc names
unfolding normalize_proc_list
proc_on-normalize u proc names =
    both (normalize_proc_name u proc)
      (contains-normalize_list (normalize_proc_name u) names [] (normalize_proc_name u proc))
  where
    both :
        (p : Bytes)
        → contains (normalize_list (normalize_proc_name u) names []) p
          ≡ (false || (not (p =? []) && contains (map (normalize_proc_name u) names) p))
        → (not (p =? []) && contains (normalize_list (normalize_proc_name u) names []) p)
          ≡ (not (p =? []) && contains (map (normalize_proc_name u) names) p)
    both p e = rw e (absorb (p =? []) (contains (map (normalize_proc_name u) names) p))
      where
        absorb : (b c : Bool) → (not b && (false || (not b && c))) ≡ (not b && c)
        absorb true c = refl
        absorb false c = refl

title_on-normalize :
    (u : Unicode) (title : Bytes) (titles : List Bytes)
    → title_on (normalize_title u title) (normalize_title_list u titles)
      ≡ meets_title u title titles
unfolding normalize_title_list title_matches_any
title_on-normalize u title titles =
    rw (title_matches_any-normalize_list (normalize_title u) (normalize_title u title) titles [])

-- The decision from the answers of the single tests.
abbrev verdict : Bool → Bool → Bool → Bool → Bool → Bool → Bool → Result TargetError (Unit {0})
verdict dp dt restricted ap at in_use bi =
    if dp || dt
    then err denied
    else if restricted
    then (if ap || at then ok tt else err not_allowed)
    else if in_use && not bi
    then err not_allowed
    else ok tt

verdict_cong :
    {d d' e e' r r' a a' c c' i i' : Bool} (b : Bool)
    → d ≡ d'
    → e ≡ e'
    → r ≡ r'
    → a ≡ a'
    → c ≡ c'
    → i ≡ i'
    → verdict d e r a c b i ≡ verdict d' e' r' a' c' b i'
verdict_cong b p q s t v w = λ j. verdict (p j) (q j) (s j) (t j) (v j) b (w j)

decide_target_lem :
    (proc title : Bytes) (ap dp at dt : List Bytes) (b : Bool) (bi : List Bytes)
    → decide_target proc title ap dp at dt b bi
      ≡ verdict
          (proc_on proc dp)
          (title_on title dt)
          (not (is_empty ap) || not (is_empty at))
          (proc_on proc ap)
          (title_on title at)
          b
          (proc_on proc bi)
unfolding decide_target
decide_target_lem proc title ap dp at dt b bi =
    flat (proc_on proc dp) (title_on title dt) (not (is_empty ap) || not (is_empty at))
      (proc_on proc ap) (title_on title at) b (proc_on proc bi)
  where
    flat :
        (d e r a c b' i : Bool)
        → ◌≡◌ {A = Result TargetError (Unit {0})}
            (if d
              then err denied
              else if e
              then err denied
              else if r
              then (if a then ok tt else if c then ok tt else err not_allowed)
              else if not b'
              then ok tt
              else if i
              then ok tt
              else err not_allowed)
            (verdict d e r a c b' i)
    flat d e r a c b' i = ground arith

restricts-normalize :
    (u : Unicode) (names titles : List Bytes)
    → (not (is_empty (normalize_proc_list u names))
        || not (is_empty (normalize_title_list u titles)))
      ≡ (restricts (normalize_proc_name u) names || restricts (normalize_title u) titles)
unfolding normalize_proc_list normalize_title_list
restricts-normalize u names titles = λ j.
    not (is_empty-normalize_list (normalize_proc_name u) names [] j)
    || not (is_empty-normalize_list (normalize_title u) titles [] j)

decide_focused-eq-policy :
    (u : Unicode) (cfg : ServerConfig) (proc title : Bytes)
    → decide_focused u cfg (some (proc, title)) ≡ policy u cfg proc title
unfolding policy
decide_focused-eq-policy u cfg proc title =
    decide_target_lem (normalize_proc_name u proc) (normalize_title u title)
      (normalize_proc_list u cfg.allowed_process_names)
      (normalize_proc_list u cfg.denied_process_names)
      (normalize_title_list u cfg.allowed_window_titles)
      (normalize_title_list u cfg.denied_window_titles) cfg.use_built_in_allowlist
      (normalize_proc_list u built_in)
    ∙ verdict_cong cfg.use_built_in_allowlist (proc_on-normalize u proc cfg.denied_process_names)
        (title_on-normalize u title cfg.denied_window_titles)
        (restricts-normalize u cfg.allowed_process_names cfg.allowed_window_titles)
        (proc_on-normalize u proc cfg.allowed_process_names)
        (title_on-normalize u title cfg.allowed_window_titles) (proc_on-normalize u proc built_in)

-- With the policy on and a focused target known, the daemon decides by the policy told from the
-- configured entries.
pub enforce_target_policy-eq-policy :
    (u : Unicode) (cfg : ServerConfig) (proc title : Bytes)
    → cfg.target_policy_enabled ≡ true
    → enforce_target_policy u cfg (some (proc, title)) ≡ policy u cfg proc title
unfolding enforce_target_policy
enforce_target_policy-eq-policy u cfg proc title on =
    ap (λ b. if not b then ok tt else decide_focused u cfg (some (proc, title))) on
    ∙ decide_focused-eq-policy u cfg proc title
