-- ===== src/Policy/Target/Correct.antt =====
-- enforceTargetPolicy of cmd/novakey/target_policy.go decides as the rules mean.
use nova_key_daemon.Common.{
  ◌≡◌, ◌⊎◌, ◌↔◌, inl, inr, refl, sym, ◌∙◌, Bool, true, false, not, ◌&&◌, ◌||◌, arith, if◌then◌else◌,
  some, Bytes, Result, ok, err,
}
use nova_key_daemon.Common.Text.{Unicode}
use nova_key_daemon.Config.{ServerConfig}
use nova_key_daemon.Policy.Target.{
  TargetError, denied, not_allowed, built_in, normalize_proc_name, normalize_title,
  enforce_target_policy,
}
use nova_key_daemon.Policy.Target.Rules.{
  program_name, title_text, NamesProgram, Denied, Allowed, NoAllowedRule, Permitted, by_rule,
  by_absence, by_built_in,
}
use nova_key_daemon.Policy.Target.Matching.{
  normalize_proc_name-eq-program_name, normalize_title-eq-title_text,
}
use nova_key_daemon.Policy.Target.Decision.{
  meets_proc, meets_title, restricts, policy, enforce_target_policy-eq-policy,
}
use nova_key_daemon.Policy.Target.Reading.{meets_proc-names, meets_title-patterns, restricts-none}

-- A pair of tests is one of two rules.
either_rule :
    {P Q : Type 0} (a b : Bool) → (a ≡ true) ↔ P → (b ≡ true) ↔ Q → ((a || b) ≡ true) ↔ (P ⊎ Q)
either_rule true b p q = (λ e. inl (p.0 refl), λ s. refl)
either_rule {P} {Q} false b p q = (λ e. inr (q.0 e), back)
  where
    clash : false ≡ true → ⊥
    clash e = cc

    back : P ⊎ Q → b ≡ true
    back (inl x) = absurd (clash (p.1 x))
    back (inr y) = q.1 y

module _ (u : Unicode) (cfg : ServerConfig) (proc title : Bytes) where
  Denied-iff :
      ((meets_proc u proc cfg.denied_process_names || meets_title u title cfg.denied_window_titles)
        ≡ true)
      ↔ Denied u cfg proc title
  Denied-iff =
      either_rule _ _ (meets_proc-names u proc cfg.denied_process_names)
        (meets_title-patterns u title cfg.denied_window_titles)

  Allowed-iff :
      ((meets_proc u proc cfg.allowed_process_names
          || meets_title u title cfg.allowed_window_titles)
        ≡ true)
      ↔ Allowed u cfg proc title
  Allowed-iff =
      either_rule _ _ (meets_proc-names u proc cfg.allowed_process_names)
        (meets_title-patterns u title cfg.allowed_window_titles)

  NoAllowedRule-iff :
      ((restricts (normalize_proc_name u) cfg.allowed_process_names
          || restricts (normalize_title u) cfg.allowed_window_titles)
        ≡ false)
      ↔ NoAllowedRule u cfg
  NoAllowedRule-iff =
      let names =
        restricts-none (normalize_proc_name u) (program_name u)
          (λ s. normalize_proc_name-eq-program_name u s) cfg.allowed_process_names in
      let titles =
        restricts-none (normalize_title u) (title_text u) (λ s. normalize_title-eq-title_text u s)
          cfg.allowed_window_titles in
      (
        λ e. (names.0 (split_left _ _ e), titles.0 (split_right _ _ e)),
        λ r. join _ _ (names.1 r.0) (titles.1 r.1),
      )
    where
      split_left : (a b : Bool) → (a || b) ≡ false → a ≡ false
      split_left a b e = ground arith

      split_right : (a b : Bool) → (a || b) ≡ false → b ≡ false
      split_right a b e = ground arith

      join : (a b : Bool) → a ≡ false → b ≡ false → (a || b) ≡ false
      join a b x y = ground arith

  -- An allowed rule that meets the window is no blank one.
  pub Allowed-restricts : Allowed u cfg proc title → ¬ NoAllowedRule u cfg
  Allowed-restricts (inl (name, listed, e, n)) r = n (sym e ∙ r.0 name listed)
  Allowed-restricts (inr (pattern, listed, n, found)) r = n (r.1 pattern listed)

  abbrev verdict : Bool → Bool → Bool → Bool → Bool → Result TargetError (Unit {0})
  verdict d r a use_list b =
      if d
      then err denied
      else if r
      then (if a then ok tt else err not_allowed)
      else if use_list && not b
      then err not_allowed
      else ok tt

  no_flag : false ≡ true → ⊥
  no_flag e = cc

  yes_flag : true ≡ false → ⊥
  yes_flag e = cc

  refused : (x : TargetError) → ◌≡◌ {A = Result TargetError (Unit {0})} (err x) (ok tt) → ⊥
  refused x e = cc

  verdict-Permitted :
      (d r a l b : Bool)
      → (d ≡ true) ↔ Denied u cfg proc title
      → (r ≡ false) ↔ NoAllowedRule u cfg
      → (a ≡ true) ↔ Allowed u cfg proc title
      → l ≡ cfg.use_built_in_allowlist
      → (b ≡ true) ↔ NamesProgram u proc built_in
      → verdict d r a l b ≡ ok tt
      → Permitted u cfg proc title
  verdict-Permitted true r a l b hd hr ha hl hb h = absurd (refused denied h)
  verdict-Permitted false true true l b hd hr ha hl hb h =
      by_rule (λ x. no_flag (hd.1 x)) (ha.0 refl)
  verdict-Permitted false true false l b hd hr ha hl hb h = absurd (refused not_allowed h)
  verdict-Permitted false false a false b hd hr ha hl hb h =
      by_absence (λ x. no_flag (hd.1 x)) (hr.0 refl) (sym hl)
  verdict-Permitted false false a true true hd hr ha hl hb h =
      by_built_in (λ x. no_flag (hd.1 x)) (hr.0 refl) (hb.0 refl)
  verdict-Permitted false false a true false hd hr ha hl hb h = absurd (refused not_allowed h)

  Permitted-verdict :
      (d r a l b : Bool)
      → (d ≡ true) ↔ Denied u cfg proc title
      → (r ≡ false) ↔ NoAllowedRule u cfg
      → (a ≡ true) ↔ Allowed u cfg proc title
      → l ≡ cfg.use_built_in_allowlist
      → (b ≡ true) ↔ NamesProgram u proc built_in
      → Permitted u cfg proc title
      → verdict d r a l b ≡ ok tt
  Permitted-verdict true r a l b hd hr ha hl hb (by_rule n x) = absurd (n (hd.0 refl))
  Permitted-verdict true r a l b hd hr ha hl hb (by_absence n x y) = absurd (n (hd.0 refl))
  Permitted-verdict true r a l b hd hr ha hl hb (by_built_in n x y) = absurd (n (hd.0 refl))
  Permitted-verdict false true a l b hd hr ha hl hb (by_rule n x) = rw (ha.1 x) refl
  Permitted-verdict false true a l b hd hr ha hl hb (by_absence n x y) = absurd (yes_flag (hr.1 x))
  Permitted-verdict false true a l b hd hr ha hl hb (by_built_in n x y) = absurd (yes_flag (hr.1 x))
  Permitted-verdict false false a l b hd hr ha hl hb (by_rule n x) =
      absurd (Allowed-restricts x (hr.0 refl))
  Permitted-verdict false false a l b hd hr ha hl hb (by_absence n x y) = rw (hl ∙ y) refl
  Permitted-verdict false false a l b hd hr ha hl hb (by_built_in n x y) = listed l b (hb.1 y)
    where
      listed :
          (k c : Bool)
          → c ≡ true
          → ◌≡◌ {A = Result TargetError (Unit {0})}
              (if k && not c then err not_allowed else ok tt)
              (ok tt)
      listed k c e = ground arith

  verdict-Denied :
      (d r a l b : Bool)
      → (d ≡ true) ↔ Denied u cfg proc title
      → (verdict d r a l b ≡ err denied) ↔ Denied u cfg proc title
  verdict-Denied true r a l b hd = (λ e. hd.0 refl, λ x. refl)
  verdict-Denied false r a l b hd =
      (λ e. absurd (other r a (l && not b) e), λ x. absurd (no_flag (hd.1 x)))
    where
      other :
          (x y z : Bool)
          → ◌≡◌ {A = Result TargetError (Unit {0})}
              (if x
                then (if y then ok tt else err not_allowed)
                else if z
                then err not_allowed
                else ok tt)
              (err denied)
          → ⊥
      other true true z e = cc
      other true false z e = cc
      other false y true e = cc
      other false y false e = cc

  -- With the policy on and the focused program and title known, the window is let through exactly if
  -- the configured rules permit it, and it is refused as denied exactly if a denied rule meets it. The
  -- built-in list, where it is in use, decides whenever there are no allowed rules, also where there
  -- are denied ones.
  pub enforce_target_policy_iff :
      cfg.target_policy_enabled ≡ true
      → ((enforce_target_policy u cfg (some (proc, title)) ≡ ok tt) ↔ Permitted u cfg proc title)
        × ((enforce_target_policy u cfg (some (proc, title)) ≡ err denied)
            ↔ Denied u cfg proc title)
  unfolding policy
  enforce_target_policy_iff on =
      let same = enforce_target_policy-eq-policy u cfg proc title on in
      let d = Denied-iff in
      let r = NoAllowedRule-iff in
      let a = Allowed-iff in
      let b = meets_proc-names u proc built_in in
      let e = verdict-Denied _ _ _ _ _ d in
      (
        (
          λ h. verdict-Permitted _ _ _ _ _ d r a refl b (sym same ∙ h),
          λ p. same ∙ Permitted-verdict _ _ _ _ _ d r a refl b p,
        ),
        (λ h. e.0 (sym same ∙ h), λ x. same ∙ e.1 x),
      )
