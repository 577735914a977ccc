-- ===== src/Policy/Target/Loaded.antt =====
-- loadConfig of cmd/novakey/config.go and enforceTargetPolicy together: a policy that is switched on
-- and given no rules.
use mathlib.Core.List.{Memᴰ}
use mathlib.Core.List.Memᴰ
use mathlib.Core.Path.{subst}
use nova_key_daemon.Common.{
  ◌≡◌, ◌↔◌, inl, inr, ap, sym, ◌∙◌, Bool, true, false, not, ◌||◌, List, [], arith, some, Bytes, ok,
}
use nova_key_daemon.Common.Dict.{Dict}
use nova_key_daemon.Common.Text.{Unicode}
use nova_key_daemon.Files.{Os}
use nova_key_daemon.Config.{ServerConfig}
use nova_key_daemon.Config.Defaults.{is_empty, restricts_targets}
use nova_key_daemon.Config.Load.{ConfigFormats, load_config}
use nova_key_daemon.Config.Load.Laws.{load_config-restricts_targets}
use nova_key_daemon.Policy.Target.{built_in, enforce_target_policy}
use nova_key_daemon.Policy.Target.Rules.{
  NamesProgram, Denied, NoAllowedRule, Permitted, by_rule, by_absence, by_built_in,
}
use nova_key_daemon.Policy.Target.Correct.{Allowed-restricts, enforce_target_policy_iff}

-- None of the four lists has an entry.
pub record HasNoRules (cfg : ServerConfig) : Type 0 where
  pub allowed_processes : cfg.allowed_process_names ≡ []
  pub allowed_titles : cfg.allowed_window_titles ≡ []
  pub denied_processes : cfg.denied_process_names ≡ []
  pub denied_titles : cfg.denied_window_titles ≡ []

not_listed : (x : Bytes) (xs : List Bytes) → xs ≡ [] → ¬ Memᴰ x xs
not_listed x xs e h = Memᴰ.not-nil (subst (Memᴰ x) e h)

HasNoRules-NoAllowedRule : (u : Unicode) (cfg : ServerConfig) → HasNoRules cfg → NoAllowedRule u cfg
HasNoRules-NoAllowedRule u cfg n = (
  λ name h. absurd (not_listed name cfg.allowed_process_names n.allowed_processes h),
  λ title h. absurd (not_listed title cfg.allowed_window_titles n.allowed_titles h),
)

HasNoRules-undenied :
    (u : Unicode) (cfg : ServerConfig) (proc title : Bytes)
    → HasNoRules cfg
    → ¬ Denied u cfg proc title
HasNoRules-undenied u cfg proc title n (inl (name, h, e, k)) =
    not_listed name cfg.denied_process_names n.denied_processes h
HasNoRules-undenied u cfg proc title n (inr (pattern, h, e, k)) =
    not_listed pattern cfg.denied_window_titles n.denied_titles h

HasNoRules-built_in :
    (cfg : ServerConfig)
    → HasNoRules cfg
    → restricts_targets cfg ≡ true
    → cfg.use_built_in_allowlist ≡ true
HasNoRules-built_in cfg n h =
    only cfg.use_built_in_allowlist (is_empty cfg.allowed_process_names)
      (is_empty cfg.allowed_window_titles) (is_empty cfg.denied_process_names)
      (is_empty cfg.denied_window_titles) (ap is_empty n.allowed_processes)
      (ap is_empty n.allowed_titles) (ap is_empty n.denied_processes) (ap is_empty n.denied_titles)
      h
  where
    only :
        (b c d e f : Bool)
        → c ≡ true
        → d ≡ true
        → e ≡ true
        → f ≡ true
        → (b || not c || not d || not e || not f) ≡ true
        → b ≡ true
    only b c d e f x y z w k = ground arith

-- A configuration that is loaded with the target policy on and without an entry in any of the four
-- lists lets through exactly the programs of the built-in list, whatever the file says of that list.
pub load_config-built_in :
    (F : ConfigFormats) (cfg out : ServerConfig) (os : Os) (files : Dict Bytes) (u : Unicode)
    (proc title : Bytes)
    → load_config F os files cfg ≡ ok out
    → out.target_policy_enabled ≡ true
    → HasNoRules out
    → (enforce_target_policy u out (some (proc, title)) ≡ ok tt) ↔ NamesProgram u proc built_in
load_config-built_in F cfg out os files u proc title h on n =
    let used = HasNoRules-built_in out n (load_config-restricts_targets F cfg out os files h on) in
    let decided = (enforce_target_policy_iff u out proc title on).0 in
    let bare = HasNoRules-NoAllowedRule u out n in
    (
      λ e. listed used bare (decided.0 e),
      λ p. decided.1 (by_built_in (HasNoRules-undenied u out proc title n) bare p),
    )
  where
    listed :
        out.use_built_in_allowlist ≡ true
        → NoAllowedRule u out
        → Permitted u out proc title
        → NamesProgram u proc built_in
    listed used bare (by_rule x y) = absurd (Allowed-restricts u out proc title y bare)
    listed used bare (by_absence x y off) = absurd (clash (sym used ∙ off))
      where
        clash : true ≡ false → ⊥
        clash k = cc
    listed used bare (by_built_in x y z) = z
