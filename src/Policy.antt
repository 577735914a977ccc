-- ===== src/Policy.antt =====
-- What the daemon refuses to inject: validate.go and target_policy.go of cmd/novakey.
pub mod InjectText
pub mod Target
