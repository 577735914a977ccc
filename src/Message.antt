-- ===== src/Message.antt =====
-- The v3 message of `/msg`: the inner typed frame (cmd/novakey/message_frame.go), and the outer
-- encrypted frame with its freshness, replay and rate checks (cmd/novakey/crypto.go).
pub mod Wire
pub mod Crypto
pub mod Inner
pub mod Freshness
pub mod Outer
pub mod Receive
