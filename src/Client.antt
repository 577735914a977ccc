-- ===== src/Client.antt =====
-- cmd/nvclient: the command-line client.
pub mod Frame
pub mod EndToEnd
pub mod Commands
pub mod Served
