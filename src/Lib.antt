-- ===== src/Lib.antt =====
-- NovaKey daemon: a verification library of cmd/novakey (the message path, pairing, the stores of
-- devices and keys, the configuration), and of its command-line client cmd/nvclient.
--
-- The daemon receives frames over TCP. A frame is an outer frame (a header with the device's name
-- and a key encapsulation, and a ciphertext that authenticates the header), in it a timestamp and
-- an inner frame (device, type, payload). The type selects what is done: arm or disarm the arm
-- gate, approve in the two-man gate, or inject the payload as text into the focused window, which
-- takes a safe text, an allowed target and open gates. A phone
-- becomes a device by the pairing exchange: a one-time token, the server's public key, and a
-- registration sealed under a key of both; the device is written to the store and loaded again.
--
-- - Common: lists, strings as lists of bytes, results, Go maps as association lists (Dict), int64
--   patterns (Int64), encoding/hex (Hex), and package strings (Text: what Go does on ASCII is
--   written out, the rest is the parameter Unicode).
-- - Gates: cmd/novakey/arm_gate.go (Arm: ArmFor, Disarm, Consume) and cmd/novakey/two_man.go
--   (TwoMan: Approve, Consume, ApprovedUntil, cleanupLocked, approveWindow). Times are natural
--   numbers, with 0 the zero time; every reading of the clock is an argument. The gates hold a
--   mutex for the whole of a call, so a concurrent run is a sequence of calls; the History modules
--   take any sequence.
-- - Message: cmd/novakey/message_frame.go (Inner), and of cmd/novakey/crypto.go decryptOuterV3
--   (Outer), validateFreshnessAndRate (Freshness) and decryptMessageFrame (Receive). ML-KEM-768,
--   HKDF and XChaCha20-Poly1305 are the parameter Crypto, and what their packages document is
--   IsLawful; Crypto.Toy shows that it can hold. Timestamps, limits and counters are int64
--   patterns, so that they wrap around as they do in Go.
-- - Client: cmd/nvclient/main.go, crypto_client.go and arm.go: the frames (Frame), the request and
--   the commands with their exit codes (Commands), and the way of a request through the daemon's
--   router and handler (EndToEnd, Served). The flag package, the socket and JSON are arguments.
-- - Config: cmd/novakey/config.go (the record; Defaults; Load) and helpers_bool.go.
-- - Policy: cmd/novakey/validate.go (InjectText) and cmd/novakey/target_policy.go (Target). What
--   the rules mean is told from the configured entries in Target.Rules, and that the code's tests
--   find it in Target.Matching, Reading and Correct. Target.Loaded adds loadConfig. The loop of
--   normalizeProcName runs on fuel, the text's length: each round drops at least a byte.
-- - Handler: handleMsgConn of cmd/novakey/msg_handler.go, in Serve (from the bytes to the route by
--   type) and Inject (the inject path), and cmd/novakey/reply.go with response.go in Reply. The
--   daemon's globals are the record Daemon, the outside is the list of actions; the platform's
--   answers (Desktop), the clock readings (Clock), JSON and number formatting (Formats) are
--   arguments.
-- - Logging: itoa64, redactLongBlobs, redactKeyValueHints and redactLine of cmd/novakey/logging.go.
--   The loop over the rounds of a key runs on fuel, since it need not end (Logging.Hints).
-- - LogFile: the rotating writer of cmd/novakey/logfile.go over the names, sizes and times of the
--   files in the log's directory.
-- - PairToken: cmd/novakey/pair_token.go, with base64, the random bytes and the clock as arguments.
-- - Router: cmd/novakey/router.go from the first bytes of a connection to its handler.
-- - Files: the calls of package os that replace a file, over a map from paths to texts. The record
--   Os says which calls fail, and what a failed write leaves behind.
-- - Devices: buildDevicesMap and isPaired of cmd/novakey/crypto.go; Write is devices_write.go and
--   reloadDevicesFromDisk over the interface DeviceStore, with the laws that a platform owes; Map is
--   the map and the entries that it is written as, by lookups, since Go's order of a map is free.
--   Unix fills the interface (devices_keyring_unix.go, devices_save_unix.go,
--   devices_store_unix.go) with the files and the keyring's item as its state; Unix.Migrate is
--   migrate_devices_store_unix.go. Windows is devices_store_windows.go and devices_save_windows.go,
--   which do not keep the laws. JSON is a parameter whose laws hold of names that are valid UTF-8.
-- - ServerKeys: cmd/novakey/keys.go. Start: initCrypto of crypto.go over both stores.
-- - Pairing: cmd/novakey/pairing_proto.go (the limiter and the frames; Exchange is handlePairConn, by
--   one function for each stage) and pair_bootstrap_tcp.go (Bootstrap). A connection is the bytes
--   that the peer sends, the draws and the clock readings; its outcome is the error, the bytes
--   written and the daemon. A write of the acknowledgement that fails counts as having sent nothing.
-- - Tests: each of the results below at a concrete value, and parameters that meet their laws.
--
-- Not modelled: the platforms' injection, clipboard and focus code, which calls the operating
-- system, so also the writes of the clipboard that an injection on macOS makes; the QR codes and
-- the address that they advertise; cmd/nvpair and the installers; the line splitter and the
-- outputs of logging; listeners, deadlines and service glue. The log calls are left out of the
-- models, as if each returned; what a log line can do is told in Logging, and what is said of
-- handleMsgConn is said of connections whose log calls return.
-- Connections that are served at once are modelled one after the other by Handler.Serve.History.
mod Common
pub mod Config
pub mod Policy
pub mod Gates
pub mod Message
pub mod Client
pub mod Handler
pub mod Logging
pub mod LogFile
pub mod PairToken
pub mod Router
pub mod Pairing
pub mod Devices
pub mod Files
pub mod ServerKeys
pub mod Start
pub mod Base64
mod Tests
