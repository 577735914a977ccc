-- ===== src/Base64.antt =====
-- Go's `base64.StdEncoding`, a parameter of the model.
use nova_key_daemon.Common.{◌≡◌, ◌≢◌, [], Option, some, Bytes}

pub record Base64 : Type 0 where
  pub encode : Bytes → Bytes
  pub decode : Bytes → Option Bytes

pub record IsBase64 (b : Base64) : Type 0 where
  pub decode-encode : (s : Bytes) → b.decode (b.encode s) ≡ some s
  pub encode-ne_nil : (s : Bytes) → s ≢ [] → b.encode s ≢ []
