-- ===== src/Pairing/Bootstrap.antt =====
-- cmd/novakey/pair_bootstrap_tcp.go: the routes `/pair/bootstrap` and `/pair/complete`, and the choice
-- among the routes.
pub mod Laws
use nova_key_daemon.Common.{
  ℕ, ◌+◌, Bool, true, false, not, ◌||◌, List, [], ◌∷◌, ◌++◌, Option, none, some, Bytes, codes,
  bytes_dec, ◌=?◌, ◌==◌, if◌then◌else◌, length, Result, ok, err,
}
use nova_key_daemon.Common.Dict.{Dict}
use nova_key_daemon.Common.Hex
use nova_key_daemon.Message.Crypto.{Crypto}
use nova_key_daemon.Message.Outer.{DeviceState, KeyStore}
use nova_key_daemon.PairToken.{PairToken, TokenError, consume_pair_token}
use nova_key_daemon.Router.{read_string}
use nova_key_daemon.Devices.Write.{
  StoreError, DeviceStore, write_devices_file, reload_devices_from_disk,
}
use nova_key_daemon.Pairing.{trim_nl}
use nova_key_daemon.Pairing.Exchange.{
  PairHello, PairError, keys_not_initialized, no_hello, bad_hello_json, unexpected_hello,
  missing_token, token_refused, devices_not_written, devices_not_reloaded, ack_not_written,
  PairFormats, PairInput, PairDaemon, Outcome, failed, handle_pair_conn,
}

-- `tcpBootstrapResp`, with the public key before its base64 text.
pub record TcpBootstrapResp : Type 0 where
  pub v : ℕ
  pub device_id : Bytes
  pub device_key_hex : Bytes
  pub server_addr : Bytes
  pub server_kyber_pub : Bytes
  pub expires_at_unix : ℕ

-- `json.Marshal` of the response; a request has the fields of `pairHello`, and is read by the same
-- call. `complete_ack` is the text of `tcpCompleteResp`.
pub record BootstrapFormats : Type 0 where
  pub marshal_response : TcpBootstrapResp → Bytes
  pub complete_ack : Bytes

module _ {S : Type 0} (F : PairFormats) (B : BootstrapFormats) (listen_addr : Bytes)
    (D : DeviceStore S) (I : PairInput) where
  abbrev pub bootstrap_id : Bytes
  bootstrap_id = codes "ios-" ++ Hex.encode I.drawn_id

  abbrev pub bootstrap_key : Bytes
  bootstrap_key = Hex.encode I.drawn_key

  abbrev answer : Bytes → PairDaemon S → Outcome S
  answer text d =
      if not I.ack_writes
      then failed ack_not_written [] d
      else record { result = ok tt; written = (text ++ (10 ∷ [])) ∷ []; daemon = d }

  abbrev reloaded :
      PairDaemon S → Result StoreError (Unit {0}) × Option (Dict DeviceState) × S → Outcome S
  reloaded d (err e, m, s) = failed (devices_not_reloaded e) [] (record d { store = s })
  reloaded d (ok u, m, s) =
      answer
        (B.marshal_response (record {
          v = 1;
          device_id = bootstrap_id;
          device_key_hex = bootstrap_key;
          server_addr = listen_addr;
          server_kyber_pub = d.keys.server_encap_key;
          expires_at_unix = I.reply_time + 120;
        }))
        (record d { store = s; keys = record d.keys { devices = m } })

  abbrev stored : PairDaemon S → Result StoreError (Unit {0}) × S → Outcome S
  stored d (err e, s) = failed (devices_not_written e) [] (record d { store = s })
  stored d (ok u, s) = reloaded d (reload_devices_from_disk D d.keys.devices s)

  abbrev consumed : PairDaemon S → Result TokenError Bytes × PairToken → Outcome S
  consumed d (err e, t) = failed (token_refused e) [] (record d { token = t })
  consumed d (ok token, t) =
      stored (record d { token = t }) (write_devices_file D bootstrap_id bootstrap_key d.store)

  abbrev requested : PairDaemon S → Option PairHello → Outcome S
  requested d none = failed bad_hello_json [] d
  requested d (some req) =
      if not (req.op =? codes "bootstrap") || not (req.v == 1)
      then failed unexpected_hello [] d
      else if req.token =? []
      then failed missing_token [] d
      else consumed d (consume_pair_token F.decode_token d.token I.token_time req.token)

  abbrev line_read : PairDaemon S → Option (Bytes × Bytes) → Outcome S
  line_read d none = failed no_hello [] d
  line_read d (some (line, rest)) = requested d (F.unmarshal_hello (trim_nl line))

  -- No limit of hello messages here.
  unfoldable pub handle_pair_bootstrap_tcp : PairDaemon S → Outcome S
  unfolding read_string trim_nl bytes_dec consume_pair_token write_devices_file
      reload_devices_from_disk Hex.encode
  handle_pair_bootstrap_tcp d =
      if length d.keys.server_encap_key == 0
      then failed keys_not_initialized [] d
      else line_read d (read_string I.sent)

  abbrev completed : PairDaemon S → Option PairHello → Outcome S
  completed d none = failed bad_hello_json [] d
  completed d (some req) =
      if not (req.op =? codes "complete") || not (req.v == 1)
      then failed unexpected_hello [] d
      else answer B.complete_ack d

  abbrev complete_read : PairDaemon S → Option (Bytes × Bytes) → Outcome S
  complete_read d none = failed no_hello [] d
  complete_read d (some (line, rest)) = completed d (F.unmarshal_hello (trim_nl line))

  -- No token is asked for.
  unfoldable pub handle_pair_complete_tcp : PairDaemon S → Outcome S
  unfolding read_string trim_nl bytes_dec
  handle_pair_complete_tcp d = complete_read d (read_string I.sent)

  unfoldable pub handle_pair_conn_with_route : Crypto → ℕ → Bool → Bytes → PairDaemon S → Outcome S
  unfolding handle_pair_conn handle_pair_bootstrap_tcp handle_pair_complete_tcp bytes_dec
  handle_pair_conn_with_route C hello_max rotate route d =
      if route =? codes "/pair"
      then handle_pair_conn C F hello_max rotate D I d
      else if route =? codes "/pair/bootstrap"
      then handle_pair_bootstrap_tcp d
      else if route =? codes "/pair/complete"
      then handle_pair_complete_tcp d
      else handle_pair_conn C F hello_max rotate D I d
