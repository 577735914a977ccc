-- ===== src/Tests/PairingTests.antt =====
-- A phone pairs the device "d" by the token `4 2`.
use nova_key_daemon.Common.{
  ◌≡◌, refl, ap, true, false, [], ◌∷◌, ◌++◌, none, some, arith, Bytes, codes, length, take, drop,
  ok,
}
use nova_key_daemon.Common.Dict.{lookup, insert, erase}
use nova_key_daemon.Common.Hex
use nova_key_daemon.Files.{read_file, write_file, rename_file, atomic_write_0600}
use nova_key_daemon.Message.Crypto.Toy.{toy, toy-IsLawful}
use nova_key_daemon.PairToken.{const_time_eq}
use nova_key_daemon.Devices.Map.{entries_of}
use nova_key_daemon.Devices.Write.{DeviceStore, IsLawful, existing, devices_of, checked_key}
use nova_key_daemon.Devices.Unix.{
  Machine, get_or_create_devices_key, save_devices_to_disk, load_devices_from_disk, unix_store,
}
use nova_key_daemon.Devices.Unix.Laws.{unix_store-IsLawful}
use nova_key_daemon.Pairing.Exchange.{PairFormats, PairInput, PairDaemon, handle_pair_conn}
use nova_key_daemon.Pairing.Exchange.Authorized.{Changes}
use nova_key_daemon.Pairing.Exchange.Writes.{handle_pair_conn-Changes}
use nova_key_daemon.Pairing.Exchange.Token.{handle_pair_conn_once}
use nova_key_daemon.Pairing.Exchange.Registers.{IsRegistered, handle_pair_conn-IsRegistered}
use nova_key_daemon.Pairing.Bootstrap.{BootstrapFormats, handle_pair_conn_with_route}
use nova_key_daemon.Pairing.Bootstrap.Laws.{IsSpent, handle_pair_conn_with_route-IsSpent}
use nova_key_daemon.Tests.StoreToy.{
  any_name, toy_formats, toy-IsFaithful, key_hex, eight, key, host, path, fresh, host-IsHealthy,
}

-- The token of a hello is its whole text; a registration names its device by the first byte.
abbrev pair_formats : PairFormats
pair_formats = record {
  decode_token = λ s. some s;
  unmarshal_hello = λ s. some (record { op = codes "hello"; v = 1; token = s });
  unmarshal_register = λ s.
      some
        (record { op = codes "register"; v = 1; device_id = take 1 s; device_key_hex = drop 1 s });
  sha256 = λ s. s;
  server_key_line = λ pub_key fp expires. pub_key ++ (fp ++ (10 ∷ []));
  ack = λ id. id;
}

abbrev nonce_x : Bytes
nonce_x = eight ++ (eight ++ eight)

-- Token and newline, the frame's lengths, the toy's tag, and the registration.
abbrev phone : PairInput
phone = record {
  ip = codes "h";
  sent = 4 ∷ 2 ∷ 10 ∷ 0 ∷ 2 ∷ 7 ∷ 9 ∷ nonce_x ++ (31 ∷ 30 ∷ codes "d" ++ key_hex);
  hello_time = 100;
  token_time = 50;
  reply_time = 100;
  drawn_id = 1 ∷ [];
  drawn_key = key;
  ack_nonce = nonce_x;
  server_key_writes = true;
  ack_writes = true;
}

abbrev waiting : PairDaemon Machine
waiting = record {
  keys = record { devices = none; server_decap_key = some (8 ∷ []); server_encap_key = 8 ∷ [] };
  token = record { active = true; token = 4 ∷ 2 ∷ []; token_id = 4 ∷ []; expires = 90 };
  hellos = [];
  store = fresh;
}

abbrev sealed_store : DeviceStore Machine
sealed_store = unix_store toy_formats toy true path host

lawful : IsLawful any_name sealed_store sealed_store
lawful =
    unix_store-IsLawful toy_formats toy true path any_name host host toy-IsFaithful toy-IsLawful
      host-IsHealthy

unpaired : existing (sealed_store.load waiting.store).0 ≡ ok []
unfolding load_devices_from_disk read_file lookup
unpaired = refl

handle_pair_conn-Changes_example :
    Changes toy pair_formats 30 false sealed_store phone waiting
      (handle_pair_conn toy pair_formats 30 false sealed_store phone waiting)
handle_pair_conn-Changes_example =
    handle_pair_conn-Changes toy pair_formats 30 false sealed_store phone waiting

handle_pair_conn_once_example :
    (handle_pair_conn toy pair_formats 30 false sealed_store phone
      (handle_pair_conn toy pair_formats 30 false sealed_store phone waiting).daemon).daemon.store
    ≡ (handle_pair_conn toy pair_formats 30 false sealed_store phone waiting).daemon.store
unfolding handle_pair_conn const_time_eq checked_key Hex.decode load_devices_from_disk
    save_devices_to_disk read_file atomic_write_0600 write_file rename_file insert erase
    get_or_create_devices_key entries_of devices_of
handle_pair_conn_once_example =
    handle_pair_conn_once toy pair_formats 30 false sealed_store phone phone waiting
      (λ e. absurd (omega (arith, ap (λ M. length M.files) e)))

handle_pair_conn-IsRegistered_example :
    IsRegistered toy pair_formats 30 false sealed_store any_name lawful phone waiting
      (λ b reg e. refl)
      []
      unpaired
      (handle_pair_conn toy pair_formats 30 false sealed_store phone waiting)
unfolding handle_pair_conn const_time_eq checked_key Hex.decode load_devices_from_disk
    save_devices_to_disk read_file atomic_write_0600 write_file rename_file insert erase
    get_or_create_devices_key entries_of devices_of
handle_pair_conn-IsRegistered_example =
    handle_pair_conn-IsRegistered toy pair_formats 30 false sealed_store any_name lawful phone
      waiting (λ b reg e. refl) [] unpaired refl

abbrev bootstrap_formats : BootstrapFormats
bootstrap_formats = record { marshal_response = λ r. r.device_id; complete_ack = codes "ok" }

handle_pair_conn_with_route-IsSpent_example : IsSpent pair_formats phone waiting (
    handle_pair_conn_with_route pair_formats bootstrap_formats [] sealed_store phone toy 30 false
      (codes "/pair/bootstrap")
      waiting)
handle_pair_conn_with_route-IsSpent_example =
    handle_pair_conn_with_route-IsSpent pair_formats phone waiting bootstrap_formats [] sealed_store
      toy 30 false (codes "/pair/bootstrap")
