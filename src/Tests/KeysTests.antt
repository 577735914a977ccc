-- ===== src/Tests/KeysTests.antt =====
-- The key `6 7` is made, saved and loaded.
use nova_key_daemon.Common.{true, ◌≡◌, refl, false, [], ◌∷◌, none, some, bytes_dec, ok}
use nova_key_daemon.Common.Dict.{lookup, insert, erase}
use nova_key_daemon.Files.{read_file, write_file, rename_file}
use nova_key_daemon.ServerKeys.{
  KeyMachine, materialize_server_keys, generate_and_save_server_keys, load_or_create_server_keys,
}
use nova_key_daemon.ServerKeys.Reload.{with_key, generate_and_save_server_keys-load}
use nova_key_daemon.Message.Crypto.Toy.{toy}
use nova_key_daemon.Devices.Write.{DeviceStore}
use nova_key_daemon.Devices.Unix.{Machine, load_devices_from_disk, unix_store}
use nova_key_daemon.Start.{init_crypto}
use nova_key_daemon.Start.Laws.{IsStarted, init_crypto-IsStarted}
use nova_key_daemon.Tests.StoreToy.{working_os, toy_formats, path, host, fresh}
use nova_key_daemon.Tests.KeysToy.{
  keyed, two, key_formats, key_formats-IsKeyFormat, two-IsGenerated, keyless,
}

abbrev saved : KeyMachine
saved = (generate_and_save_server_keys keyed key_formats working_os (8 ∷ []) (some two) keyless).1

generate_and_save_server_keys-load_example :
    (saved.keys
      ≡ with_key keyed key_formats key_formats-IsKeyFormat working_os two two-IsGenerated
          keyless.keys)
    × ((load_or_create_server_keys keyed key_formats working_os false (8 ∷ []) none saved).0
        ≡ ok tt)
    × ((load_or_create_server_keys keyed key_formats working_os false (8 ∷ []) none saved).1.keys
        ≡ with_key keyed key_formats key_formats-IsKeyFormat working_os two two-IsGenerated
            saved.keys)
unfolding load_or_create_server_keys generate_and_save_server_keys materialize_server_keys read_file
    write_file rename_file lookup insert erase bytes_dec
generate_and_save_server_keys-load_example =
    generate_and_save_server_keys-load keyed key_formats key_formats-IsKeyFormat working_os two
      two-IsGenerated working_os (8 ∷ []) none keyless saved refl refl refl

abbrev sealed_store : DeviceStore Machine
sealed_store = unix_store toy_formats toy true path host

init_crypto-IsStarted_example :
    IsStarted keyed key_formats working_os sealed_store fresh
      (init_crypto keyed key_formats working_os sealed_store false []
        (some two)
        (record { machine = keyless; store = fresh })).1
unfolding init_crypto load_devices_from_disk read_file write_file rename_file lookup insert erase
    materialize_server_keys generate_and_save_server_keys bytes_dec
init_crypto-IsStarted_example =
    init_crypto-IsStarted keyed key_formats working_os sealed_store key_formats-IsKeyFormat false []
      (some two) (record { machine = keyless; store = fresh }) refl
