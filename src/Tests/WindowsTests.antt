-- ===== src/Tests/WindowsTests.antt =====
-- A protected file hides what is saved, and a failed protection loses the plain file.
use nova_key_daemon.Common.{
  ◌≡◌, refl, [], ◌∷◌, Option, none, some, if◌then◌else◌, ◌==◌, Bytes, codes, ok, err,
}
use nova_key_daemon.Common.Dict.{Dict, lookup, insert}
use nova_key_daemon.Common.Hex
use nova_key_daemon.Message.Outer.{DeviceState}
use nova_key_daemon.Devices.{device_entry, add_devices, build_devices_map}
use nova_key_daemon.Devices.Write.{store_not_paired, write_devices_file}
use nova_key_daemon.Devices.Windows.{
  DpapiFile, WindowsFormats, prefer_dpapi_path, plain_path, load_devices_from_dpapi_file,
  load_devices_from_plain_json, write_devices_dpapi_file, load_devices_from_disk, windows_store,
}
use nova_key_daemon.Devices.Windows.Laws.{write_devices_file_ignored, load_devices_from_disk_loses}
use nova_key_daemon.Tests.{formats}
use nova_key_daemon.Tests.StoreToy.{
  base64, marshal_one, unmarshal_one, working_os, key_hex, key, path, plain_file,
}

abbrev read_dpapi : Bytes → Option DpapiFile
read_dpapi [] = none
read_dpapi (c ∷ s) = if c == 3 then some (record { v = 1; dpapi_b64 = s }) else none

abbrev windows : WindowsFormats
windows = record {
  unicode = formats.unicode;
  base64 = base64;
  marshal_devices = marshal_one;
  unmarshal_devices = unmarshal_one;
  marshal_dpapi = λ f. some (3 ∷ f.dpapi_b64);
  unmarshal_dpapi = read_dpapi;
  protect = λ s. some s;
  unprotect = λ s. some s;
  ext = λ p. codes ".json";
}

abbrev protected : Dict Bytes
protected = (codes "devices.dpapi.json", 3 ∷ 9 ∷ plain_file) ∷ []

abbrev only_d : Dict DeviceState
only_d = (codes "d", record { id = codes "d"; static_key = key }) ∷ []

write_devices_file_ignored_example :
    (load_devices_from_disk windows working_os path
      (write_devices_file
        (windows_store windows working_os path)
        (codes "e")
        key_hex
        protected).1).0
    ≡ ok only_d
unfolding load_devices_from_dpapi_file prefer_dpapi_path lookup device_entry add_devices
    build_devices_map Hex.decode insert
write_devices_file_ignored_example =
    write_devices_file_ignored windows working_os path (λ e. cc) (λ e. cc) only_d (codes "e")
      key_hex protected refl

abbrev failing : WindowsFormats
failing = record windows { protect = λ s. none }

abbrev plain : Dict Bytes
plain = (path, plain_file) ∷ []

load_devices_from_disk_loses_example :
    ((load_devices_from_disk failing working_os path plain).0 ≡ err store_not_paired)
    × (lookup (plain_path failing path) (load_devices_from_disk failing working_os path plain).1
        ≡ none)
unfolding load_devices_from_dpapi_file load_devices_from_plain_json write_devices_dpapi_file
    prefer_dpapi_path plain_path lookup device_entry add_devices build_devices_map Hex.decode insert
load_devices_from_disk_loses_example =
    load_devices_from_disk_loses failing working_os path only_d plain refl refl refl refl (λ e. cc)
