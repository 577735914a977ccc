-- ===== src/Devices.antt =====
-- `buildDevicesMap` and `isPaired` of cmd/novakey/crypto.go.
pub mod Map
pub mod Write
pub mod Unix
pub mod Windows
use nova_key_daemon.Common.{
  Bool, true, false, not, List, [], ◌∷◌, Option, none, some, ◌==◌, Bytes, bytes_dec, ◌=?◌, length,
  Result, ok, err, if◌then◌else◌,
}
use nova_key_daemon.Common.Dict.{Dict, insert}
use nova_key_daemon.Common.Hex
use nova_key_daemon.Message.Outer.{DeviceState}

pub record DeviceConfig : Type 0 where
  pub id : Bytes
  pub key_hex : Bytes

-- `ErrNotPaired`, and the errors of a device.
pub data DevicesError : Type 0 where
  not_paired empty_id invalid_key_hex wrong_key_size : DevicesError

abbrev pub device_state : Bytes → Option Bytes → Result DevicesError DeviceState
device_state id none = err invalid_key_hex
device_state id (some key_bytes) =
    if not (length key_bytes == 32)
    then err wrong_key_size
    else ok (record { id = id; static_key = key_bytes })

-- The entry of a device, or the error that ends the loop.
unfoldable pub device_entry : DeviceConfig → Result DevicesError DeviceState
unfolding Hex.decode bytes_dec
device_entry d = if d.id =? [] then err empty_id else device_state d.id (Hex.decode d.key_hex)

abbrev pub continue_with :
    Result DevicesError DeviceState
    → Bytes
    → Dict DeviceState
    → (Dict DeviceState → Result DevicesError (Dict DeviceState))
    → Result DevicesError (Dict DeviceState)
continue_with (err e) id m next = err e
continue_with (ok s) id m next = next (insert id s m)

unfoldable pub add_devices :
    List DeviceConfig → Dict DeviceState → Result DevicesError (Dict DeviceState)
unfolding device_entry insert
add_devices [] m = ok m
add_devices (d ∷ ds) m = continue_with (device_entry d) d.id m (λ m'. add_devices ds m')

-- A device that is named twice keeps the last key.
unfoldable pub build_devices_map : List DeviceConfig → Result DevicesError (Dict DeviceState)
unfolding add_devices
build_devices_map [] = err not_paired
build_devices_map (d ∷ ds) = add_devices (d ∷ ds) []

abbrev pub is_paired : Option (Dict DeviceState) → Bool
is_paired none = false
is_paired (some []) = false
is_paired (some (e ∷ m)) = true
