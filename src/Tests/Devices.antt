-- ===== src/Tests/Devices.antt =====
-- The theorems about signed payloads of Messages/Devices, at samples.
use sidevers_protocol.Cbor.Dictionary.{insert_entry, sort_entries, follows, encode_dictionary}
use sidevers_protocol.Cbor.Field.{concat_map, encode_array}
use sidevers_protocol.Cbor.Nullable.{encode_nullable}
use sidevers_protocol.Cbor.Reader.{usize_mod}
use sidevers_protocol.Cbor.Utf8.{valid_utf8}
use sidevers_protocol.Cbor.Writer.{
  Bytes, write_head, write_u64, write_bytes, write_text, write_array_header, write_map_header, key,
  uint, bytes, text, null, boolean, write_entries, encode_map,
}
use sidevers_protocol.Common.{
  to_be_bytes, bytes_lt, IsBytes, codes, suc, ◌<◌, ◌≡◌, refl, ◌↔◌, true, some, [], ◌∷◌, arith,
  leb→le, length,
}
use sidevers_protocol.Errors.{ok}
use sidevers_protocol.Messages.Devices.{devices_iff, devices_signed}
use sidevers_protocol.Tests.Samples.{
  toy, toy-IsSound, fill, fill-IsArray, all_bytes, IsBytes-all_bytes, sum_below,
}
use sidevers_protocol.Messages.PairingRequest
use sidevers_protocol.Messages.StateBundle
use sidevers_protocol.Messages.DeviceRevoke
use sidevers_protocol.Messages.StateDelta
use sidevers_protocol.Messages.DeltaOp

abbrev pairing_request : PairingRequest.PairingRequestPayload
pairing_request = record {
  side = fill 32 3;
  device_pubkey = fill 32 3;
  device_x25519_pubkey = fill 32 3;
  nonce = fill 16 3;
  signature = fill 64 3;
}

pairing_request-Valid : PairingRequest.Valid pairing_request
unfolding valid_utf8 follows bytes_lt text write_text write_head to_be_bytes
pairing_request-Valid = (
  fill-IsArray 32 3 (omega arith),
  fill-IsArray 16 3 (omega arith),
  fill-IsArray 64 3 (omega arith),
  fill-IsArray 32 3 (omega arith),
  fill-IsArray 32 3 (omega arith),
)

abbrev signed_pairing_request : PairingRequest.PairingRequestPayload
signed_pairing_request =
    PairingRequest.sign toy pairing_request.side true pairing_request.device_x25519_pubkey
      pairing_request.nonce

pairing_request_fits : length (PairingRequest.to_wire_bytes signed_pairing_request) < usize_mod
unfolding PairingRequest.to_wire_bytes PairingRequest.sign PairingRequest.encode_unsigned encode_map
    write_entries write_map_header write_array_header write_head key uint bytes write_text
    write_bytes write_u64 text null encode_nullable boolean fill encode_array concat_map to_be_bytes
    sum_below encode_dictionary sort_entries insert_entry bytes_lt DeltaOp.encode
pairing_request_fits =
    leb→le (suc (length (PairingRequest.to_wire_bytes signed_pairing_request))) usize_mod refl

abbrev state_bundle : StateBundle.StateBundlePayload
state_bundle = record {
  side = fill 32 3;
  recipient_device = fill 32 3;
  nonce = fill 16 3;
  key_nonce = fill 16 3;
  sealed_state = 1 ∷ 2 ∷ [];
  signature = fill 64 3;
}

state_bundle-Valid : StateBundle.Valid state_bundle
unfolding valid_utf8 follows bytes_lt text write_text write_head to_be_bytes
state_bundle-Valid = (
  fill-IsArray 32 3 (omega arith),
  fill-IsArray 16 3 (omega arith),
  fill-IsArray 16 3 (omega arith),
  fill-IsArray 64 3 (omega arith),
  omega arith,
  fill-IsArray 32 3 (omega arith),
)

abbrev signed_state_bundle : StateBundle.StateBundlePayload
signed_state_bundle =
    StateBundle.sign toy true state_bundle.recipient_device state_bundle.nonce
      state_bundle.key_nonce state_bundle.sealed_state

state_bundle_fits : length (StateBundle.to_wire_bytes signed_state_bundle) < usize_mod
unfolding StateBundle.to_wire_bytes StateBundle.sign StateBundle.encode_unsigned encode_map
    write_entries write_map_header write_array_header write_head key uint bytes write_text
    write_bytes write_u64 text null encode_nullable boolean fill encode_array concat_map to_be_bytes
    sum_below encode_dictionary sort_entries insert_entry bytes_lt DeltaOp.encode
state_bundle_fits =
    leb→le (suc (length (StateBundle.to_wire_bytes signed_state_bundle))) usize_mod refl

abbrev device_revoke : DeviceRevoke.DeviceRevokePayload
device_revoke = record {
  side = fill 32 3;
  device_pubkey = fill 32 3;
  revoked_at = 1700000000;
  reason = some (codes "why");
  signature = fill 64 3;
}

device_revoke-Valid : DeviceRevoke.Valid device_revoke
unfolding valid_utf8 follows bytes_lt text write_text write_head to_be_bytes
device_revoke-Valid = (
  fill-IsArray 32 3 (omega arith),
  (omega arith, refl),
  fill-IsArray 64 3 (omega arith),
  omega arith,
  fill-IsArray 32 3 (omega arith),
)

abbrev signed_device_revoke : DeviceRevoke.DeviceRevokePayload
signed_device_revoke =
    DeviceRevoke.sign toy true device_revoke.device_pubkey device_revoke.revoked_at
      device_revoke.reason

device_revoke_fits : length (DeviceRevoke.to_wire_bytes signed_device_revoke) < usize_mod
unfolding DeviceRevoke.to_wire_bytes DeviceRevoke.sign DeviceRevoke.encode_unsigned encode_map
    write_entries write_map_header write_array_header write_head key uint bytes write_text
    write_bytes write_u64 text null encode_nullable boolean fill encode_array concat_map to_be_bytes
    sum_below encode_dictionary sort_entries insert_entry bytes_lt DeltaOp.encode
device_revoke_fits =
    leb→le (suc (length (DeviceRevoke.to_wire_bytes signed_device_revoke))) usize_mod refl

abbrev state_delta : StateDelta.StateDeltaPayload
state_delta = record {
  side = fill 32 3;
  ops = DeltaOp.co_holder_added (fill 32 5) (codes "a:1") ∷ DeltaOp.profile_cleared ∷ [];
  applied_at = 1700000000;
  signature = fill 64 3;
}

state_delta-Valid : StateDelta.Valid state_delta
unfolding valid_utf8 follows bytes_lt text write_text write_head to_be_bytes
state_delta-Valid = (
  (omega arith, (((omega arith, refl), fill-IsArray 32 5 (omega arith)), (tt, tt))),
  fill-IsArray 32 3 (omega arith),
  fill-IsArray 64 3 (omega arith),
  omega arith,
)

abbrev signed_state_delta : StateDelta.StateDeltaPayload
signed_state_delta = StateDelta.sign toy true state_delta.ops state_delta.applied_at

state_delta_fits : length (StateDelta.to_wire_bytes signed_state_delta) < usize_mod
unfolding StateDelta.to_wire_bytes StateDelta.sign StateDelta.encode_unsigned encode_map
    write_entries write_map_header write_array_header write_head key uint bytes write_text
    write_bytes write_u64 text null encode_nullable boolean fill encode_array concat_map to_be_bytes
    sum_below encode_dictionary sort_entries insert_entry bytes_lt DeltaOp.encode
state_delta_fits =
    leb→le (suc (length (StateDelta.to_wire_bytes signed_state_delta))) usize_mod refl

abbrev wire : Bytes
wire = PairingRequest.to_wire_bytes signed_pairing_request

wire-IsBytes : IsBytes wire
unfolding PairingRequest.to_wire_bytes PairingRequest.sign PairingRequest.encode_unsigned all_bytes
    encode_map write_entries write_map_header write_array_header write_head key uint bytes
    write_text write_bytes write_u64 text null encode_nullable boolean fill encode_array concat_map
    to_be_bytes sum_below encode_dictionary sort_entries insert_entry bytes_lt DeltaOp.encode
wire-IsBytes = IsBytes-all_bytes wire refl

devices_iff_example :
    ((PairingRequest.from_wire_bytes toy wire ≡ ok signed_pairing_request)
      ↔ PairingRequest.Valid signed_pairing_request
        × (wire ≡ PairingRequest.to_wire_bytes signed_pairing_request)
        × PairingRequest.Authentic toy signed_pairing_request)
    × ((StateBundle.from_wire_bytes toy wire ≡ ok signed_state_bundle)
        ↔ StateBundle.Valid signed_state_bundle
          × (wire ≡ StateBundle.to_wire_bytes signed_state_bundle)
          × StateBundle.Authentic toy signed_state_bundle)
    × ((DeviceRevoke.from_wire_bytes toy wire ≡ ok signed_device_revoke)
        ↔ DeviceRevoke.Valid signed_device_revoke
          × (wire ≡ DeviceRevoke.to_wire_bytes signed_device_revoke)
          × DeviceRevoke.Authentic toy signed_device_revoke)
    × ((StateDelta.from_wire_bytes toy wire ≡ ok signed_state_delta)
        ↔ StateDelta.Valid signed_state_delta
          × (wire ≡ StateDelta.to_wire_bytes signed_state_delta)
          × StateDelta.Authentic toy signed_state_delta)
devices_iff_example =
    devices_iff toy wire signed_pairing_request signed_state_bundle signed_device_revoke
      signed_state_delta wire-IsBytes pairing_request_fits

devices_signed_example :
    (PairingRequest.from_wire_bytes toy (PairingRequest.to_wire_bytes signed_pairing_request)
      ≡ ok signed_pairing_request)
    × (StateBundle.from_wire_bytes toy (StateBundle.to_wire_bytes signed_state_bundle)
        ≡ ok signed_state_bundle)
    × (DeviceRevoke.from_wire_bytes toy (DeviceRevoke.to_wire_bytes signed_device_revoke)
        ≡ ok signed_device_revoke)
    × (StateDelta.from_wire_bytes toy (StateDelta.to_wire_bytes signed_state_delta)
        ≡ ok signed_state_delta)
devices_signed_example =
    devices_signed toy toy-IsSound true pairing_request state_bundle device_revoke state_delta
      pairing_request-Valid state_bundle-Valid device_revoke-Valid state_delta-Valid
      pairing_request_fits state_bundle_fits device_revoke_fits state_delta_fits
