-- ===== src/Messages/Devices.antt =====
-- Which bytes the decoders of signed payloads accept in crates/sidevers-core/src/messages/device.rs,
-- and that what is signed is accepted.
use sidevers_protocol.Cbor.Reader.{usize_mod}
use sidevers_protocol.Cbor.Writer.{Bytes}
use sidevers_protocol.Common.{IsBytes, length, ◌<◌, ◌≡◌, ◌↔◌}
use sidevers_protocol.Crypto.{Crypto, IsSound}
use sidevers_protocol.Errors.{ok}
use sidevers_protocol.Messages.PairingRequest
use sidevers_protocol.Messages.StateBundle
use sidevers_protocol.Messages.DeviceRevoke
use sidevers_protocol.Messages.StateDelta

-- For the four signed payloads between the devices of a side: the pairing request, the state
-- bundle, the revocation of a device and the state delta: from bytes that fit the address space,
-- the decoder gives a payload exactly if the payload can be encoded, the bytes are its encoding,
-- and its signature holds.
pub devices_iff :
    (c : Crypto) (bs : Bytes) (pairing_request : PairingRequest.PairingRequestPayload)
    (state_bundle : StateBundle.StateBundlePayload)
    (device_revoke : DeviceRevoke.DeviceRevokePayload) (state_delta : StateDelta.StateDeltaPayload)
    → IsBytes bs
    → length bs < usize_mod
    → ((PairingRequest.from_wire_bytes c bs ≡ ok pairing_request)
        ↔ PairingRequest.Valid pairing_request
          × (bs ≡ PairingRequest.to_wire_bytes pairing_request)
          × PairingRequest.Authentic c pairing_request)
      × ((StateBundle.from_wire_bytes c bs ≡ ok state_bundle)
          ↔ StateBundle.Valid state_bundle
            × (bs ≡ StateBundle.to_wire_bytes state_bundle)
            × StateBundle.Authentic c state_bundle)
      × ((DeviceRevoke.from_wire_bytes c bs ≡ ok device_revoke)
          ↔ DeviceRevoke.Valid device_revoke
            × (bs ≡ DeviceRevoke.to_wire_bytes device_revoke)
            × DeviceRevoke.Authentic c device_revoke)
      × ((StateDelta.from_wire_bytes c bs ≡ ok state_delta)
          ↔ StateDelta.Valid state_delta
            × (bs ≡ StateDelta.to_wire_bytes state_delta)
            × StateDelta.Authentic c state_delta)
devices_iff c bs pairing_request state_bundle device_revoke state_delta hb fits = (
  PairingRequest.pairing_request_iff c bs pairing_request hb fits,
  StateBundle.state_bundle_iff c bs state_bundle hb fits,
  DeviceRevoke.device_revoke_iff c bs device_revoke hb fits,
  StateDelta.state_delta_iff c bs state_delta hb fits,
)

-- For the four signed payloads between the devices of a side: the pairing request, the state
-- bundle, the revocation of a device and the state delta: with a sound cryptographic library, what
-- is signed of fields of the right widths and fits the address space is decoded from its own
-- encoding.
pub devices_signed :
    (c : Crypto)
    → IsSound c
    → (k : c.SigningKey) (pairing_request : PairingRequest.PairingRequestPayload)
      (state_bundle : StateBundle.StateBundlePayload)
      (device_revoke : DeviceRevoke.DeviceRevokePayload)
      (state_delta : StateDelta.StateDeltaPayload)
    → PairingRequest.Valid pairing_request
    → StateBundle.Valid state_bundle
    → DeviceRevoke.Valid device_revoke
    → StateDelta.Valid state_delta
    → length (
        PairingRequest.to_wire_bytes (
          PairingRequest.sign c pairing_request.side k pairing_request.device_x25519_pubkey
            pairing_request.nonce))
      < usize_mod
    → length (
        StateBundle.to_wire_bytes (
          StateBundle.sign c k state_bundle.recipient_device state_bundle.nonce
            state_bundle.key_nonce state_bundle.sealed_state))
      < usize_mod
    → length (
        DeviceRevoke.to_wire_bytes (
          DeviceRevoke.sign c k device_revoke.device_pubkey device_revoke.revoked_at
            device_revoke.reason))
      < usize_mod
    → length (StateDelta.to_wire_bytes (StateDelta.sign c k state_delta.ops state_delta.applied_at))
      < usize_mod
    → (PairingRequest.from_wire_bytes c (
          PairingRequest.to_wire_bytes (
            PairingRequest.sign c pairing_request.side k pairing_request.device_x25519_pubkey
              pairing_request.nonce))
        ≡ ok (
            PairingRequest.sign c pairing_request.side k pairing_request.device_x25519_pubkey
              pairing_request.nonce))
      × (StateBundle.from_wire_bytes c (
            StateBundle.to_wire_bytes (
              StateBundle.sign c k state_bundle.recipient_device state_bundle.nonce
                state_bundle.key_nonce state_bundle.sealed_state))
          ≡ ok (
              StateBundle.sign c k state_bundle.recipient_device state_bundle.nonce
                state_bundle.key_nonce state_bundle.sealed_state))
      × (DeviceRevoke.from_wire_bytes c (
            DeviceRevoke.to_wire_bytes (
              DeviceRevoke.sign c k device_revoke.device_pubkey device_revoke.revoked_at
                device_revoke.reason))
          ≡ ok (
              DeviceRevoke.sign c k device_revoke.device_pubkey device_revoke.revoked_at
                device_revoke.reason))
      × (StateDelta.from_wire_bytes c
            (StateDelta.to_wire_bytes (StateDelta.sign c k state_delta.ops state_delta.applied_at))
          ≡ ok (StateDelta.sign c k state_delta.ops state_delta.applied_at))
devices_signed c s k pairing_request state_bundle device_revoke state_delta h0 h1 h2 h3 f0 f1 f2
      f3 =
    (
      PairingRequest.sign-pairing_request c s k pairing_request h0 f0,
      StateBundle.sign-state_bundle c s k state_bundle h1 f1,
      DeviceRevoke.sign-device_revoke c s k device_revoke h2 f2,
      StateDelta.sign-state_delta c s k state_delta h3 f3,
    )
