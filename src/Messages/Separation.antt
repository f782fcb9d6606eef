-- ===== src/Messages/Separation.antt =====
-- The kinds of value that a side or a verse signs, and the bytes that are signed for each: the unsigned
-- encodings in crates/sidevers-core/src, hashed with nothing that names the kind.
pub mod Kinds
use sidevers_protocol.Cbor.Nullable.{read_nullable}
use sidevers_protocol.Cbor.Reader.{◌>>=◌, ◌>>◌, Read, pure, read_bytes, read_text, read_map_header}
use sidevers_protocol.Cbor.Writer.{Bytes}
use sidevers_protocol.Common.{bytes_eq, codes, ℕ, [], if◌then◌else◌}
use sidevers_protocol.Envelope.{encode_unsigned, Envelope}
use sidevers_protocol.Envelope.Wire.{IsEnvelope}
use sidevers_protocol.Verse.{ContractObject}
use sidevers_protocol.Envelope
use sidevers_protocol.Messages.PairingRequest
use sidevers_protocol.Messages.StateBundle
use sidevers_protocol.Messages.DeviceRevoke
use sidevers_protocol.Messages.StateDelta
use sidevers_protocol.Verse.Contract
use sidevers_protocol.Verse.MembershipToken
use sidevers_protocol.Messages.JoinRequest
use sidevers_protocol.Messages.VerseLeave
use sidevers_protocol.Messages.VerseRemove
use sidevers_protocol.Messages.VerseReconsent
use sidevers_protocol.Messages.HandleAttest
use sidevers_protocol.Messages.PagePublish
use sidevers_protocol.Messages.Announcement
use sidevers_protocol.Messages.SideRetirement
use sidevers_protocol.Messages.StoragePreferences
use sidevers_protocol.Linkage

pub data Kind : Type 0 where
  envelope pairing_request state_bundle device_revoke state_delta contract membership_token
        join_request verse_leave verse_remove verse_reconsent handle_attest page_publish
        announcement side_retirement storage_preferences linkage :
      Kind

-- A value of one of the kinds.
pub data Signable : Type 0 where
  an_envelope : Envelope → Signable
  a_pairing_request : PairingRequest.PairingRequestPayload → Signable
  a_state_bundle : StateBundle.StateBundlePayload → Signable
  a_device_revoke : DeviceRevoke.DeviceRevokePayload → Signable
  a_state_delta : StateDelta.StateDeltaPayload → Signable
  a_contract : ContractObject → Signable
  a_membership_token : MembershipToken.MembershipToken → Signable
  a_join_request : JoinRequest.JoinRequestPayload → Signable
  a_verse_leave : VerseLeave.VerseLeavePayload → Signable
  a_verse_remove : VerseRemove.VerseRemovePayload → Signable
  a_verse_reconsent : VerseReconsent.VerseReconsentPayload → Signable
  a_handle_attest : HandleAttest.HandleAttestPayload → Signable
  a_page_publish : PagePublish.PagePublishPayload → Signable
  a_announcement : Announcement.AnnouncementPayload → Signable
  a_side_retirement : SideRetirement.SideRetirementPayload → Signable
  a_storage_preferences : StoragePreferences.StoragePreferences → Signable
  a_linkage : Linkage.LinkageProof → Signable

abbrev pub kind_of : Signable → Kind
kind_of (an_envelope e) = envelope
kind_of (a_pairing_request p) = pairing_request
kind_of (a_state_bundle p) = state_bundle
kind_of (a_device_revoke p) = device_revoke
kind_of (a_state_delta p) = state_delta
kind_of (a_contract p) = contract
kind_of (a_membership_token p) = membership_token
kind_of (a_join_request p) = join_request
kind_of (a_verse_leave p) = verse_leave
kind_of (a_verse_remove p) = verse_remove
kind_of (a_verse_reconsent p) = verse_reconsent
kind_of (a_handle_attest p) = handle_attest
kind_of (a_page_publish p) = page_publish
kind_of (a_announcement p) = announcement
kind_of (a_side_retirement p) = side_retirement
kind_of (a_storage_preferences p) = storage_preferences
kind_of (a_linkage p) = linkage

abbrev pub signed_bytes : Signable → Bytes
signed_bytes (an_envelope e) = encode_unsigned e
signed_bytes (a_pairing_request p) = PairingRequest.encode_unsigned p
signed_bytes (a_state_bundle p) = StateBundle.encode_unsigned p
signed_bytes (a_device_revoke p) = DeviceRevoke.encode_unsigned p
signed_bytes (a_state_delta p) = StateDelta.encode_unsigned p
signed_bytes (a_contract p) = Contract.encode_unsigned p
signed_bytes (a_membership_token p) = MembershipToken.encode_unsigned p
signed_bytes (a_join_request p) = JoinRequest.encode_unsigned p
signed_bytes (a_verse_leave p) = VerseLeave.encode_unsigned p
signed_bytes (a_verse_remove p) = VerseRemove.encode_unsigned p
signed_bytes (a_verse_reconsent p) = VerseReconsent.encode_unsigned p
signed_bytes (a_handle_attest p) = HandleAttest.encode_unsigned p
signed_bytes (a_page_publish p) = PagePublish.encode_unsigned p
signed_bytes (a_announcement p) = Announcement.encode_unsigned p
signed_bytes (a_side_retirement p) = SideRetirement.encode_unsigned p
signed_bytes (a_storage_preferences p) = StoragePreferences.encode_unsigned p
signed_bytes (a_linkage p) = Linkage.encode_unsigned p

-- The fields have the widths of their types.
abbrev pub WellFormed : Signable → Type 0
WellFormed (an_envelope e) = IsEnvelope e
WellFormed (a_pairing_request p) = PairingRequest.Valid p
WellFormed (a_state_bundle p) = StateBundle.Valid p
WellFormed (a_device_revoke p) = DeviceRevoke.Valid p
WellFormed (a_state_delta p) = StateDelta.Valid p
WellFormed (a_contract p) = Contract.Valid p
WellFormed (a_membership_token p) = MembershipToken.Valid p
WellFormed (a_join_request p) = JoinRequest.Valid p
WellFormed (a_verse_leave p) = VerseLeave.Valid p
WellFormed (a_verse_remove p) = VerseRemove.Valid p
WellFormed (a_verse_reconsent p) = VerseReconsent.Valid p
WellFormed (a_handle_attest p) = HandleAttest.Valid p
WellFormed (a_page_publish p) = PagePublish.Valid p
WellFormed (a_announcement p) = Announcement.Valid p
WellFormed (a_side_retirement p) = SideRetirement.Valid p
WellFormed (a_storage_preferences p) = StoragePreferences.Valid p
WellFormed (a_linkage p) = Linkage.Valid p

-- What tells the kinds apart: the number of entries, the first key, the second where the first is `side`,
-- and the fourth where the second is `verse`.
pub record Tag : Type 0 where
  pub count : ℕ
  pub first : Bytes
  pub second : Bytes
  pub fourth : Bytes

unfoldable pub read_fourth : Bytes → Read Bytes
read_fourth k =
    if bytes_eq k (codes "verse")
    then (do v ← read_bytes; r ← read_text; t ← read_nullable read_text; read_text)
    else pure []

unfoldable pub read_second : ℕ → Bytes → Read Tag
read_second n k =
    if bytes_eq k (codes "side")
    then (do
      b ← read_bytes
      s ← read_text
      f ← read_fourth s
      pure (record { count = n; first = k; second = s; fourth = f }))
    else pure (record { count = n; first = k; second = []; fourth = [] })

unfoldable pub read_tag : Read Tag
read_tag = do n ← read_map_header; k ← read_text; read_second n k

abbrev pub tag_of : Kind → Tag
tag_of envelope = record { count = 7; first = codes "t"; second = []; fourth = [] }
tag_of pairing_request = record {
  count = 4;
  first = codes "side";
  second = codes "nonce";
  fourth = [];
}
tag_of state_bundle = record {
  count = 5;
  first = codes "side";
  second = codes "nonce";
  fourth = [];
}
tag_of device_revoke = record {
  count = 4;
  first = codes "side";
  second = codes "reason";
  fourth = [];
}
tag_of state_delta = record { count = 3; first = codes "ops"; second = []; fourth = [] }
tag_of contract = record { count = 11; first = codes "title"; second = []; fourth = [] }
tag_of membership_token = record { count = 4; first = codes "verse"; second = []; fourth = [] }
tag_of join_request = record {
  count = 3;
  first = codes "side";
  second = codes "fields";
  fourth = [];
}
tag_of verse_leave = record {
  count = 5;
  first = codes "side";
  second = codes "verse";
  fourth = codes "disposition";
}
tag_of verse_remove = record {
  count = 5;
  first = codes "side";
  second = codes "verse";
  fourth = codes "issued_at";
}
tag_of verse_reconsent = record {
  count = 1;
  first = codes "contract_hash";
  second = [];
  fourth = [];
}
tag_of handle_attest = record {
  count = 4;
  first = codes "side";
  second = codes "domain";
  fourth = [];
}
tag_of page_publish = record { count = 5; first = codes "mime"; second = []; fourth = [] }
tag_of announcement = record { count = 3; first = codes "body"; second = []; fourth = [] }
tag_of side_retirement = record {
  count = 3;
  first = codes "side";
  second = codes "reason";
  fourth = [];
}
tag_of storage_preferences = record {
  count = 5;
  first = codes "side";
  second = codes "updated_at";
  fourth = [];
}
tag_of linkage = record { count = 4; first = codes "nonce"; second = []; fourth = [] }
