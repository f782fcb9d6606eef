-- ===== src/Tests/Members.antt =====
-- The theorems about signed payloads of Messages/Members, at samples.
use sidevers_protocol.Cbor.Dictionary.{insert_entry, sort_entries, follows, encode_dictionary}
use sidevers_protocol.Cbor.Field.{concat_map, encode_array}
use sidevers_protocol.Cbor.Nullable.{encode_nullable}
use sidevers_protocol.Cbor.Reader.{usize_mod}
use sidevers_protocol.Cbor.Utf8.{valid_utf8}
use sidevers_protocol.Cbor.Writer.{
  Bytes, write_head, write_u64, write_bytes, write_text, write_array_header, write_map_header, key,
  uint, bytes, text, null, boolean, write_entries, encode_map,
}
use sidevers_protocol.Common.{
  to_be_bytes, bytes_lt, IsBytes, codes, suc, ◌<◌, ◌≡◌, refl, ◌↔◌, true, none, some, [], ◌∷◌, ◌++◌,
  arith, leb→le, length,
}
use sidevers_protocol.Errors.{ok}
use sidevers_protocol.Messages.Members.{members_iff, members_signed}
use sidevers_protocol.Tests.Samples.{
  toy, toy-IsSound, fill, fill-IsArray, all_bytes, IsBytes-all_bytes, sum_below,
}
use sidevers_protocol.Verse.{ContractObject}
use sidevers_protocol.Verse.Contract
use sidevers_protocol.Verse.MembershipToken
use sidevers_protocol.Messages.JoinRequest
use sidevers_protocol.Messages.VerseLeave
use sidevers_protocol.Messages.VerseRemove
use sidevers_protocol.Messages.VerseReconsent
use sidevers_protocol.Messages.DataDisposition
use sidevers_protocol.Verse.Fields
use sidevers_protocol.Verse.Policies

abbrev contract : ContractObject
contract = record {
  verse = fill 32 3;
  version = 1700000000;
  title = codes "ab";
  description = codes "ab";
  required =
      record {
        kind = codes "text";
        label = codes "Name";
        description = none;
        validator = some (codes "any");
      }
      ∷ [];
  optional =
      record {
        kind = codes "text";
        label = codes "Name";
        description = none;
        validator = some (codes "any");
      }
      ∷ [];
  forbidden = codes "cd" ∷ [];
  scoped = codes "cd" ∷ [];
  policies = record { kind = codes "ephemeral"; params = (codes "secs", codes "60") ∷ [] } ∷ [];
  moderators = fill 32 4 ∷ [];
  issued_at = 1700000000;
  signature = fill 64 3;
}

contract-Valid : Contract.Valid contract
unfolding valid_utf8 follows bytes_lt text write_text write_head to_be_bytes
contract-Valid = (
  (omega arith, refl),
  fill-IsArray 32 3 (omega arith),
  (omega arith, ((omega arith, refl), tt)),
  omega arith,
  (omega arith, (((omega arith, refl), (omega arith, refl), (omega arith, refl), tt), tt)),
  (
    omega arith,
    (
      (
        (omega arith, refl),
        (omega arith, (((omega arith, refl), (omega arith, refl)), tt), (refl, tt)),
      ),
      tt,
    ),
  ),
  (omega arith, (((omega arith, refl), (omega arith, refl), (omega arith, refl), tt), tt)),
  (omega arith, ((omega arith, refl), tt)),
  omega arith,
  fill-IsArray 64 3 (omega arith),
  (omega arith, (fill-IsArray 32 4 (omega arith), tt)),
  (omega arith, refl),
)

abbrev signed_contract : ContractObject
signed_contract =
    Contract.sign toy true contract.version contract.title contract.description contract.required
      contract.optional contract.forbidden contract.scoped contract.policies contract.moderators
      contract.issued_at

contract_fits : length (Contract.to_wire_bytes signed_contract) < usize_mod
unfolding Contract.to_wire_bytes Contract.sign Contract.encode_unsigned encode_map write_entries
    write_map_header write_array_header write_head key uint bytes write_text write_bytes write_u64
    text null encode_nullable boolean fill encode_array concat_map to_be_bytes sum_below
    encode_dictionary sort_entries insert_entry bytes_lt Fields.encode Policies.encode
contract_fits = leb→le (suc (length (Contract.to_wire_bytes signed_contract))) usize_mod refl

abbrev membership_token : MembershipToken.MembershipToken
membership_token = record {
  verse = fill 32 3;
  contract_hash = fill 32 3;
  member_side = fill 32 3;
  issued_at = 1700000000;
  signature = fill 64 3;
}

membership_token-Valid : MembershipToken.Valid membership_token
unfolding valid_utf8 follows bytes_lt text write_text write_head to_be_bytes
membership_token-Valid = (
  fill-IsArray 32 3 (omega arith),
  fill-IsArray 32 3 (omega arith),
  omega arith,
  fill-IsArray 64 3 (omega arith),
  fill-IsArray 32 3 (omega arith),
)

abbrev signed_membership_token : MembershipToken.MembershipToken
signed_membership_token =
    MembershipToken.sign toy true membership_token.contract_hash membership_token.member_side
      membership_token.issued_at

membership_token_fits : length (MembershipToken.to_wire_bytes signed_membership_token) < usize_mod
unfolding MembershipToken.to_wire_bytes MembershipToken.sign MembershipToken.encode_unsigned
    encode_map write_entries write_map_header write_array_header write_head key uint bytes
    write_text write_bytes write_u64 text null encode_nullable boolean fill encode_array concat_map
    to_be_bytes sum_below encode_dictionary sort_entries insert_entry bytes_lt Fields.encode
    Policies.encode
membership_token_fits =
    leb→le (suc (length (MembershipToken.to_wire_bytes signed_membership_token))) usize_mod refl

abbrev join_request : JoinRequest.JoinRequestPayload
join_request = record {
  contract_hash = fill 32 3;
  side = fill 32 3;
  fields = (codes "name", codes "Ann") ∷ (codes "pronoun", codes "she") ∷ [];
  signature = fill 64 3;
}

join_request-Valid : JoinRequest.Valid join_request
unfolding valid_utf8 follows bytes_lt text write_text write_head to_be_bytes
join_request-Valid = (
  fill-IsArray 32 3 (omega arith),
  (
    omega arith,
    (((omega arith, refl), (omega arith, refl)), (((omega arith, refl), (omega arith, refl)), tt)),
    (refl, (refl, tt)),
  ),
  fill-IsArray 64 3 (omega arith),
  fill-IsArray 32 3 (omega arith),
)

abbrev signed_join_request : JoinRequest.JoinRequestPayload
signed_join_request = JoinRequest.sign toy true join_request.contract_hash join_request.fields

join_request_fits : length (JoinRequest.encode signed_join_request) < usize_mod
unfolding JoinRequest.encode JoinRequest.sign JoinRequest.encode_unsigned encode_map write_entries
    write_map_header write_array_header write_head key uint bytes write_text write_bytes write_u64
    text null encode_nullable boolean fill encode_array concat_map to_be_bytes sum_below
    encode_dictionary sort_entries insert_entry bytes_lt Fields.encode Policies.encode
join_request_fits = leb→le (suc (length (JoinRequest.encode signed_join_request))) usize_mod refl

abbrev verse_leave : VerseLeave.VerseLeavePayload
verse_leave = record {
  verse = fill 32 3;
  side = fill 32 3;
  membership_hash = fill 32 3;
  reason = some (codes "why");
  disposition = DataDisposition.retract;
  signature = fill 64 3;
}

verse_leave-Valid : VerseLeave.Valid verse_leave
unfolding valid_utf8 follows bytes_lt text write_text write_head to_be_bytes
verse_leave-Valid = (
  fill-IsArray 32 3 (omega arith),
  fill-IsArray 32 3 (omega arith),
  (omega arith, refl),
  fill-IsArray 64 3 (omega arith),
  tt,
  fill-IsArray 32 3 (omega arith),
)

abbrev signed_verse_leave : VerseLeave.VerseLeavePayload
signed_verse_leave =
    VerseLeave.sign toy true verse_leave.verse verse_leave.membership_hash verse_leave.reason
      verse_leave.disposition

verse_leave_fits : length (VerseLeave.encode signed_verse_leave) < usize_mod
unfolding VerseLeave.encode VerseLeave.sign VerseLeave.encode_unsigned encode_map write_entries
    write_map_header write_array_header write_head key uint bytes write_text write_bytes write_u64
    text null encode_nullable boolean fill encode_array concat_map to_be_bytes sum_below
    encode_dictionary sort_entries insert_entry bytes_lt Fields.encode Policies.encode
verse_leave_fits = leb→le (suc (length (VerseLeave.encode signed_verse_leave))) usize_mod refl

abbrev verse_remove : VerseRemove.VerseRemovePayload
verse_remove = record {
  verse = fill 32 3;
  side = fill 32 3;
  reason = codes "ab";
  issued_by = fill 32 3;
  issued_at = 1700000000;
  signature = fill 64 3;
}

verse_remove-Valid : VerseRemove.Valid verse_remove
unfolding valid_utf8 follows bytes_lt text write_text write_head to_be_bytes
verse_remove-Valid = (
  fill-IsArray 32 3 (omega arith),
  fill-IsArray 32 3 (omega arith),
  (omega arith, refl),
  omega arith,
  fill-IsArray 32 3 (omega arith),
  fill-IsArray 64 3 (omega arith),
)

abbrev signed_verse_remove : VerseRemove.VerseRemovePayload
signed_verse_remove =
    VerseRemove.sign toy true verse_remove.verse verse_remove.side verse_remove.reason
      verse_remove.issued_at

verse_remove_fits : length (VerseRemove.encode signed_verse_remove) < usize_mod
unfolding VerseRemove.encode VerseRemove.sign VerseRemove.encode_unsigned encode_map write_entries
    write_map_header write_array_header write_head key uint bytes write_text write_bytes write_u64
    text null encode_nullable boolean fill encode_array concat_map to_be_bytes sum_below
    encode_dictionary sort_entries insert_entry bytes_lt Fields.encode Policies.encode
verse_remove_fits = leb→le (suc (length (VerseRemove.encode signed_verse_remove))) usize_mod refl

abbrev verse_reconsent : VerseReconsent.VerseReconsentPayload
verse_reconsent = record { contract_hash = fill 32 3; signature = fill 64 3 }

verse_reconsent-Valid : VerseReconsent.Valid verse_reconsent
unfolding valid_utf8 follows bytes_lt text write_text write_head to_be_bytes
verse_reconsent-Valid = (fill-IsArray 64 3 (omega arith), fill-IsArray 32 3 (omega arith))

abbrev signed_verse_reconsent : VerseReconsent.VerseReconsentPayload
signed_verse_reconsent = VerseReconsent.sign toy true verse_reconsent.contract_hash

verse_reconsent_fits : length (VerseReconsent.encode signed_verse_reconsent) < usize_mod
unfolding VerseReconsent.encode VerseReconsent.sign VerseReconsent.encode_unsigned encode_map
    write_entries write_map_header write_array_header write_head key uint bytes write_text
    write_bytes write_u64 text null encode_nullable boolean fill encode_array concat_map to_be_bytes
    sum_below encode_dictionary sort_entries insert_entry bytes_lt Fields.encode Policies.encode
verse_reconsent_fits =
    leb→le (suc (length (VerseReconsent.encode signed_verse_reconsent))) usize_mod refl

abbrev wire : Bytes
wire = Contract.to_wire_bytes signed_contract

wire-IsBytes : IsBytes wire
unfolding Contract.to_wire_bytes Contract.sign Contract.encode_unsigned all_bytes encode_map
    write_entries write_map_header write_array_header write_head key uint bytes write_text
    write_bytes write_u64 text null encode_nullable boolean fill encode_array concat_map to_be_bytes
    sum_below encode_dictionary sort_entries insert_entry bytes_lt Fields.encode Policies.encode
wire-IsBytes = IsBytes-all_bytes wire refl

members_iff_example :
    ((Contract.from_wire_bytes toy wire ≡ ok signed_contract)
      ↔ Contract.Valid signed_contract
        × (wire ≡ Contract.to_wire_bytes signed_contract)
        × Contract.Authentic toy signed_contract)
    × ((MembershipToken.from_wire_bytes toy wire ≡ ok signed_membership_token)
        ↔ MembershipToken.Valid signed_membership_token
          × ((junk : Bytes) × (wire
                ≡ MembershipToken.to_wire_bytes signed_membership_token ++ junk))
          × MembershipToken.Authentic toy signed_membership_token)
    × ((JoinRequest.decode toy wire ≡ ok signed_join_request)
        ↔ JoinRequest.Valid signed_join_request
          × ((junk : Bytes) × (wire ≡ JoinRequest.encode signed_join_request ++ junk))
          × JoinRequest.Authentic toy signed_join_request)
    × ((VerseLeave.decode toy wire ≡ ok signed_verse_leave)
        ↔ VerseLeave.Valid signed_verse_leave
          × ((junk : Bytes) × (wire ≡ VerseLeave.encode signed_verse_leave ++ junk))
          × VerseLeave.Authentic toy signed_verse_leave)
    × ((VerseRemove.decode toy wire ≡ ok signed_verse_remove)
        ↔ VerseRemove.Valid signed_verse_remove
          × ((junk : Bytes) × (wire ≡ VerseRemove.encode signed_verse_remove ++ junk))
          × VerseRemove.Authentic toy signed_verse_remove)
    × ((VerseReconsent.decode_and_verify toy wire (fill 32 3) ≡ ok signed_verse_reconsent)
        ↔ VerseReconsent.Valid signed_verse_reconsent
          × ((junk : Bytes) × (wire ≡ VerseReconsent.encode signed_verse_reconsent ++ junk))
          × VerseReconsent.Authentic toy (fill 32 3) signed_verse_reconsent)
members_iff_example =
    members_iff toy wire (fill 32 3) signed_contract signed_membership_token signed_join_request
      signed_verse_leave signed_verse_remove signed_verse_reconsent wire-IsBytes contract_fits

members_signed_example :
    (Contract.from_wire_bytes toy (Contract.to_wire_bytes signed_contract) ≡ ok signed_contract)
    × (MembershipToken.from_wire_bytes toy (MembershipToken.to_wire_bytes signed_membership_token)
        ≡ ok signed_membership_token)
    × (JoinRequest.decode toy (JoinRequest.encode signed_join_request) ≡ ok signed_join_request)
    × (VerseLeave.decode toy (VerseLeave.encode signed_verse_leave) ≡ ok signed_verse_leave)
    × (VerseRemove.decode toy (VerseRemove.encode signed_verse_remove) ≡ ok signed_verse_remove)
    × (VerseReconsent.decode_and_verify toy
          (VerseReconsent.encode signed_verse_reconsent)
          (toy.public_bytes true)
        ≡ ok signed_verse_reconsent)
members_signed_example =
    members_signed toy toy-IsSound true contract membership_token join_request verse_leave
      verse_remove verse_reconsent contract-Valid membership_token-Valid join_request-Valid
      verse_leave-Valid verse_remove-Valid verse_reconsent-Valid contract_fits membership_token_fits
      join_request_fits verse_leave_fits verse_remove_fits verse_reconsent_fits
