-- ===== src/Messages/Members.antt =====
-- Which bytes the decoders of signed payloads accept in crates/sidevers-core/src/messages/verse.rs
-- and crates/sidevers-core/src/verse.rs, and that what is signed is accepted.
use sidevers_protocol.Cbor.Reader.{usize_mod}
use sidevers_protocol.Cbor.Writer.{Bytes}
use sidevers_protocol.Common.{IsBytes, length, ◌<◌, ◌≡◌, ◌↔◌, ◌++◌}
use sidevers_protocol.Crypto.{Crypto, IsSound}
use sidevers_protocol.Errors.{ok}
use sidevers_protocol.Verse.Contract
use sidevers_protocol.Verse.{ContractObject}
use sidevers_protocol.Verse.MembershipToken
use sidevers_protocol.Messages.JoinRequest
use sidevers_protocol.Messages.VerseLeave
use sidevers_protocol.Messages.VerseRemove
use sidevers_protocol.Messages.VerseReconsent

-- For what is signed about a verse: its contract, a membership token, a request to join, a member's
-- leave, a member's removal and a renewed consent: from bytes that fit the address space, the
-- decoder gives a payload exactly if the payload can be encoded, the bytes are its encoding (for
-- the contract) or begin with it (for the others), and its signature holds.
pub members_iff :
    (c : Crypto) (bs : Bytes) (side_pubkey : Bytes) (contract : ContractObject)
    (membership_token : MembershipToken.MembershipToken)
    (join_request : JoinRequest.JoinRequestPayload) (verse_leave : VerseLeave.VerseLeavePayload)
    (verse_remove : VerseRemove.VerseRemovePayload)
    (verse_reconsent : VerseReconsent.VerseReconsentPayload)
    → IsBytes bs
    → length bs < usize_mod
    → ((Contract.from_wire_bytes c bs ≡ ok contract)
        ↔ Contract.Valid contract
          × (bs ≡ Contract.to_wire_bytes contract)
          × Contract.Authentic c contract)
      × ((MembershipToken.from_wire_bytes c bs ≡ ok membership_token)
          ↔ MembershipToken.Valid membership_token
            × ((junk : Bytes) × (bs ≡ MembershipToken.to_wire_bytes membership_token ++ junk))
            × MembershipToken.Authentic c membership_token)
      × ((JoinRequest.decode c bs ≡ ok join_request)
          ↔ JoinRequest.Valid join_request
            × ((junk : Bytes) × (bs ≡ JoinRequest.encode join_request ++ junk))
            × JoinRequest.Authentic c join_request)
      × ((VerseLeave.decode c bs ≡ ok verse_leave)
          ↔ VerseLeave.Valid verse_leave
            × ((junk : Bytes) × (bs ≡ VerseLeave.encode verse_leave ++ junk))
            × VerseLeave.Authentic c verse_leave)
      × ((VerseRemove.decode c bs ≡ ok verse_remove)
          ↔ VerseRemove.Valid verse_remove
            × ((junk : Bytes) × (bs ≡ VerseRemove.encode verse_remove ++ junk))
            × VerseRemove.Authentic c verse_remove)
      × ((VerseReconsent.decode_and_verify c bs side_pubkey ≡ ok verse_reconsent)
          ↔ VerseReconsent.Valid verse_reconsent
            × ((junk : Bytes) × (bs ≡ VerseReconsent.encode verse_reconsent ++ junk))
            × VerseReconsent.Authentic c side_pubkey verse_reconsent)
members_iff c bs side_pubkey contract membership_token join_request verse_leave verse_remove
      verse_reconsent hb fits =
    (
      Contract.contract_iff c bs contract hb fits,
      MembershipToken.membership_token_iff c bs membership_token hb fits,
      JoinRequest.join_request_iff c bs join_request hb fits,
      VerseLeave.verse_leave_iff c bs verse_leave hb fits,
      VerseRemove.verse_remove_iff c bs verse_remove hb fits,
      VerseReconsent.verse_reconsent_iff c side_pubkey bs verse_reconsent hb fits,
    )

-- For what is signed about a verse: its contract, a membership token, a request to join, a member's
-- leave, a member's removal and a renewed consent: with a sound cryptographic library, what is
-- signed of fields of the right widths and fits the address space is decoded from its own encoding.
pub members_signed :
    (c : Crypto)
    → IsSound c
    → (k : c.SigningKey) (contract : ContractObject)
      (membership_token : MembershipToken.MembershipToken)
      (join_request : JoinRequest.JoinRequestPayload) (verse_leave : VerseLeave.VerseLeavePayload)
      (verse_remove : VerseRemove.VerseRemovePayload)
      (verse_reconsent : VerseReconsent.VerseReconsentPayload)
    → Contract.Valid contract
    → MembershipToken.Valid membership_token
    → JoinRequest.Valid join_request
    → VerseLeave.Valid verse_leave
    → VerseRemove.Valid verse_remove
    → VerseReconsent.Valid verse_reconsent
    → length (
        Contract.to_wire_bytes (
          Contract.sign c k contract.version contract.title contract.description contract.required
            contract.optional contract.forbidden contract.scoped contract.policies
            contract.moderators contract.issued_at))
      < usize_mod
    → length (
        MembershipToken.to_wire_bytes (
          MembershipToken.sign c k membership_token.contract_hash membership_token.member_side
            membership_token.issued_at))
      < usize_mod
    → length
        (JoinRequest.encode (JoinRequest.sign c k join_request.contract_hash join_request.fields))
      < usize_mod
    → length (
        VerseLeave.encode (
          VerseLeave.sign c k verse_leave.verse verse_leave.membership_hash verse_leave.reason
            verse_leave.disposition))
      < usize_mod
    → length (
        VerseRemove.encode (
          VerseRemove.sign c k verse_remove.verse verse_remove.side verse_remove.reason
            verse_remove.issued_at))
      < usize_mod
    → length (VerseReconsent.encode (VerseReconsent.sign c k verse_reconsent.contract_hash))
      < usize_mod
    → (Contract.from_wire_bytes c (
          Contract.to_wire_bytes (
            Contract.sign c k contract.version contract.title contract.description contract.required
              contract.optional contract.forbidden contract.scoped contract.policies
              contract.moderators contract.issued_at))
        ≡ ok (
            Contract.sign c k contract.version contract.title contract.description contract.required
              contract.optional contract.forbidden contract.scoped contract.policies
              contract.moderators contract.issued_at))
      × (MembershipToken.from_wire_bytes c (
            MembershipToken.to_wire_bytes (
              MembershipToken.sign c k membership_token.contract_hash membership_token.member_side
                membership_token.issued_at))
          ≡ ok (
              MembershipToken.sign c k membership_token.contract_hash membership_token.member_side
                membership_token.issued_at))
      × (JoinRequest.decode c (
            JoinRequest.encode
              (JoinRequest.sign c k join_request.contract_hash join_request.fields))
          ≡ ok (JoinRequest.sign c k join_request.contract_hash join_request.fields))
      × (VerseLeave.decode c (
            VerseLeave.encode (
              VerseLeave.sign c k verse_leave.verse verse_leave.membership_hash verse_leave.reason
                verse_leave.disposition))
          ≡ ok (
              VerseLeave.sign c k verse_leave.verse verse_leave.membership_hash verse_leave.reason
                verse_leave.disposition))
      × (VerseRemove.decode c (
            VerseRemove.encode (
              VerseRemove.sign c k verse_remove.verse verse_remove.side verse_remove.reason
                verse_remove.issued_at))
          ≡ ok (
              VerseRemove.sign c k verse_remove.verse verse_remove.side verse_remove.reason
                verse_remove.issued_at))
      × (VerseReconsent.decode_and_verify c
            (VerseReconsent.encode (VerseReconsent.sign c k verse_reconsent.contract_hash))
            (c.public_bytes k)
          ≡ ok (VerseReconsent.sign c k verse_reconsent.contract_hash))
members_signed c s k contract membership_token join_request verse_leave verse_remove verse_reconsent
      h0 h1 h2 h3 h4 h5 f0 f1 f2 f3 f4 f5 =
    (
      Contract.sign-contract c s k contract h0 f0,
      MembershipToken.sign-membership_token c s k membership_token h1 f1,
      JoinRequest.sign-join_request c s k join_request h2 f2,
      VerseLeave.sign-verse_leave c s k verse_leave h3 f3,
      VerseRemove.sign-verse_remove c s k verse_remove h4 f4,
      VerseReconsent.sign-verse_reconsent c s k verse_reconsent h5 f5,
    )
