-- ===== src/Tests/Accepted.antt =====
-- The decoders of the payloads that travel on their own, at samples.
use sidevers_protocol.Cbor.Field.{concat_map, encode_array}
use sidevers_protocol.Cbor.Reader.{usize_mod}
use sidevers_protocol.Cbor.Writer.{
  Bytes, boolean, bytes, encode_map, key, text, uint, write_array_header, write_bytes,
  write_entries, write_head, write_map_header, write_text, write_u64,
}
use sidevers_protocol.Common.{
  IsBytes, [], codes, false, leb→le, length, refl, some, suc, to_be_bytes, true, ◌++◌, ◌<◌, ◌↔◌,
  ◌∷◌, ◌≡◌,
}
use sidevers_protocol.Errors.{ok}
use sidevers_protocol.Messages.Confirm
use sidevers_protocol.Messages.Rendezvous
use sidevers_protocol.Messages.ContractFetch
use sidevers_protocol.Messages.JoinAccept
use sidevers_protocol.Messages.JoinDecline
use sidevers_protocol.Messages.VersePost
use sidevers_protocol.Messages.DirectTyping
use sidevers_protocol.Messages.ForwardDeliver
use sidevers_protocol.Messages.ForwardStore
use sidevers_protocol.Messages.PeerAsk
use sidevers_protocol.Messages.RendezvousAck
use sidevers_protocol.Messages.StorageHave
use sidevers_protocol.Messages.StorageMiss
use sidevers_protocol.Messages.StorageRetract
use sidevers_protocol.Messages.StorageWant
use sidevers_protocol.Messages.TypingState
use sidevers_protocol.Tests.Samples.{IsBytes-all_bytes, all_bytes, fill}
use sidevers_protocol.Messages.Accepted.{payloads_iff}

abbrev confirm : Confirm.ConfirmPayload
confirm = record { proof = fill 32 6 }

abbrev direct_typing : DirectTyping.DirectTypingPayload
direct_typing = record { state = TypingState.other (codes "paused") }

abbrev storage_have : StorageHave.StorageHavePayload
storage_have = record { hash = fill 32 1; body_bytes = 1 ∷ 2 ∷ []; final = true }

abbrev storage_miss : StorageMiss.StorageMissPayload
storage_miss = record { hash = fill 32 1; hints = fill 32 2 ∷ [] }

abbrev storage_want : StorageWant.StorageWantPayload
storage_want = record { hash = fill 32 1; want = false }

abbrev storage_retract : StorageRetract.StorageRetractPayload
storage_retract = record { hash = fill 32 1 }

abbrev peer_ask : PeerAsk.PeerAskPayload
peer_ask = record { limit = 20; intent_filter = some 3 }

abbrev forward_store : ForwardStore.ForwardStorePayload
forward_store = record { envelope = 1 ∷ 2 ∷ 3 ∷ []; recipient = fill 32 2; ttl_secs = 604800 }

abbrev forward_deliver : ForwardDeliver.ForwardDeliverPayload
forward_deliver = record { envelope = 1 ∷ 2 ∷ 3 ∷ []; stored_at = 1700000000 }

abbrev rendezvous_ack : RendezvousAck.RendezvousAckPayload
rendezvous_ack = record { target = fill 32 1; endpoints = codes "a.example:443" ∷ [] }

abbrev rendezvous : Rendezvous.RendezvousPayload
rendezvous = record { target = fill 32 1 }

abbrev contract_fetch : ContractFetch.ContractFetchPayload
contract_fetch = record { version = some 3 }

abbrev join_accept : JoinAccept.JoinAcceptPayload
join_accept = record {
  membership_token = 1 ∷ 2 ∷ [];
  key_nonce = fill 16 7;
  sealed_content_key = 3 ∷ [];
}

abbrev join_decline : JoinDecline.JoinDeclinePayload
join_decline = record { contract_hash = fill 32 8; reason = codes "full" }

abbrev verse_post : VersePost.VersePostPayload
verse_post = record { nonce = fill 12 9; ciphertext = 4 ∷ 5 ∷ [] }

storage_have-IsBytes : IsBytes (StorageHave.encode storage_have ++ (0 ∷ []))
unfolding StorageHave.encode boolean encode_map write_entries write_map_header write_array_header
    write_head key uint bytes write_text write_bytes write_u64 text fill encode_array concat_map
    to_be_bytes all_bytes
storage_have-IsBytes = IsBytes-all_bytes (StorageHave.encode storage_have ++ (0 ∷ [])) refl

storage_have-fits : length (StorageHave.encode storage_have ++ (0 ∷ [])) < usize_mod
unfolding StorageHave.encode boolean encode_map write_entries write_map_header write_array_header
    write_head key uint bytes write_text write_bytes write_u64 text fill encode_array concat_map
    to_be_bytes
storage_have-fits =
    leb→le (suc (length (StorageHave.encode storage_have ++ (0 ∷ [])))) usize_mod refl

payloads_iff_example :
    ((Confirm.decode (StorageHave.encode storage_have ++ (0 ∷ [])) ≡ ok confirm)
      ↔ Confirm.Valid confirm
        × (StorageHave.encode storage_have ++ (0 ∷ []) ≡ Confirm.encode confirm))
    × ((DirectTyping.decode (StorageHave.encode storage_have ++ (0 ∷ [])) ≡ ok direct_typing)
        ↔ DirectTyping.Valid direct_typing
          × (StorageHave.encode storage_have ++ (0 ∷ []) ≡ DirectTyping.encode direct_typing))
    × ((StorageHave.decode (StorageHave.encode storage_have ++ (0 ∷ [])) ≡ ok storage_have)
        ↔ StorageHave.Valid storage_have
          × ((junk : Bytes) × (StorageHave.encode storage_have ++ (0 ∷ [])
                ≡ StorageHave.encode storage_have ++ junk)))
    × ((StorageMiss.decode (StorageHave.encode storage_have ++ (0 ∷ [])) ≡ ok storage_miss)
        ↔ StorageMiss.Valid storage_miss
          × ((junk : Bytes) × (StorageHave.encode storage_have ++ (0 ∷ [])
                ≡ StorageMiss.encode storage_miss ++ junk)))
    × ((StorageWant.decode (StorageHave.encode storage_have ++ (0 ∷ [])) ≡ ok storage_want)
        ↔ StorageWant.Valid storage_want
          × ((junk : Bytes) × (StorageHave.encode storage_have ++ (0 ∷ [])
                ≡ StorageWant.encode storage_want ++ junk)))
    × ((StorageRetract.decode (StorageHave.encode storage_have ++ (0 ∷ [])) ≡ ok storage_retract)
        ↔ StorageRetract.Valid storage_retract
          × ((junk : Bytes) × (StorageHave.encode storage_have ++ (0 ∷ [])
                ≡ StorageRetract.encode storage_retract ++ junk)))
    × ((PeerAsk.decode (StorageHave.encode storage_have ++ (0 ∷ [])) ≡ ok peer_ask)
        ↔ PeerAsk.Valid peer_ask
          × ((junk : Bytes) × (StorageHave.encode storage_have ++ (0 ∷ [])
                ≡ PeerAsk.encode peer_ask ++ junk)))
    × ((ForwardStore.decode (StorageHave.encode storage_have ++ (0 ∷ [])) ≡ ok forward_store)
        ↔ ForwardStore.Valid forward_store
          × ((junk : Bytes) × (StorageHave.encode storage_have ++ (0 ∷ [])
                ≡ ForwardStore.encode forward_store ++ junk)))
    × ((ForwardDeliver.decode (StorageHave.encode storage_have ++ (0 ∷ [])) ≡ ok forward_deliver)
        ↔ ForwardDeliver.Valid forward_deliver
          × ((junk : Bytes) × (StorageHave.encode storage_have ++ (0 ∷ [])
                ≡ ForwardDeliver.encode forward_deliver ++ junk)))
    × ((RendezvousAck.decode (StorageHave.encode storage_have ++ (0 ∷ [])) ≡ ok rendezvous_ack)
        ↔ RendezvousAck.Valid rendezvous_ack
          × ((junk : Bytes) × (StorageHave.encode storage_have ++ (0 ∷ [])
                ≡ RendezvousAck.encode rendezvous_ack ++ junk)))
    × ((Rendezvous.decode (StorageHave.encode storage_have ++ (0 ∷ [])) ≡ ok rendezvous)
        ↔ Rendezvous.Valid rendezvous
          × ((junk : Bytes) × (StorageHave.encode storage_have ++ (0 ∷ [])
                ≡ Rendezvous.encode rendezvous ++ junk)))
    × ((ContractFetch.decode (StorageHave.encode storage_have ++ (0 ∷ [])) ≡ ok contract_fetch)
        ↔ ContractFetch.Valid contract_fetch
          × ((junk : Bytes) × (StorageHave.encode storage_have ++ (0 ∷ [])
                ≡ ContractFetch.encode contract_fetch ++ junk)))
    × ((JoinAccept.decode (StorageHave.encode storage_have ++ (0 ∷ [])) ≡ ok join_accept)
        ↔ JoinAccept.Valid join_accept
          × ((junk : Bytes) × (StorageHave.encode storage_have ++ (0 ∷ [])
                ≡ JoinAccept.encode join_accept ++ junk)))
    × ((JoinDecline.decode (StorageHave.encode storage_have ++ (0 ∷ [])) ≡ ok join_decline)
        ↔ JoinDecline.Valid join_decline
          × ((junk : Bytes) × (StorageHave.encode storage_have ++ (0 ∷ [])
                ≡ JoinDecline.encode join_decline ++ junk)))
    × ((VersePost.decode (StorageHave.encode storage_have ++ (0 ∷ [])) ≡ ok verse_post)
        ↔ VersePost.Valid verse_post
          × ((junk : Bytes) × (StorageHave.encode storage_have ++ (0 ∷ [])
                ≡ VersePost.encode verse_post ++ junk)))
payloads_iff_example =
    payloads_iff (StorageHave.encode storage_have ++ (0 ∷ [])) confirm direct_typing storage_have
      storage_miss storage_want storage_retract peer_ask forward_store forward_deliver
      rendezvous_ack rendezvous contract_fetch join_accept join_decline verse_post
      storage_have-IsBytes storage_have-fits
