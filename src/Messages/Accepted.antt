-- ===== src/Messages/Accepted.antt =====
-- Which bytes the payloads' decoders accept, in crates/sidevers-core/src/messages and
-- crates/sidevers-net/src/storage_protocol.rs, of the payloads that hold no other.
use sidevers_protocol.Cbor.Reader.{usize_mod}
use sidevers_protocol.Cbor.Writer.{Bytes}
use sidevers_protocol.Errors.{ok}
use sidevers_protocol.Messages.Confirm
use sidevers_protocol.Messages.DirectTyping
use sidevers_protocol.Messages.StorageHave
use sidevers_protocol.Messages.StorageMiss
use sidevers_protocol.Messages.StorageWant
use sidevers_protocol.Messages.StorageRetract
use sidevers_protocol.Messages.PeerAsk
use sidevers_protocol.Messages.ForwardStore
use sidevers_protocol.Messages.ForwardDeliver
use sidevers_protocol.Messages.RendezvousAck
use sidevers_protocol.Messages.Rendezvous
use sidevers_protocol.Messages.ContractFetch
use sidevers_protocol.Messages.JoinAccept
use sidevers_protocol.Messages.JoinDecline
use sidevers_protocol.Messages.VersePost
use sidevers_protocol.Common.{IsBytes, length, ◌<◌, ◌≡◌, ◌↔◌, ◌++◌}

-- From bytes that fit the address space: the decoders of `Confirm` and of `DirectTyping` give a payload
-- exactly if it can be encoded and the bytes are its encoding; those of the storage protocol's have,
-- miss, want and retract, of the peer request, of both forwarding and both rendezvous payloads, and of
-- a verse's contract request, its two answers to a joining side and its posts give one exactly if it
-- can be encoded and the bytes begin with its encoding.
pub payloads_iff :
    (bs : Bytes) (confirm : Confirm.ConfirmPayload)
    (direct_typing : DirectTyping.DirectTypingPayload)
    (storage_have : StorageHave.StorageHavePayload) (storage_miss : StorageMiss.StorageMissPayload)
    (storage_want : StorageWant.StorageWantPayload)
    (storage_retract : StorageRetract.StorageRetractPayload) (peer_ask : PeerAsk.PeerAskPayload)
    (forward_store : ForwardStore.ForwardStorePayload)
    (forward_deliver : ForwardDeliver.ForwardDeliverPayload)
    (rendezvous_ack : RendezvousAck.RendezvousAckPayload)
    (rendezvous : Rendezvous.RendezvousPayload)
    (contract_fetch : ContractFetch.ContractFetchPayload)
    (join_accept : JoinAccept.JoinAcceptPayload) (join_decline : JoinDecline.JoinDeclinePayload)
    (verse_post : VersePost.VersePostPayload)
    → IsBytes bs
    → length bs < usize_mod
    → ((Confirm.decode bs ≡ ok confirm) ↔ Confirm.Valid confirm × (bs ≡ Confirm.encode confirm))
      × ((DirectTyping.decode bs ≡ ok direct_typing)
          ↔ DirectTyping.Valid direct_typing × (bs ≡ DirectTyping.encode direct_typing))
      × ((StorageHave.decode bs ≡ ok storage_have)
          ↔ StorageHave.Valid storage_have
            × ((junk : Bytes) × (bs ≡ StorageHave.encode storage_have ++ junk)))
      × ((StorageMiss.decode bs ≡ ok storage_miss)
          ↔ StorageMiss.Valid storage_miss
            × ((junk : Bytes) × (bs ≡ StorageMiss.encode storage_miss ++ junk)))
      × ((StorageWant.decode bs ≡ ok storage_want)
          ↔ StorageWant.Valid storage_want
            × ((junk : Bytes) × (bs ≡ StorageWant.encode storage_want ++ junk)))
      × ((StorageRetract.decode bs ≡ ok storage_retract)
          ↔ StorageRetract.Valid storage_retract
            × ((junk : Bytes) × (bs ≡ StorageRetract.encode storage_retract ++ junk)))
      × ((PeerAsk.decode bs ≡ ok peer_ask)
          ↔ PeerAsk.Valid peer_ask × ((junk : Bytes) × (bs ≡ PeerAsk.encode peer_ask ++ junk)))
      × ((ForwardStore.decode bs ≡ ok forward_store)
          ↔ ForwardStore.Valid forward_store
            × ((junk : Bytes) × (bs ≡ ForwardStore.encode forward_store ++ junk)))
      × ((ForwardDeliver.decode bs ≡ ok forward_deliver)
          ↔ ForwardDeliver.Valid forward_deliver
            × ((junk : Bytes) × (bs ≡ ForwardDeliver.encode forward_deliver ++ junk)))
      × ((RendezvousAck.decode bs ≡ ok rendezvous_ack)
          ↔ RendezvousAck.Valid rendezvous_ack
            × ((junk : Bytes) × (bs ≡ RendezvousAck.encode rendezvous_ack ++ junk)))
      × ((Rendezvous.decode bs ≡ ok rendezvous)
          ↔ Rendezvous.Valid rendezvous
            × ((junk : Bytes) × (bs ≡ Rendezvous.encode rendezvous ++ junk)))
      × ((ContractFetch.decode bs ≡ ok contract_fetch)
          ↔ ContractFetch.Valid contract_fetch
            × ((junk : Bytes) × (bs ≡ ContractFetch.encode contract_fetch ++ junk)))
      × ((JoinAccept.decode bs ≡ ok join_accept)
          ↔ JoinAccept.Valid join_accept
            × ((junk : Bytes) × (bs ≡ JoinAccept.encode join_accept ++ junk)))
      × ((JoinDecline.decode bs ≡ ok join_decline)
          ↔ JoinDecline.Valid join_decline
            × ((junk : Bytes) × (bs ≡ JoinDecline.encode join_decline ++ junk)))
      × ((VersePost.decode bs ≡ ok verse_post)
          ↔ VersePost.Valid verse_post
            × ((junk : Bytes) × (bs ≡ VersePost.encode verse_post ++ junk)))
payloads_iff bs confirm direct_typing storage_have storage_miss storage_want storage_retract
      peer_ask forward_store forward_deliver rendezvous_ack rendezvous contract_fetch join_accept
      join_decline verse_post hb fits =
    (
      Confirm.confirm_iff bs confirm hb fits,
      DirectTyping.direct_typing_iff bs direct_typing hb fits,
      StorageHave.storage_have_iff bs storage_have hb fits,
      StorageMiss.storage_miss_iff bs storage_miss hb fits,
      StorageWant.storage_want_iff bs storage_want hb fits,
      StorageRetract.storage_retract_iff bs storage_retract hb fits,
      PeerAsk.peer_ask_iff bs peer_ask hb fits,
      ForwardStore.forward_store_iff bs forward_store hb fits,
      ForwardDeliver.forward_deliver_iff bs forward_deliver hb fits,
      RendezvousAck.rendezvous_ack_iff bs rendezvous_ack hb fits,
      Rendezvous.rendezvous_iff bs rendezvous hb fits,
      ContractFetch.contract_fetch_iff bs contract_fetch hb fits,
      JoinAccept.join_accept_iff bs join_accept hb fits,
      JoinDecline.join_decline_iff bs join_decline hb fits,
      VersePost.verse_post_iff bs verse_post hb fits,
    )
