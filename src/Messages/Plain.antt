-- ===== src/Messages/Plain.antt =====
-- Which bytes the decoders of the larger payloads without a signature accept, in
-- crates/sidevers-core/src/messages and crates/sidevers-net/src/storage_protocol.rs.
use sidevers_protocol.Cbor.Reader.{usize_mod}
use sidevers_protocol.Cbor.Writer.{Bytes}
use sidevers_protocol.Common.{IsBytes, length, ◌<◌, ◌≡◌, ◌↔◌, ◌++◌}
use sidevers_protocol.Errors.{ok}
use sidevers_protocol.Storage.References.Decoding.{Valid}
use sidevers_protocol.Messages.PeerTell
use sidevers_protocol.Messages.StorageGet
use sidevers_protocol.Messages.StorageOffer
use sidevers_protocol.Messages.DirectReceipt
use sidevers_protocol.Messages.Hello
use sidevers_protocol.Messages.HelloBack
use sidevers_protocol.Messages.HandleResolve
use sidevers_protocol.Messages.PageFetch
use sidevers_protocol.Messages.StateBundleInner

-- From bytes that fit the address space: the decoders of a peer list, of a storage request and of a
-- storage offer give a payload exactly if it can be encoded and the bytes begin with its encoding;
-- those of a receipt, of both hello payloads, of the requests for a handle and for a page, and of
-- the state that a bundle seals give one exactly if it can be encoded and the bytes are its
-- encoding.
pub plain_iff :
    (bs : Bytes) (peer_tell : PeerTell.PeerTellPayload) (storage_get : StorageGet.StorageGetPayload)
    (offer : StorageOffer.StorageOfferPayload) (direct_receipt : DirectReceipt.DirectReceiptPayload)
    (hello : Hello.HelloPayload) (hello_back : HelloBack.HelloBackPayload)
    (handle_resolve : HandleResolve.HandleResolvePayload) (page_fetch : PageFetch.PageFetchPayload)
    (state_bundle_inner : StateBundleInner.StateBundleInner)
    → IsBytes bs
    → length bs < usize_mod
    → ((PeerTell.decode bs ≡ ok peer_tell)
        ↔ PeerTell.Valid peer_tell × ((junk : Bytes) × (bs ≡ PeerTell.encode peer_tell ++ junk)))
      × ((StorageGet.decode bs ≡ ok storage_get)
          ↔ StorageGet.Valid storage_get
            × ((junk : Bytes) × (bs ≡ StorageGet.encode storage_get ++ junk)))
      × ((StorageOffer.decode_offer bs ≡ ok offer)
          ↔ Valid 65 offer.reference
            × ((junk : Bytes) × (bs ≡ StorageOffer.encode_offer offer ++ junk)))
      × ((DirectReceipt.decode bs ≡ ok direct_receipt)
          ↔ DirectReceipt.Valid direct_receipt × (bs ≡ DirectReceipt.encode direct_receipt))
      × ((Hello.decode bs ≡ ok hello) ↔ Hello.Valid hello × (bs ≡ Hello.encode hello))
      × ((HelloBack.decode bs ≡ ok hello_back)
          ↔ HelloBack.Valid hello_back × (bs ≡ HelloBack.encode hello_back))
      × ((HandleResolve.decode bs ≡ ok handle_resolve)
          ↔ HandleResolve.Valid handle_resolve × (bs ≡ HandleResolve.encode handle_resolve))
      × ((PageFetch.decode bs ≡ ok page_fetch)
          ↔ PageFetch.Valid page_fetch × (bs ≡ PageFetch.encode page_fetch))
      × ((StateBundleInner.decode bs ≡ ok state_bundle_inner)
          ↔ StateBundleInner.Valid state_bundle_inner
            × (bs ≡ StateBundleInner.encode state_bundle_inner))
plain_iff bs peer_tell storage_get offer direct_receipt hello hello_back handle_resolve page_fetch
      state_bundle_inner hb fits =
    (
      PeerTell.peer_tell_iff bs peer_tell hb fits,
      StorageGet.storage_get_iff bs storage_get hb fits,
      StorageOffer.offer_iff bs offer hb fits,
      DirectReceipt.direct_receipt_iff bs direct_receipt hb fits,
      Hello.hello_iff bs hello hb fits,
      HelloBack.hello_back_iff bs hello_back hb fits,
      HandleResolve.handle_resolve_iff bs handle_resolve hb fits,
      PageFetch.page_fetch_iff bs page_fetch hb fits,
      StateBundleInner.state_bundle_inner_iff bs state_bundle_inner hb fits,
    )
