-- ===== src/Tests/Plain.antt =====
-- The decoders of the larger payloads without a signature, at the bytes of a hello.
use sidevers_protocol.Cbor.Dictionary.{insert_entry, sort_entries, encode_dictionary}
use sidevers_protocol.Cbor.Field.{concat_map, encode_array}
use sidevers_protocol.Cbor.Reader.{usize_mod}
use sidevers_protocol.Cbor.Writer.{
  Bytes, write_head, write_u64, write_bytes, write_text, write_array_header, write_map_header, key,
  uint, bytes, text, write_entries, encode_map,
}
use sidevers_protocol.Common.{
  to_be_bytes, IsBytes, codes, suc, ◌<◌, ◌≡◌, refl, ◌↔◌, true, none, [], ◌∷◌, ◌++◌, leb→le, length,
}
use sidevers_protocol.Errors.{ok}
use sidevers_protocol.Messages.Plain.{plain_iff}
use sidevers_protocol.Storage.References.{reference, no_deps}
use sidevers_protocol.Storage.References.Decoding.{Valid}
use sidevers_protocol.Tests.Samples.{fill, all_bytes, IsBytes-all_bytes}
use sidevers_protocol.Messages.ReceiptStatus
use sidevers_protocol.Messages.PeerTell
use sidevers_protocol.Messages.StorageGet
use sidevers_protocol.Messages.StorageOffer
use sidevers_protocol.Messages.DirectReceipt
use sidevers_protocol.Messages.Hello
use sidevers_protocol.Messages.HelloBack
use sidevers_protocol.Messages.HandleResolve
use sidevers_protocol.Messages.PageFetch
use sidevers_protocol.Messages.StateBundleInner

abbrev peer_tell : PeerTell.PeerTellPayload
peer_tell = record {
  peers =
      record { address = fill 32 1; intents = 1 ∷ []; endpoints = codes "a:1" ∷ []; last_seen = 5 }
      ∷ [];
}

abbrev storage_get : StorageGet.StorageGetPayload
storage_get = record { hash = fill 32 1; range = none }

abbrev offer : StorageOffer.StorageOfferPayload
offer = record { reference = reference (fill 32 1) 3 (codes "text/plain") [] no_deps }

abbrev direct_receipt : DirectReceipt.DirectReceiptPayload
direct_receipt = record { message_ref = fill 32 1; status = ReceiptStatus.delivered }

abbrev hello : Hello.HelloPayload
hello = record {
  v_max = 1;
  v_min = 1;
  extensions = codes "x" ∷ [];
  eph_pub = fill 32 2;
  intent = 1;
  capabilities = (codes "max_message_rate", 100) ∷ [];
}

abbrev hello_back : HelloBack.HelloBackPayload
hello_back = record {
  v = 1;
  accept = true;
  reason = none;
  eph_pub = fill 32 2;
  extensions = [];
  capabilities = [];
}

abbrev handle_resolve : HandleResolve.HandleResolvePayload
handle_resolve = record { handle_local = codes "ann"; domain = codes "a.example" }

abbrev page_fetch : PageFetch.PageFetchPayload
page_fetch = record { side = fill 32 3; slug = codes "home" }

abbrev state_bundle_inner : StateBundleInner.StateBundleInner
state_bundle_inner = record {
  side_seed = fill 32 1;
  profile_wire = none;
  relationships = [];
  retired_sides = fill 32 4 ∷ [];
  lifecycle = codes "Active";
  co_holders = [];
  bundled_at = 9;
}

abbrev greeting : Bytes
greeting = Hello.encode hello

greeting-IsBytes : IsBytes greeting
unfolding Hello.encode encode_map write_entries write_map_header write_array_header write_head key
    uint bytes write_text write_bytes write_u64 text fill encode_array concat_map to_be_bytes
    encode_dictionary sort_entries insert_entry all_bytes
greeting-IsBytes = IsBytes-all_bytes greeting refl

greeting_fits : length greeting < usize_mod
unfolding Hello.encode encode_map write_entries write_map_header write_array_header write_head key
    uint bytes write_text write_bytes write_u64 text fill encode_array concat_map to_be_bytes
    encode_dictionary sort_entries insert_entry
greeting_fits = leb→le (suc (length greeting)) usize_mod refl

plain_iff_example :
    ((PeerTell.decode greeting ≡ ok peer_tell)
      ↔ PeerTell.Valid peer_tell
        × ((junk : Bytes) × (greeting ≡ PeerTell.encode peer_tell ++ junk)))
    × ((StorageGet.decode greeting ≡ ok storage_get)
        ↔ StorageGet.Valid storage_get
          × ((junk : Bytes) × (greeting ≡ StorageGet.encode storage_get ++ junk)))
    × ((StorageOffer.decode_offer greeting ≡ ok offer)
        ↔ Valid 65 offer.reference
          × ((junk : Bytes) × (greeting ≡ StorageOffer.encode_offer offer ++ junk)))
    × ((DirectReceipt.decode greeting ≡ ok direct_receipt)
        ↔ DirectReceipt.Valid direct_receipt × (greeting ≡ DirectReceipt.encode direct_receipt))
    × ((Hello.decode greeting ≡ ok hello) ↔ Hello.Valid hello × (greeting ≡ Hello.encode hello))
    × ((HelloBack.decode greeting ≡ ok hello_back)
        ↔ HelloBack.Valid hello_back × (greeting ≡ HelloBack.encode hello_back))
    × ((HandleResolve.decode greeting ≡ ok handle_resolve)
        ↔ HandleResolve.Valid handle_resolve × (greeting ≡ HandleResolve.encode handle_resolve))
    × ((PageFetch.decode greeting ≡ ok page_fetch)
        ↔ PageFetch.Valid page_fetch × (greeting ≡ PageFetch.encode page_fetch))
    × ((StateBundleInner.decode greeting ≡ ok state_bundle_inner)
        ↔ StateBundleInner.Valid state_bundle_inner
          × (greeting ≡ StateBundleInner.encode state_bundle_inner))
plain_iff_example =
    plain_iff greeting peer_tell storage_get offer direct_receipt hello hello_back handle_resolve
      page_fetch state_bundle_inner greeting-IsBytes greeting_fits
