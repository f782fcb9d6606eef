-- ===== src/Messages/StorageOffer.antt =====
-- `StorageOfferPayload` of crates/sidevers-net/src/storage_protocol.rs. The reference is decoded by a
-- reader of its own, on what is left behind the key.
use sidevers_protocol.Cbor.Field.{
  expect_count, expect_key, Reads-count, Parses-count, Reads-key, Parses-key, flat, encode_map-flat,
  IsKey,
}
use sidevers_protocol.Cbor.Reader.{◌>>◌, usize_mod, Read, reader, CborReader}
use sidevers_protocol.Cbor.Reads.{Reads, Parses, Reads-bind, Parses-bind, Parses-mono}
use sidevers_protocol.Cbor.Utf8.{valid_utf8}
use sidevers_protocol.Cbor.Writer.{Bytes, text, encode_map, MapEntry, write_map_header}
use sidevers_protocol.Common.{
  IsBytes, codes, length, IsBytes-back, length-append, append-nil, append_assoc, subst, sym, ap,
  ◌∙◌, ◌+◌, ◌<◌, ◌≡◌, refl, ◌↔◌, List, [], ◌∷◌, ◌++◌, arith,
}
use sidevers_protocol.Errors.{Error, Result, ok, err}
use sidevers_protocol.Storage.References.{Reference, encode, decode}
use sidevers_protocol.Storage.References.Decoding.{Valid, reference_iff}

pub record StorageOfferPayload : Type 0 where
  pub reference : Reference

abbrev pub offer_entries : StorageOfferPayload → List MapEntry
offer_entries p = record { key = text (codes "reference"); value = encode p.reference } ∷ []

unfoldable pub encode_offer : StorageOfferPayload → Bytes
encode_offer p = encode_map (offer_entries p)

-- What is read before the reference.
unfoldable pub offer_head : Read (Unit {0})
offer_head = expect_count 1 >> expect_key (codes "reference")

unfoldable pub offer_of : Result Error Reference → Result Error StorageOfferPayload
offer_of (ok p) = ok (record { reference = p })
offer_of (err e) = err e

unfoldable pub offer_rest : Result Error (Unit {0} × CborReader) → Result Error StorageOfferPayload
offer_rest (ok (u, r)) = offer_of (decode r.rest)
offer_rest (err e) = err e

unfoldable pub decode_offer : Bytes → Result Error StorageOfferPayload
decode_offer bs = offer_rest (offer_head (reader bs))

-- The bytes of the head.
abbrev head_bytes : Bytes
head_bytes = write_map_header [] 1 ++ text (codes "reference")

reference-IsKey : IsKey (codes "reference")
unfolding valid_utf8
reference-IsKey = (omega arith, refl)

Reads-offer_head : Reads offer_head head_bytes tt
unfolding offer_head
Reads-offer_head =
    Reads-bind (expect_count 1) _ (Reads-count 1 (omega arith))
      (Reads-key (codes "reference") reference-IsKey)

Parses-offer_head : Parses offer_head (λ u bs. bs ≡ head_bytes)
unfolding offer_head
Parses-offer_head = Parses-bind (expect_count 1) _ (Parses-count 1) λ u xs (h, ex).
    Parses-mono _ (λ v ys ey. rw ex (ap (λ (t : Bytes). write_map_header [] 1 ++ t) ey))
      (Parses-key (codes "reference"))

encode_offer-head : (p : StorageOfferPayload) → encode_offer p ≡ head_bytes ++ encode p.reference
unfolding encode_offer flat
encode_offer-head p =
    encode_map-flat (offer_entries p)
    ∙ rw (append-nil (encode p.reference))
        (sym (append_assoc (write_map_header [] 1) (text (codes "reference")) (encode p.reference)))

offer_of-eq-ok :
    (x : Result Error Reference) (p : StorageOfferPayload) → offer_of x ≡ ok p → x ≡ ok p.reference
unfolding offer_of
offer_of-eq-ok (ok q) p e = cc
offer_of-eq-ok (err c) p e = cc

encode_offer-append :
    (p : StorageOfferPayload) (junk : Bytes)
    → encode_offer p ++ junk ≡ head_bytes ++ (encode p.reference ++ junk)
encode_offer-append p junk =
    ap (λ (t : Bytes). t ++ junk) (encode_offer-head p)
    ∙ append_assoc head_bytes (encode p.reference) junk

-- From bytes that fit the address space, the decoder gives `p` exactly if its reference can be encoded
-- and the bytes begin with the encoding of `p`.
pub offer_iff :
    (bs : Bytes) (p : StorageOfferPayload)
    → IsBytes bs
    → length bs < usize_mod
    → (decode_offer bs ≡ ok p)
      ↔ Valid 65 p.reference × ((junk : Bytes) × (bs ≡ encode_offer p ++ junk))
unfolding decode_offer offer_rest offer_of reader
offer_iff bs p hb fits = (accepted, reread)
  where
    accepted :
        decode_offer bs ≡ ok p
        → Valid 65 p.reference × ((junk : Bytes) × (bs ≡ encode_offer p ++ junk))
    accepted e = go (offer_head (reader bs)) refl e
      where
        go :
            (x : Result Error (Unit {0} × CborReader))
            → offer_head (reader bs) ≡ x
            → offer_rest x ≡ ok p
            → Valid 65 p.reference × ((junk : Bytes) × (bs ≡ encode_offer p ++ junk))
        go (err c) q f = cc
        go (ok (u, r)) q f =
            let (front, s, h) = Parses-offer_head.run (reader bs) hb q in
            let hb' : IsBytes (front ++ r.rest) = subst IsBytes s hb in
            let n : length bs ≡ length front + length r.rest =
              ap length s ∙ length-append front r.rest in
            let (v, (junk, j)) =
              (reference_iff r.rest p.reference (IsBytes-back front r.rest hb') (omega arith)).0
                (offer_of-eq-ok (decode r.rest) p f) in
            (v, (junk, s ∙ rw (h, j) (sym (encode_offer-append p junk))))

    reread :
        Valid 65 p.reference × ((junk : Bytes) × (bs ≡ encode_offer p ++ junk))
        → decode_offer bs ≡ ok p
    reread (v, (junk, s)) =
        let tail = encode p.reference ++ junk in
        let s' : bs ≡ head_bytes ++ tail = s ∙ encode_offer-append p junk in
        let n : length bs ≡ length head_bytes + length tail =
          ap length s' ∙ length-append head_bytes tail in
        let read = Reads-offer_head.run 0 tail (omega arith) in
        let decoded =
          (reference_iff tail p.reference (IsBytes-back head_bytes tail (subst IsBytes s' hb))
              (omega arith)).1
            (v, (junk, refl)) in
        ap decode_offer s' ∙ ap offer_rest read ∙ ap offer_of decoded
