-- ===== src/Messages/Separation/Kinds.antt =====
-- What is signed in crates/sidevers-core/src tells its kind, by the keys of its map.
use sidevers_protocol.Cbor.Array.{IsText}
use sidevers_protocol.Cbor.Codec.{decode_prefix, decode_prefix-Reads}
use sidevers_protocol.Cbor.Field.{flat, encode_map-flat, IsKey}
use sidevers_protocol.Cbor.Items.{Reads-bytes, Reads-text, Reads-map_header}
use sidevers_protocol.Cbor.Nullable.{read_nullable, encode_nullable, OnSome, optional_text}
use sidevers_protocol.Cbor.Reader.{
  usize_mod, max_cbor_entries, read_bytes, read_text, read_map_header,
}
use sidevers_protocol.Cbor.Reads.{Reads-bind, Reads-pure, Reads}
use sidevers_protocol.Cbor.Utf8.{valid_utf8}
use sidevers_protocol.Cbor.Writer.{Bytes, write_map_header, key, bytes, text, encode_map, MapEntry}
use sidevers_protocol.Common.{
  bytes_eq, codes, suc, ◌^◌, ◌≤◌, ◌<◌, ◌≡◌, refl, sym, ap, ◌∙◌, subst, Bool, false, ◌&&◌, Option,
  none, some, List, [], ◌∷◌, ◌++◌, append-nil, append_assoc, arith, ◌==◌, if◌then◌else◌, length,
  length-append,
}
use sidevers_protocol.Envelope.{encode_unsigned, Envelope}
use sidevers_protocol.Errors.{ok}
use sidevers_protocol.Messages.Separation.{
  envelope, pairing_request, state_bundle, device_revoke, state_delta, contract, membership_token,
  join_request, verse_leave, verse_remove, verse_reconsent, handle_attest, page_publish,
  announcement, side_retirement, storage_preferences, linkage, an_envelope, a_pairing_request,
  a_state_bundle, a_device_revoke, a_state_delta, a_contract, a_membership_token, a_join_request,
  a_verse_leave, a_verse_remove, a_verse_reconsent, a_handle_attest, a_page_publish, a_announcement,
  a_side_retirement, a_storage_preferences, a_linkage, kind_of, signed_bytes, WellFormed,
  read_fourth, read_second, read_tag, tag_of, Kind, Signable, Tag,
}
use sidevers_protocol.Envelope
use sidevers_protocol.Messages.PairingRequest
use sidevers_protocol.Messages.StateBundle
use sidevers_protocol.Messages.DeviceRevoke
use sidevers_protocol.Messages.StateDelta
use sidevers_protocol.Verse.Contract
use sidevers_protocol.Verse.MembershipToken
use sidevers_protocol.Messages.JoinRequest
use sidevers_protocol.Messages.VerseLeave
use sidevers_protocol.Messages.VerseRemove
use sidevers_protocol.Messages.VerseReconsent
use sidevers_protocol.Messages.HandleAttest
use sidevers_protocol.Messages.PagePublish
use sidevers_protocol.Messages.Announcement
use sidevers_protocol.Messages.SideRetirement
use sidevers_protocol.Messages.StoragePreferences
use sidevers_protocol.Linkage

front_tag :
    (front junk bs : Bytes) (t : Tag)
    → Reads read_tag front t
    → bs ≡ front ++ junk
    → length bs < usize_mod
    → decode_prefix read_tag bs ≡ ok t
front_tag front junk bs t r e fits =
    ap (decode_prefix read_tag) e
    ∙ decode_prefix-Reads read_tag front junk t r
        (omega (arith, ap length e, length-append front junk))

-- The tag of a map whose first key is not `side`.
tag_first :
    (k v : Bytes) (es : List MapEntry)
    → IsKey k
    → bytes_eq k (codes "side") ≡ false
    → suc (length es) ≤ max_cbor_entries
    → length (encode_map (record { key = text k; value = v } ∷ es)) < usize_mod
    → decode_prefix read_tag (encode_map (record { key = text k; value = v } ∷ es))
      ≡ ok (record { count = suc (length es); first = k; second = []; fourth = [] })
unfolding read_tag read_second flat
tag_first k v es hk hn hl fits =
    front_tag (write_map_header [] (suc (length es)) ++ (text k ++ [])) (v ++ flat es) _ _
      (Reads-bind read_map_header _ (Reads-map_header (suc (length es)) hl)
        (Reads-bind read_text _ (Reads-text k hk.0 hk.1) (rw hn (Reads-pure _))))
      (encode_map-flat (record { key = text k; value = v } ∷ es) ∙ simp (append_assoc, append-nil))
      fits

no_fourth : (k : Bytes) → bytes_eq k (codes "verse") ≡ false → Reads (read_fourth k) [] []
unfolding read_fourth
no_fourth k h = rw h (Reads-pure [])

-- The tag of one that starts with `side`, and has another second key than `verse`.
tag_second :
    (b k v : Bytes) (es : List MapEntry)
    → IsKey k
    → length b < 2 ^ 64
    → bytes_eq k (codes "verse") ≡ false
    → suc (suc (length es)) ≤ max_cbor_entries
    → length (
        encode_map (
          record { key = text (codes "side"); value = bytes b }
          ∷ record { key = text k; value = v }
          ∷ es))
      < usize_mod
    → decode_prefix read_tag (
        encode_map (
          record { key = text (codes "side"); value = bytes b }
          ∷ record { key = text k; value = v }
          ∷ es))
      ≡ ok (record { count = suc (suc (length es)); first = codes "side"; second = k; fourth = [] })
unfolding read_tag read_second read_fourth flat bytes_eq valid_utf8
tag_second b k v es hk hb hn hl fits =
    front_tag
      (write_map_header [] (suc (suc (length es)))
        ++ (text (codes "side") ++ (bytes b ++ (text k ++ []))))
      (v ++ flat es) _ _
      (Reads-bind read_map_header _ (Reads-map_header (suc (suc (length es))) hl) (
        Reads-bind read_text _ (Reads-text (codes "side") (omega arith) refl) (
          Reads-bind read_bytes _ (Reads-bytes b hb) (
            Reads-bind read_text _ (Reads-text k hk.0 hk.1)
              (Reads-bind (read_fourth k) _ (no_fourth k hn) (Reads-pure _))))))
      (encode_map-flat _ ∙ simp (append_assoc, append-nil)) fits

-- The tag of one that starts with `side` and `verse`, and has text or null third.
tag_fourth :
    (b w k v r : Bytes) (o : Option Bytes) (es : List MapEntry)
    → IsKey r
    → IsKey k
    → length b < 2 ^ 64
    → length w < 2 ^ 64
    → OnSome IsText o
    → suc (suc (suc (suc (length es)))) ≤ max_cbor_entries
    → length (
        encode_map (
          record { key = text (codes "side"); value = bytes b }
          ∷ record { key = text (codes "verse"); value = bytes w }
          ∷ record { key = text r; value = encode_nullable text o }
          ∷ record { key = text k; value = v }
          ∷ es))
      < usize_mod
    → decode_prefix read_tag (
        encode_map (
          record { key = text (codes "side"); value = bytes b }
          ∷ record { key = text (codes "verse"); value = bytes w }
          ∷ record { key = text r; value = encode_nullable text o }
          ∷ record { key = text k; value = v }
          ∷ es))
      ≡ ok (record {
        count = suc (suc (suc (suc (length es))));
        first = codes "side";
        second = codes "verse";
        fourth = k;
      })
unfolding read_tag read_second read_fourth flat bytes_eq valid_utf8
tag_fourth b w k v r o es hr hk hb hw ho hl fits =
    front_tag
      (write_map_header [] (suc (suc (suc (suc (length es)))))
        ++ (text (codes "side")
            ++ (bytes b
                ++ (text (codes "verse")
                    ++ ((bytes w ++ (text r ++ (encode_nullable text o ++ text k))) ++ [])))))
      (v ++ flat es) _ _
      (Reads-bind read_map_header _ (Reads-map_header (suc (suc (suc (suc (length es))))) hl) (
        Reads-bind read_text _ (Reads-text (codes "side") (omega arith) refl) (
          Reads-bind read_bytes _ (Reads-bytes b hb) (
            Reads-bind read_text _ (Reads-text (codes "verse") (omega arith) refl) (
              Reads-bind (read_fourth (codes "verse")) _
                (Reads-bind read_bytes _ (Reads-bytes w hw) (
                  Reads-bind read_text _ (Reads-text r hr.0 hr.1) (
                    Reads-bind (read_nullable read_text) _ (optional_text.reads o ho)
                      (Reads-text k hk.0 hk.1))))
                (Reads-pure _))))))
      (encode_map-flat _ ∙ simp (append_assoc, append-nil)) fits

-- The tag of what is signed for a value of a kind.
tag_of_signed :
    (x : Signable)
    → WellFormed x
    → length (signed_bytes x) < usize_mod
    → decode_prefix read_tag (signed_bytes x) ≡ ok (tag_of (kind_of x))
unfolding Envelope.encode_unsigned PairingRequest.encode_unsigned StateBundle.encode_unsigned
    DeviceRevoke.encode_unsigned StateDelta.encode_unsigned Contract.encode_unsigned
    MembershipToken.encode_unsigned JoinRequest.encode_unsigned VerseLeave.encode_unsigned
    VerseRemove.encode_unsigned VerseReconsent.encode_unsigned HandleAttest.encode_unsigned
    PagePublish.encode_unsigned Announcement.encode_unsigned SideRetirement.encode_unsigned
    StoragePreferences.encode_unsigned Linkage.encode_unsigned key text valid_utf8 bytes_eq
    encode_nullable
tag_of_signed (an_envelope e) h fits =
    tag_first (codes "t") _ _ (omega arith, refl) refl (omega arith) fits
tag_of_signed (a_pairing_request p) h fits =
    tag_second p.side (codes "nonce") _ _ (omega arith, refl) (omega (arith, h.0.0)) refl
      (omega arith) fits
tag_of_signed (a_state_bundle p) h fits =
    tag_second p.side (codes "nonce") _ _ (omega arith, refl) (omega (arith, h.0.0)) refl
      (omega arith) fits
tag_of_signed (a_device_revoke p) h fits =
    tag_second p.side (codes "reason") _ _ (omega arith, refl) (omega (arith, h.0.0)) refl
      (omega arith) fits
tag_of_signed (a_state_delta p) h fits =
    tag_first (codes "ops") _ _ (omega arith, refl) refl (omega arith) fits
tag_of_signed (a_contract p) h fits =
    tag_first (codes "title") _ _ (omega arith, refl) refl (omega arith) fits
tag_of_signed (a_membership_token p) h fits =
    tag_first (codes "verse") _ _ (omega arith, refl) refl (omega arith) fits
tag_of_signed (a_join_request p) h fits =
    tag_second p.side (codes "fields") _ _ (omega arith, refl) (omega (arith, h.0.0)) refl
      (omega arith) fits
tag_of_signed (a_verse_leave p) h fits =
    tag_fourth p.side p.verse (codes "disposition") _ (codes "reason") p.reason _
      (omega arith, refl) (omega arith, refl) (omega (arith, h.0.0)) (omega (arith, h.1.0)) h.2
      (omega arith) fits
tag_of_signed (a_verse_remove p) h fits =
    tag_fourth p.side p.verse (codes "issued_at") _ (codes "reason") (some p.reason) _
      (omega arith, refl) (omega arith, refl) (omega (arith, h.0.0)) (omega (arith, h.1.0)) h.2
      (omega arith) fits
tag_of_signed (a_verse_reconsent p) h fits =
    tag_first (codes "contract_hash") _ _ (omega arith, refl) refl (omega arith) fits
tag_of_signed (a_handle_attest p) h fits =
    tag_second p.side (codes "domain") _ _ (omega arith, refl) (omega (arith, h.0.0)) refl
      (omega arith) fits
tag_of_signed (a_page_publish p) h fits =
    tag_first (codes "mime") _ _ (omega arith, refl) refl (omega arith) fits
tag_of_signed (a_announcement p) h fits =
    tag_first (codes "body") _ _ (omega arith, refl) refl (omega arith) fits
tag_of_signed (a_side_retirement p) h fits =
    tag_second p.side (codes "reason") _ _ (omega arith, refl) (omega (arith, h.0.0)) refl
      (omega arith) fits
tag_of_signed (a_storage_preferences p) h fits =
    tag_second p.side (codes "updated_at") _ _ (omega arith, refl) (omega (arith, h.0.0)) refl
      (omega arith) fits
tag_of_signed (a_linkage p) h fits =
    tag_first (codes "nonce") _ _ (omega arith, refl) refl (omega arith) fits

abbrev kinds : List Kind
kinds =
    envelope ∷ pairing_request ∷ state_bundle ∷ device_revoke ∷ state_delta ∷ contract
    ∷ membership_token ∷ join_request ∷ verse_leave ∷ verse_remove ∷ verse_reconsent ∷ handle_attest
    ∷ page_publish ∷ announcement ∷ side_retirement ∷ storage_preferences ∷ linkage ∷ []

same_tag : Tag → Tag → Bool
same_tag s t =
    (s.count == t.count)
    && (bytes_eq s.first t.first && (bytes_eq s.second t.second && bytes_eq s.fourth t.fourth))

find_kind : Tag → List Kind → Option Kind
find_kind t [] = none
find_kind t (k ∷ ks) = if same_tag t (tag_of k) then some k else find_kind t ks

find_kind-tag_of : (k : Kind) → find_kind (tag_of k) kinds ≡ some k
unfolding find_kind same_tag bytes_eq
find_kind-tag_of envelope = refl
find_kind-tag_of pairing_request = refl
find_kind-tag_of state_bundle = refl
find_kind-tag_of device_revoke = refl
find_kind-tag_of state_delta = refl
find_kind-tag_of contract = refl
find_kind-tag_of membership_token = refl
find_kind-tag_of join_request = refl
find_kind-tag_of verse_leave = refl
find_kind-tag_of verse_remove = refl
find_kind-tag_of verse_reconsent = refl
find_kind-tag_of handle_attest = refl
find_kind-tag_of page_publish = refl
find_kind-tag_of announcement = refl
find_kind-tag_of side_retirement = refl
find_kind-tag_of storage_preferences = refl
find_kind-tag_of linkage = refl

-- Two well-formed values whose signed bytes are equal and fit the address space are of one kind: an
-- envelope, a payload between devices, about a verse or of a side about itself, a contract, a membership
-- token or a linkage proof.
pub signed_bytes-kind_of :
    (x y : Signable)
    → WellFormed x
    → WellFormed y
    → length (signed_bytes x) < usize_mod
    → signed_bytes x ≡ signed_bytes y
    → kind_of x ≡ kind_of y
signed_bytes-kind_of x y hx hy fits e =
    let tx = tag_of_signed x hx fits in
    let ty = tag_of_signed y hy (subst (λ t. length t < usize_mod) e fits) in
    let same : ok (tag_of (kind_of x)) ≡ ok (tag_of (kind_of y)) =
      sym tx ∙ ap (decode_prefix read_tag) e ∙ ty in
    let tags : tag_of (kind_of x) ≡ tag_of (kind_of y) = cc in
    let found : some (kind_of x) ≡ some (kind_of y) =
      sym (find_kind-tag_of (kind_of x))
      ∙ ap (λ t. find_kind t kinds) tags
      ∙ find_kind-tag_of (kind_of y) in
    cc
