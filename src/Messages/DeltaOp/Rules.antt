-- ===== src/Messages/DeltaOp/Rules.antt =====
-- The encoder and the decoder of `DeltaOp` in crates/sidevers-core/src/messages/device.rs agree.
use sidevers_protocol.Messages.Relationship
use sidevers_protocol.Cbor.Array.{IsText, text_codec, bytes_codec, fixed_codec}
use sidevers_protocol.Cbor.Codec.{Codec}
use sidevers_protocol.Cbor.Field.{expect_key, flat, encode_map-flat, Reads-key, IsKey, Parses-key}
use sidevers_protocol.Cbor.Items.{Reads-text, Reads-map_header, Parses-text, Parses-map_header}
use sidevers_protocol.Cbor.Reader.{
  ◌>>=◌, ◌>>◌, max_cbor_entries, Read, pure, require, read_text, read_map_header,
}
use sidevers_protocol.Cbor.Reads.{
  Reads-bind, Reads-require, Reads, Parses-bind, Reads-pure, Parses-pure, Parses-fail, Parses-mono,
  Parses-if, Parses-require, Parses,
}
use sidevers_protocol.Cbor.Struct.{Reads-field, Parses-field}
use sidevers_protocol.Cbor.Utf8.{valid_utf8}
use sidevers_protocol.Cbor.Writer.{Bytes, write_map_header, key, text}
use sidevers_protocol.Common.{
  bytes_eq, codes, ℕ, suc, ◌≤◌, String, ◌≡◌, refl, false, not, List, [], ◌++◌, arith, ◌==◌, length,
  bytes_eq_iff, sym, subst, true, ==_of_ne, ==_iff, All,
}
use sidevers_protocol.Errors.{cbor_decode}
use sidevers_protocol.Messages.DeltaOp.{
  profile_updated, profile_cleared, relationship_upserted, relationship_removed, retired_observed,
  lifecycle_changed, co_holder_added, co_holder_removed, kind_of, entries, encode,
  read_profile_wire, read_record, read_removed, read_retired, read_state, read_added, read_holder,
  arm, by_kind, body, Valid, DeltaOp,
}

-- What stands in front of the entries.
abbrev front : ℕ → Bytes → Bytes → Bytes
front n kind ys = write_map_header [] n ++ (text (codes "kind") ++ (text kind ++ ys))

encode-front :
    (op : DeltaOp) → encode op ≡ front (suc (length (entries op))) (kind_of op) (flat (entries op))
unfolding encode flat key text
encode-front op = encode_map-flat _

kind-IsText : (op : DeltaOp) → IsText (kind_of op)
unfolding valid_utf8
kind-IsText (profile_updated wire) = (omega arith, refl)
kind-IsText profile_cleared = (omega arith, refl)
kind-IsText (relationship_upserted r) = (omega arith, refl)
kind-IsText (relationship_removed a) = (omega arith, refl)
kind-IsText (retired_observed a) = (omega arith, refl)
kind-IsText (lifecycle_changed s) = (omega arith, refl)
kind-IsText (co_holder_added d a) = (omega arith, refl)
kind-IsText (co_holder_removed d) = (omega arith, refl)

Reads-front :
    (n : ℕ) (kind : Bytes) (op : DeltaOp) (ys : Bytes)
    → n ≤ max_cbor_entries
    → (n == 0) ≡ false
    → IsText kind
    → Reads (by_kind n kind) ys op
    → Reads body (front n kind ys) op
unfolding body valid_utf8
Reads-front n kind op ys h z t r = Reads-bind read_map_header _ (Reads-map_header n h) (
    Reads-bind (require _ _) _ (Reads-require cbor_decode (rw z)) (
      Reads-bind (expect_key (codes "kind")) _ (Reads-key (codes "kind") (omega arith, refl))
        (Reads-bind read_text _ (Reads-text kind t.0 t.1) r)))

Reads-arm :
    (n : ℕ) (m : Read DeltaOp) {ys : Bytes} {op : DeltaOp} → Reads m ys op → Reads (arm n n m) ys op
unfolding arm
Reads-arm n m h = Reads-bind (require _ _) _ (Reads-require cbor_decode ((==_iff n n).1 refl)) h

-- Each arm, with the codec of the field that it reads.
module _ {A : Type 0} (k : String) (c : Codec A) (f : A → DeltaOp) where
  abbrev one : Read DeltaOp
  one = expect_key (codes k) >> (c.body >>= λ a. pure (f a))

  Reads-one :
      (a : A)
      → IsKey (codes k)
      → c.Valid a
      → Reads (arm 2 2 one) (text (codes k) ++ (c.encode a ++ [])) (f a)
  Reads-one a hk h = Reads-arm 2 _ (Reads-field (codes k) c _ a hk h (Reads-pure (f a)))

Reads-kind :
    (op : DeltaOp)
    → Valid op
    → Reads (by_kind (suc (length (entries op))) (kind_of op)) (flat (entries op)) op
unfolding by_kind bytes_eq flat read_profile_wire read_record read_removed read_retired read_state
    read_added read_holder key text valid_utf8
Reads-kind (profile_updated wire) h =
    Reads-one "profile_wire" bytes_codec profile_updated wire (omega arith, refl) h
Reads-kind profile_cleared h = Reads-arm 1 _ (Reads-pure profile_cleared)
Reads-kind (relationship_upserted r) h =
    Reads-one "record" Relationship.codec relationship_upserted r (omega arith, refl) h
Reads-kind (relationship_removed a) h =
    Reads-one "address" (fixed_codec "address" 32 (omega arith)) relationship_removed a
      (omega arith, refl) h
Reads-kind (retired_observed a) h =
    Reads-one "address" (fixed_codec "address" 32 (omega arith)) retired_observed a
      (omega arith, refl) h
Reads-kind (lifecycle_changed t) h =
    Reads-one "state" text_codec lifecycle_changed t (omega arith, refl) h
Reads-kind (co_holder_added d a) h = Reads-arm 3 _ (
    Reads-field (codes "dial_addr") text_codec _ a (omega arith, refl) h.0
      (Reads-field (codes "device_pubkey") (fixed_codec "device_pubkey" 32 (omega arith)) _ d
        (omega arith, refl) h.1 (Reads-pure (co_holder_added d a))))
Reads-kind (co_holder_removed d) h =
    Reads-one "device_pubkey" (fixed_codec "device_pubkey" 32 (omega arith)) co_holder_removed d
      (omega arith, refl) h

count_small : (op : DeltaOp) → suc (length (entries op)) ≤ max_cbor_entries
count_small (profile_updated wire) = omega arith
count_small profile_cleared = omega arith
count_small (relationship_upserted r) = omega arith
count_small (relationship_removed a) = omega arith
count_small (retired_observed a) = omega arith
count_small (lifecycle_changed t) = omega arith
count_small (co_holder_added d a) = omega arith
count_small (co_holder_removed d) = omega arith

pub reads : (op : DeltaOp) → Valid op → Reads body (encode op) op
reads op h =
    subst (λ (t : Bytes). Reads body t op) (sym (encode-front op))
      (Reads-front (suc (length (entries op))) (kind_of op) op (flat (entries op)) (count_small op)
        (==_of_ne _ _ (λ e. absurd (omega (arith, e)))) (kind-IsText op) (Reads-kind op h))

-- What an arm gives has the encoding that starts with the count and the kind.
abbrev Arm : ℕ → Bytes → DeltaOp → Bytes → Type 0
Arm n kind op ys = Valid op × (front n kind ys ≡ encode op)

Parses-arm :
    (n count : ℕ) (kind k : Bytes) (m : Read DeltaOp)
    → bytes_eq kind k ≡ true
    → Parses m (Arm count k)
    → Parses (arm n count m) (Arm n kind)
unfolding arm
Parses-arm n count kind k m e h =
    Parses-bind (require _ _) _ {P = λ _ ys. (n ≡ count) × (ys ≡ [])}
      (Parses-require (n == count) cbor_decode (λ q. ((==_iff n count).0 q, refl)))
      λ _ ys (en, ey). Parses-mono m (λ op zs q. rw (ey, en, (bytes_eq_iff kind k).0 e) q) h

Parses-profile_wire : Parses read_profile_wire (Arm 2 (codes "profile_updated"))
unfolding read_profile_wire flat key text
Parses-profile_wire =
    Parses-field (codes "profile_wire") bytes_codec _
      λ x h. Parses-pure (profile_updated x) (h, sym (encode-front (profile_updated x)))

Parses-record : Parses read_record (Arm 2 (codes "relationship_upserted"))
unfolding read_record flat key text
Parses-record =
    Parses-field (codes "record") Relationship.codec _
      λ x h. Parses-pure (relationship_upserted x) (h, sym (encode-front (relationship_upserted x)))

Parses-removed : Parses read_removed (Arm 2 (codes "relationship_removed"))
unfolding read_removed flat key text
Parses-removed =
    Parses-field (codes "address") (fixed_codec "address" 32 (omega arith)) _
      λ x h. Parses-pure (relationship_removed x) (h, sym (encode-front (relationship_removed x)))

Parses-retired : Parses read_retired (Arm 2 (codes "retired_observed"))
unfolding read_retired flat key text
Parses-retired =
    Parses-field (codes "address") (fixed_codec "address" 32 (omega arith)) _
      λ x h. Parses-pure (retired_observed x) (h, sym (encode-front (retired_observed x)))

Parses-state : Parses read_state (Arm 2 (codes "lifecycle_changed"))
unfolding read_state flat key text
Parses-state =
    Parses-field (codes "state") text_codec _
      λ x h. Parses-pure (lifecycle_changed x) (h, sym (encode-front (lifecycle_changed x)))

Parses-holder : Parses read_holder (Arm 2 (codes "cohol_removed"))
unfolding read_holder flat key text
Parses-holder =
    Parses-field (codes "device_pubkey") (fixed_codec "device_pubkey" 32 (omega arith)) _
      λ x h. Parses-pure (co_holder_removed x) (h, sym (encode-front (co_holder_removed x)))

Parses-added : Parses read_added (Arm 3 (codes "cohol_added"))
unfolding read_added flat key text
Parses-added = Parses-field (codes "dial_addr") text_codec _ λ a ha.
    Parses-field (codes "device_pubkey") (fixed_codec "device_pubkey" 32 (omega arith)) _
      λ d hd. Parses-pure (co_holder_added d a) ((ha, hd), sym (encode-front (co_holder_added d a)))

Parses-kind : (n : ℕ) (kind : Bytes) → Parses (by_kind n kind) (Arm n kind)
unfolding by_kind flat
Parses-kind n kind =
    Parses-if (bytes_eq kind (codes "profile_updated"))
      (λ e. Parses-arm n 2 kind _ _ e Parses-profile_wire)
      λ _.
        Parses-if (bytes_eq kind (codes "profile_cleared"))
          (λ e.
            Parses-arm n 1 kind _ _ e
              (Parses-pure profile_cleared (tt, sym (encode-front profile_cleared))))
          λ _.
            Parses-if (bytes_eq kind (codes "relationship_upserted"))
              (λ e. Parses-arm n 2 kind _ _ e Parses-record)
              λ _.
                Parses-if (bytes_eq kind (codes "relationship_removed"))
                  (λ e. Parses-arm n 2 kind _ _ e Parses-removed)
                  λ _.
                    Parses-if (bytes_eq kind (codes "retired_observed"))
                      (λ e. Parses-arm n 2 kind _ _ e Parses-retired)
                      λ _.
                        Parses-if (bytes_eq kind (codes "lifecycle_changed"))
                          (λ e. Parses-arm n 2 kind _ _ e Parses-state)
                          λ _.
                            Parses-if (bytes_eq kind (codes "cohol_added"))
                              (λ e. Parses-arm n 3 kind _ _ e Parses-added)
                              λ _.
                                Parses-if (bytes_eq kind (codes "cohol_removed"))
                                  (λ e. Parses-arm n 2 kind _ _ e Parses-holder)
                                  (λ _. Parses-fail _)

pub parses : Parses body (λ op bs. Valid op × (bs ≡ encode op))
unfolding body
parses = Parses-bind read_map_header _ Parses-map_header λ n xs (hn, ex).
    Parses-bind (require _ _) _ {P = λ _ ys. ys ≡ []}
      (Parses-require (not (n == 0)) cbor_decode (λ _. refl))
      λ _ ys ey. Parses-bind (expect_key (codes "kind")) _ (Parses-key (codes "kind")) λ _ zs ez.
        Parses-bind read_text _ Parses-text λ kind ws (hk, vk, ew).
          Parses-mono (by_kind n kind) (λ op vs (v, e). (v, rw (ex, ey, ez, ew) e))
            (Parses-kind n kind)

abbrev pub codec : Codec DeltaOp
codec = record { encode = encode; body = body; Valid = Valid; reads = reads; parses = parses }

-- An array of them can be encoded.
abbrev pub AreOps : List DeltaOp → Type 0
AreOps ops = (length ops ≤ max_cbor_entries) × All Valid ops
