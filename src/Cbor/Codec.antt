-- ===== src/Cbor/Codec.antt =====
-- What a payload's encoder and decoder promise one another, as an interface: the encoder, the part of
-- the decoder that reads fields, the values that can be encoded, and two laws. The rest of the file
-- serves every instance: decoding an encoding, what a decoder accepts, and arrays of payloads.
use sidevers_protocol.Cbor.Reader.{usize_mod, Read, reader, at_end, CborReader}
use sidevers_protocol.Cbor.Reads.{at, Reads, Parses}
use sidevers_protocol.Cbor.Writer.{Bytes}
use sidevers_protocol.Common.{
  IsBytes, ◌+◌, ◌<◌, ◌≡◌, subst, [], ◌++◌, append-nil, arith, if◌then◌else◌, length, ℕ, refl, sym,
  ap, ◌∙◌, ◌∷◌, inl, inr, true, Bool-cases, ◌↔◌, length-append,
}
use sidevers_protocol.Errors.{Error, cbor_decode, Result, ok, err}

pub record Codec (A : Type 0) : Type 1 where
  pub encode : A → Bytes
  pub body : Read A
  pub Valid : A → Type 0
  pub reads : (a : A) → Valid a → Reads body (encode a) a
  pub parses : Parses body (λ a bs. Valid a × (bs ≡ encode a))

unfoldable pub value : {A : Type 0} → Result Error (A × CborReader) → Result Error A
value (ok (a, r)) = ok a
value (err e) = err e

unfoldable pub value_at_end : {A : Type 0} → Result Error (A × CborReader) → Result Error A
value_at_end (ok (a, r)) = if at_end r then ok a else err cbor_decode
value_at_end (err e) = err e

-- `let mut r = CborReader::new(bytes)`, the fields, `Ok(Self { .. })`: what is left is dropped.
unfoldable pub decode_prefix : {A : Type 0} → Read A → Bytes → Result Error A
decode_prefix m bs = value (m (reader bs))

-- The same, with the test that nothing is left.
unfoldable pub decode_whole : {A : Type 0} → Read A → Bytes → Result Error A
decode_whole m bs = value_at_end (m (reader bs))

value-eq-ok :
    {A : Type 0} (x : Result Error (A × CborReader)) {a : A}
    → value x ≡ ok a
    → (r : CborReader) × (x ≡ ok (a, r))
unfolding value
value-eq-ok (ok (b, r)) e = (r, cc)
value-eq-ok (err c) e = cc

at_end-rest : (r : CborReader) → at_end r ≡ true → r ≡ at r.pos []
unfolding at_end
at_end-rest r h = go r.pos r.rest h
  where
    go : (p : ℕ) (l : Bytes) → at_end (at p l) ≡ true → at p l ≡ at p []
    go p [] e = refl
    go p (x ∷ l) e = cc

value_at_end-eq-ok :
    {A : Type 0} (x : Result Error (A × CborReader)) {a : A}
    → value_at_end x ≡ ok a
    → (p : ℕ) × (x ≡ ok (a, at p []))
unfolding value_at_end
value_at_end-eq-ok (ok (b, r)) {a} e = elim (Bool-cases (at_end r)) [
  | inl h ↦ (r.pos, cc (at_end-rest r h, rw h at e))
  | inr h ↦ let f : err cbor_decode ≡ ok a = rw h at e in cc
]
value_at_end-eq-ok (err c) e = cc

module _ {A : Type 0} (m : Read A) where
  -- A decoder that drops the rest gives the value of an encoding with anything behind it.
  pub decode_prefix-Reads :
      (bs junk : Bytes) (a : A)
      → Reads m bs a
      → length bs + length junk < usize_mod
      → decode_prefix m (bs ++ junk) ≡ ok a
  unfolding decode_prefix reader value
  decode_prefix-Reads bs junk a h fits = ap value (h.run 0 junk (omega arith))

  pub decode_whole-Reads :
      (bs : Bytes) (a : A) → Reads m bs a → length bs < usize_mod → decode_whole m bs ≡ ok a
  unfolding decode_whole reader at_end value_at_end
  decode_whole-Reads bs a h fits = ap value_at_end (
      subst (λ (t : Bytes). m (at 0 t) ≡ ok (a, at (0 + length bs) [])) (append-nil bs)
        (h.run 0 [] (omega arith)))

  decode_prefix-Parses :
      {P : A → Bytes → Type 0} (bs : Bytes) (a : A)
      → Parses m P
      → IsBytes bs
      → decode_prefix m bs ≡ ok a
      → (front : Bytes) × (junk : Bytes) × (bs ≡ front ++ junk) × P a front
  unfolding decode_prefix reader
  decode_prefix-Parses bs a h hb e =
      let (r, er) = value-eq-ok (m (reader bs)) e in
      let (front, s, p) = h.run (reader bs) hb er in (front, r.rest, s, p)

  pub decode_whole-Parses :
      {P : A → Bytes → Type 0} (bs : Bytes) (a : A)
      → Parses m P
      → IsBytes bs
      → decode_whole m bs ≡ ok a
      → P a bs
  unfolding decode_whole reader
  decode_whole-Parses {P} bs a h hb e =
      let (n, er) = value_at_end-eq-ok (m (reader bs)) e in
      let (front, s, p) = h.run (reader bs) hb er in subst (P a) (sym (s ∙ append-nil front)) p

-- What the decoders of a codec accept, exactly.
module _ {A : Type 0} (c : Codec A) where
  pub decode_prefix_iff :
      (bs : Bytes) (a : A)
      → IsBytes bs
      → length bs < usize_mod
      → (decode_prefix c.body bs ≡ ok a) ↔ c.Valid a × ((junk : Bytes) × (bs ≡ c.encode a ++ junk))
  decode_prefix_iff bs a hb fits = (accepted, reread)
    where
      accepted :
          decode_prefix c.body bs ≡ ok a → c.Valid a × ((junk : Bytes) × (bs ≡ c.encode a ++ junk))
      accepted e =
          let (front, junk, s, (v, f)) = decode_prefix-Parses c.body bs a c.parses hb e in
          (v, (junk, s ∙ ap (λ t. t ++ junk) f))

      reread :
          c.Valid a × ((junk : Bytes) × (bs ≡ c.encode a ++ junk)) → decode_prefix c.body bs ≡ ok a
      reread (v, (junk, s)) =
          let n : length bs ≡ length (c.encode a) + length junk =
            ap length s ∙ length-append (c.encode a) junk in
          ap (decode_prefix c.body) s
          ∙ decode_prefix-Reads c.body (c.encode a) junk a (c.reads a v) (omega arith)

  pub decode_whole_iff :
      (bs : Bytes) (a : A)
      → IsBytes bs
      → length bs < usize_mod
      → (decode_whole c.body bs ≡ ok a) ↔ c.Valid a × (bs ≡ c.encode a)
  decode_whole_iff bs a hb fits = (
    λ e. decode_whole-Parses c.body bs a c.parses hb e,
    λ (v, s).
        ap (decode_whole c.body) s
        ∙ decode_whole-Reads c.body (c.encode a) a (c.reads a v)
            (subst (λ t. length t < usize_mod) s fits),
  )
