-- ===== src/Framing/RoundTrip.antt =====
-- Sending and receiving of crates/sidevers-net/src/framing.rs together.
use sidevers_protocol.Cbor.Field.{encode_map-flat}
use sidevers_protocol.Cbor.Reader.{at_end}
use sidevers_protocol.Cbor.Writer.{Bytes, write_map_header, write_head}
use sidevers_protocol.Common.{
  to_be_bytes, from_be_bytes, length-to_be_bytes, from_be_bytes-to_be_bytes, ℕ, zero, suc, ◌%◌, ◌^◌,
  ◌≤◌, ◌<◌, ◌≡◌, refl, sym, ap, ◌∙◌, subst, inl, inr, true, false, List, [], ◌∷◌, ◌++◌, append-nil,
  append_assoc, arith, ltb, leb, ◌==◌, Bool-cases, length, length-append, take-append, drop-append,
  All,
}
use sidevers_protocol.Crypto.{Crypto}
use sidevers_protocol.Envelope.{Envelope, to_wire_bytes, wire_entries}
use sidevers_protocol.Envelope.Verify.{from_wire_bytes-to_wire_bytes, IsVerified}
use sidevers_protocol.Envelope.Wire.{IsEnvelope}
use sidevers_protocol.Errors.{Result, ok, ◌>>=◌, bind-eq-ok}
use sidevers_protocol.Framing.{
  max_envelope_len, NetError, send_envelope, read_exact, or_core, recv_frame, recv_envelope,
}

-- The envelopes of a list, one after the other.
unfoldable pub send_all : List Envelope → Bytes → Result NetError Bytes
send_all [] sent = ok sent
send_all (e ∷ es) sent = send_envelope e sent >>= λ sent'. send_all es sent'

-- The bytes of an envelope and its length.
abbrev frame : Envelope → Bytes
frame e = to_be_bytes 4 (length (to_wire_bytes e) % 2 ^ 32) ++ to_wire_bytes e

-- The least bytes that a map of eight entries takes.
wire-nonempty : (e : Envelope) → 0 < length (to_wire_bytes e)
unfolding to_wire_bytes write_map_header write_head
wire-nonempty e =
    subst (λ (w : Bytes). 0 < length w) (sym (encode_map-flat (wire_entries e))) (omega arith)

read_exact_lem : (xs ys : Bytes) → read_exact (length xs) (xs ++ ys) ≡ ok (xs, ys)
unfolding read_exact
read_exact_lem xs ys =
    let fits : leb (length xs) (length (xs ++ ys)) ≡ true = ground (arith, length-append xs ys) in
    rw (fits, take-append xs ys, drop-append xs ys) refl

-- What is sent is at most as long as is allowed, and is behind what the stream held.
send_envelope-eq-ok :
    (e : Envelope) (sent sent' : Bytes)
    → send_envelope e sent ≡ ok sent'
    → (length (to_wire_bytes e) ≤ max_envelope_len) × (sent' ≡ sent ++ frame e)
unfolding send_envelope
send_envelope-eq-ok e sent sent' h =
    elim (Bool-cases (ltb max_envelope_len (length (to_wire_bytes e)))) [
      | inl x ↦ let h' = rw x at h in cc
      | inr x ↦ (ground arith, let h' = rw x at h in cc)
    ]

read_length :
    (e : Envelope) (rest : Bytes)
    → read_exact 4 (frame e ++ rest)
      ≡ ok (to_be_bytes 4 (length (to_wire_bytes e) % 2 ^ 32), to_wire_bytes e ++ rest)
read_length e rest =
    let l = to_be_bytes 4 (length (to_wire_bytes e) % 2 ^ 32) in
    rw (append_assoc l (to_wire_bytes e) rest) (
      subst
        (λ (n : ℕ). read_exact n (l ++ (to_wire_bytes e ++ rest)) ≡ ok (l, to_wire_bytes e ++ rest))
        (length-to_be_bytes 4 (length (to_wire_bytes e) % 2 ^ 32))
        (read_exact_lem l (to_wire_bytes e ++ rest)))

length_of :
    (e : Envelope)
    → length (to_wire_bytes e) ≤ max_envelope_len
    → from_be_bytes (to_be_bytes 4 (length (to_wire_bytes e) % 2 ^ 32)) ≡ length (to_wire_bytes e)
length_of e fits =
    from_be_bytes-to_be_bytes 4 (length (to_wire_bytes e) % 2 ^ 32) (omega arith) ∙ omega arith

module _ (c : Crypto) where
  recv_frame-wire :
      (e : Envelope) (rest : Bytes)
      → IsEnvelope e
      → IsVerified c e
      → length (to_wire_bytes e) ≤ max_envelope_len
      → recv_frame c (length (to_wire_bytes e)) (to_wire_bytes e ++ rest) ≡ ok (e, rest)
  unfolding recv_frame or_core
  recv_frame-wire e rest he hv fits =
      let some_bytes : (length (to_wire_bytes e) == 0) ≡ false = ground (arith, wire-nonempty e) in
      let allowed : ltb max_envelope_len (length (to_wire_bytes e)) ≡ false = ground arith in
      rw (some_bytes, allowed)
        (rw (read_exact_lem (to_wire_bytes e) rest)
          (ap (or_core rest) (from_wire_bytes-to_wire_bytes c e he hv (omega arith))))

  recv_envelope-frame :
      (e : Envelope) (rest : Bytes)
      → IsEnvelope e
      → IsVerified c e
      → length (to_wire_bytes e) ≤ max_envelope_len
      → recv_envelope c (frame e ++ rest) ≡ ok (e, rest)
  unfolding recv_envelope
  recv_envelope-frame e rest he hv fits = rw (read_length e rest) (
      ap (λ (n : ℕ). recv_frame c n (to_wire_bytes e ++ rest)) (length_of e fits)
      ∙ recv_frame-wire e rest he hv fits)

  unfoldable pub recv_all : ℕ → Bytes → Result NetError (List Envelope × Bytes)
  recv_all zero sent = ok ([], sent)
  recv_all (suc n) sent = recv_envelope c sent >>= λ p. recv_all n p.1 >>= λ q. ok (p.0 ∷ q.0, q.1)

  -- Every envelope has fields of the right widths, is of this version and verifies.
  abbrev pub Genuine : Envelope → Type 0
  Genuine e = IsEnvelope e × IsVerified c e

  recv_all-send_all_lem :
      (es : List Envelope) (sent wire rest : Bytes)
      → All Genuine es
      → send_all es sent ≡ ok wire
      → (tail : Bytes) × (wire ≡ sent ++ tail)
        × (recv_all (length es) (tail ++ rest) ≡ ok (es, rest))
  unfolding send_all recv_all
  recv_all-send_all_lem [] sent wire rest h e = ([], cc (append-nil sent), refl)
  recv_all-send_all_lem (x ∷ es) sent wire rest h e =
      let (sent', e₁, e₂) = bind-eq-ok (send_envelope x sent) (λ sent'. send_all es sent') e in
      let (fits, at_end) = send_envelope-eq-ok x sent sent' e₁ in
      let (tail, w, received) = recv_all-send_all_lem es sent' wire rest h.1 e₂ in
      (
        frame x ++ tail,
        w ∙ ap (λ (t : Bytes). t ++ tail) at_end ∙ append_assoc sent (frame x) tail,
        rw
            (
              append_assoc (frame x) tail rest,
              recv_envelope-frame x (tail ++ rest) h.0.0 h.0.1 fits,
              received,
            )
            refl,
      )

  -- Where the envelopes have fields of the right widths, are of this version and verify: if sending
  -- them one after the other on an empty stream succeeds, receiving as many gives them in order and
  -- leaves nothing on the stream.
  pub recv_all-send_all :
      (es : List Envelope) (wire : Bytes)
      → All Genuine es
      → send_all es [] ≡ ok wire
      → recv_all (length es) wire ≡ ok (es, [])
  recv_all-send_all es wire h e =
      let (tail, w, received) = recv_all-send_all_lem es [] wire [] h e in
      ap (recv_all (length es)) (w ∙ sym (append-nil tail)) ∙ received
