-- ===== src/Signing.antt =====
-- The signatures of the payloads in crates/sidevers-core/src/messages, and of the contracts, tokens and
-- proofs beside them: each is a map with one entry for the signature of the digest of the other entries.
use sidevers_protocol.Cbor.Codec.{
  Codec, decode_whole, decode_prefix, decode_whole_iff, decode_prefix_iff, decode_whole-Reads,
  decode_prefix-Reads,
}
use sidevers_protocol.Cbor.Reader.{usize_mod}
use sidevers_protocol.Cbor.Writer.{Bytes}
use sidevers_protocol.Common.{
  bytes_eq, bytes_eq_self, bytes_eq_iff, [], append-nil, arith, ◌∙◌, IsBytes, ◌<◌, ◌≡◌, ◌↔◌, sym,
  true, length, ◌++◌, subst,
}
use sidevers_protocol.Crypto.{Crypto, IsSound}
use sidevers_protocol.Errors.{
  ◌>>=◌, ◌>>◌, guard, guard-eq-ok, guard-true, bind-eq-ok, Error, cbor_not_canonical,
  signature_invalid, invariant, Result, ok,
}

-- `Result::and_then`, which is `>>=`.
abbrev pub and_then : {A B : Type 0} → Result Error A → (A → Result Error B) → Result Error B
and_then r f = r >>= f

module _ (c : Crypto) where
  -- `PublicKey::from_bytes(key)?.verify(blake3::hash(unsigned), signature)?`
  unfoldable pub check_signature : Bytes → Bytes → Bytes → Result Error (Unit {0})
  check_signature key unsigned signature = do
    guard (c.valid_key key) invariant
    guard (c.verify key (c.blake3 unsigned) signature) signature_invalid

  -- A valid key, and a signature by it of the digest of the bytes.
  abbrev pub IsSigned : Bytes → Bytes → Bytes → Type 0
  IsSigned key unsigned signature =
      (c.valid_key key ≡ true) × (c.verify key (c.blake3 unsigned) signature ≡ true)

  pub check_signature-ok :
      (key unsigned signature : Bytes)
      → IsSigned key unsigned signature
      → check_signature key unsigned signature ≡ ok tt
  unfolding check_signature
  check_signature-ok key unsigned signature h = rw (h.0, h.1)

  pub check_signature-eq-ok :
      (key unsigned signature : Bytes)
      → check_signature key unsigned signature ≡ ok tt
      → IsSigned key unsigned signature
  unfolding check_signature
  check_signature-eq-ok key unsigned signature h =
      let (v, h₁) = guard-eq-ok (c.valid_key key) _ h in (v, guard-true _ _ h₁)

  pub sign-IsSigned :
      IsSound c
      → (k : c.SigningKey) (m : Bytes) → IsSigned (c.public_bytes k) m (c.sign k (c.blake3 m))
  sign-IsSigned s k m = (s.key_valid k, s.sign_valid k (c.blake3 m))

-- The last step of `from_wire_bytes`, where the value that was read is encoded again and compared.
unfoldable pub check_reencoded : Bytes → Bytes → Result Error (Unit {0})
check_reencoded wire bs = guard (bytes_eq wire bs) cbor_not_canonical

module _ {A : Type 0} (cd : Codec A) (check : A → Result Error (Unit {0})) where
  -- A decoder that reads the whole input, checks the value and encodes it again.
  pub checked_whole_iff :
      (bs : Bytes) (a : A)
      → IsBytes bs
      → length bs < usize_mod
      → ((decode_whole cd.body bs >>= λ p. check p >> (check_reencoded (cd.encode p) bs >> ok p))
          ≡ ok a)
        ↔ cd.Valid a × (bs ≡ cd.encode a) × (check a ≡ ok tt)
  unfolding check_reencoded
  checked_whole_iff bs a hb fits = (accepted, reread)
    where
      accepted :
          (decode_whole cd.body bs >>= λ p. check p >> (check_reencoded (cd.encode p) bs >> ok p))
            ≡ ok a
          → cd.Valid a × (bs ≡ cd.encode a) × (check a ≡ ok tt)
      accepted h =
          let (p, hp, h₁) = bind-eq-ok (decode_whole cd.body bs) _ h in
          let (u, hu, h₂) = bind-eq-ok (check p) _ h₁ in
          let (_, h₃) = guard-eq-ok (bytes_eq (cd.encode p) bs) _ h₂ in
          let e : p ≡ a = cc in
          let (v, s) = (decode_whole_iff cd bs p hb fits).0 hp in rw (← e) (v, s, hu)

      reread :
          cd.Valid a × (bs ≡ cd.encode a) × (check a ≡ ok tt)
          → (decode_whole cd.body bs >>= λ p. check p >> (check_reencoded (cd.encode p) bs >> ok p))
            ≡ ok a
      reread (v, s, k) =
          let d = (decode_whole_iff cd bs a hb fits).1 (v, s) in rw (d, k, ← s, bytes_eq_self bs)

  -- A decoder that drops what is left, and checks the value.
  pub checked_prefix_iff :
      (bs : Bytes) (a : A)
      → IsBytes bs
      → length bs < usize_mod
      → ((decode_prefix cd.body bs >>= λ p. check p >> ok p) ≡ ok a)
        ↔ cd.Valid a × ((junk : Bytes) × (bs ≡ cd.encode a ++ junk)) × (check a ≡ ok tt)
  checked_prefix_iff bs a hb fits = (accepted, reread)
    where
      accepted :
          (decode_prefix cd.body bs >>= λ p. check p >> ok p) ≡ ok a
          → cd.Valid a × ((junk : Bytes) × (bs ≡ cd.encode a ++ junk)) × (check a ≡ ok tt)
      accepted h =
          let (p, hp, h₁) = bind-eq-ok (decode_prefix cd.body bs) _ h in
          let (u, hu, h₂) = bind-eq-ok (check p) _ h₁ in
          let e : p ≡ a = cc in
          let (v, s) = (decode_prefix_iff cd bs p hb fits).0 hp in rw (← e) (v, s, hu)

      reread :
          cd.Valid a × ((junk : Bytes) × (bs ≡ cd.encode a ++ junk)) × (check a ≡ ok tt)
          → (decode_prefix cd.body bs >>= λ p. check p >> ok p) ≡ ok a
      reread (v, s, k) = let d = (decode_prefix_iff cd bs a hb fits).1 (v, s) in rw (d, k)

  -- Values that can be encoded and pass the check are read back.
  pub checked_whole-encode :
      (a : A)
      → cd.Valid a
      → check a ≡ ok tt
      → length (cd.encode a) < usize_mod
      → (decode_whole cd.body (cd.encode a) >>= λ p.
          check p >> (check_reencoded (cd.encode p) (cd.encode a) >> ok p))
        ≡ ok a
  unfolding check_reencoded
  checked_whole-encode a v k fits = rw (
    decode_whole-Reads cd.body (cd.encode a) a (cd.reads a v) fits,
    k,
    bytes_eq_self (cd.encode a),
  )

  pub checked_prefix-encode :
      (a : A)
      → cd.Valid a
      → check a ≡ ok tt
      → length (cd.encode a) < usize_mod
      → (decode_prefix cd.body (cd.encode a) >>= λ p. check p >> ok p) ≡ ok a
  checked_prefix-encode a v k fits =
      let d = decode_prefix-Reads cd.body (cd.encode a) [] a (cd.reads a v) (omega arith) in
      rw (subst (λ t. decode_prefix cd.body t ≡ ok a) (append-nil (cd.encode a)) d, k)

  -- A decoder that drops what is left, but compares the input with the value encoded again.
  pub checked_reencoded_iff :
      (bs : Bytes) (a : A)
      → IsBytes bs
      → length bs < usize_mod
      → ((decode_prefix cd.body bs >>= λ p. check p >> (check_reencoded (cd.encode p) bs >> ok p))
          ≡ ok a)
        ↔ cd.Valid a × (bs ≡ cd.encode a) × (check a ≡ ok tt)
  unfolding check_reencoded
  checked_reencoded_iff bs a hb fits = (accepted, reread)
    where
      accepted :
          (decode_prefix cd.body bs >>= λ p. check p >> (check_reencoded (cd.encode p) bs >> ok p))
            ≡ ok a
          → cd.Valid a × (bs ≡ cd.encode a) × (check a ≡ ok tt)
      accepted h =
          let (p, hp, h₁) = bind-eq-ok (decode_prefix cd.body bs) _ h in
          let (u, hu, h₂) = bind-eq-ok (check p) _ h₁ in
          let (q, h₃) = guard-eq-ok (bytes_eq (cd.encode p) bs) _ h₂ in
          let e : p ≡ a = cc in
          let (v, s) = (decode_prefix_iff cd bs p hb fits).0 hp in
          rw (← e) (v, sym ((bytes_eq_iff (cd.encode p) bs).0 q), hu)

      reread :
          cd.Valid a × (bs ≡ cd.encode a) × (check a ≡ ok tt)
          → (decode_prefix cd.body bs >>= λ p.
              check p >> (check_reencoded (cd.encode p) bs >> ok p))
            ≡ ok a
      reread (v, s, k) =
          let d =
            (decode_prefix_iff cd bs a hb fits).1 (v, ([], s ∙ sym (append-nil (cd.encode a)))) in
          rw (d, k, ← s, bytes_eq_self bs)

  pub checked_reencoded-encode :
      (a : A)
      → cd.Valid a
      → check a ≡ ok tt
      → length (cd.encode a) < usize_mod
      → (decode_prefix cd.body (cd.encode a) >>= λ p.
          check p >> (check_reencoded (cd.encode p) (cd.encode a) >> ok p))
        ≡ ok a
  unfolding check_reencoded
  checked_reencoded-encode a v k fits =
      let d = decode_prefix-Reads cd.body (cd.encode a) [] a (cd.reads a v) (omega arith) in
      rw (
        subst (λ t. decode_prefix cd.body t ≡ ok a) (append-nil (cd.encode a)) d,
        k,
        bytes_eq_self (cd.encode a),
      )
