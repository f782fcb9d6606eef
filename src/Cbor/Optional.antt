-- ===== src/Cbor/Optional.antt =====
-- `read_bytes_or_null` of crates/sidevers-core/src/cbor.rs, and the one-byte numbers that payload
-- decoders read with `read_u64` and a test.
use sidevers_protocol.Cbor.Codec.{Codec}
use sidevers_protocol.Cbor.Head.{info_of, follow, head, info_of-lt}
use sidevers_protocol.Cbor.Items.{Reads-u64, Parses-u64, Reads-bytes, bytes-head, Parses-bytes}
use sidevers_protocol.Cbor.Reader.{
  ◌>>=◌, ◌>>◌, Read, pure, require, read_u64, read_bytes, or_null, read_bytes_or_null, CborReader,
}
use sidevers_protocol.Cbor.Reads.{
  Reads-bind, Parses-bind, Reads-pure, Reads-checked, Parses-checked, Reads, Parses, at,
  Parses-pure,
}
use sidevers_protocol.Cbor.Writer.{Bytes, simple_null, uint, bytes, null}
use sidevers_protocol.Common.{
  IsBytes, ℕ, ◌+◌, ◌*◌, ◌^◌, ◌≤◌, ◌<◌, ◌≡◌, refl, subst, false, Option, none, some, append-nil,
  arith, leb, ◌==◌, leb→le, leb_of_le, ==_of_ne, length, sym, ◌∙◌, inl, inr, true, [], ◌∷◌, ◌++◌,
  Bool-cases, ap, ==_iff,
}
use sidevers_protocol.Errors.{cbor_decode, ok, Error, Result}

-- `Some(b) => cbor::bytes(b), None => cbor::null()`
unfoldable pub bytes_or_null : Option Bytes → Bytes
bytes_or_null none = null
bytes_or_null (some b) = bytes b

-- `let v = r.read_u64()?; if v > 0xFF { return Err(..) }`
unfoldable pub read_u8 : Read ℕ
read_u8 = do v ← read_u64; require (leb v 0xff) cbor_decode; pure v

pub Reads-u8 : (n : ℕ) → n ≤ 0xff → Reads read_u8 (uint n) n
unfolding read_u8
Reads-u8 n h =
    subst (λ (t : Bytes). Reads read_u8 t n) (append-nil (uint n))
      (unfold read_u8 in
        Reads-bind read_u64 _ (Reads-u64 n (omega arith))
          (Reads-checked cbor_decode n (leb_of_le n 0xff h)))

pub Parses-u8 : Parses read_u8 (λ n bs. (n ≤ 0xff) × (bs ≡ uint n))
unfolding read_u8
Parses-u8 = Parses-bind read_u64 _ Parses-u64 λ n xs (_, ex).
    Parses-checked (leb n 0xff) cbor_decode n (λ e. (leb→le n 0xff e, rw (append-nil, ex)))

Reads-null : Reads read_bytes_or_null null none
unfolding read_bytes_or_null or_null null
Reads-null = record { run = λ p rest h. refl }

-- The initial byte of a byte string is not that of null.
not_null : (v : ℕ) → (2 * 32 + info_of v == simple_null) ≡ false
not_null v = ==_of_ne _ _ (λ e. absurd (omega (arith, info_of-lt v, e)))

abbrev wrap : Bytes → Read (Option Bytes)
wrap b = pure (some b)

peek_bytes :
    (p x : ℕ) (l : Bytes)
    → (x == simple_null) ≡ false
    → read_bytes_or_null (at p (x ∷ l)) ≡ (read_bytes >>= wrap) (at p (x ∷ l))
unfolding read_bytes_or_null or_null
peek_bytes p x l e = rw e

pub peek_null :
    (p x : ℕ) (l : Bytes)
    → (x == simple_null) ≡ true
    → read_bytes_or_null (at p (x ∷ l)) ≡ ok (none, at (p + 1) l)
unfolding read_bytes_or_null or_null
peek_null p x l e = rw e

Reads-some : (b : Bytes) → length b < 2 ^ 64 → Reads read_bytes_or_null (bytes b) (some b)
Reads-some b h =
    let whole : Reads (read_bytes >>= wrap) (bytes b) (some b) =
      subst (λ (t : Bytes). Reads (read_bytes >>= wrap) t (some b)) (append-nil (bytes b))
        (Reads-bind read_bytes wrap (Reads-bytes b h) (Reads-pure (some b))) in
    let n = length b in
    record {
      run = λ p rest fits.
          subst
            (λ (t : Bytes).
              read_bytes_or_null (at p (t ++ rest)) ≡ (read_bytes >>= wrap) (at p (t ++ rest)))
            (sym (bytes-head b h))
            (unfold head in
              peek_bytes p (2 * 32 + info_of n) ((follow n ++ b) ++ rest) (not_null n))
          ∙ whole.run p rest fits;
    }

pub Reads-or_null :
    (o : Option Bytes)
    → ((b : Bytes) → o ≡ some b → length b < 2 ^ 64)
    → Reads read_bytes_or_null (bytes_or_null o) o
unfolding bytes_or_null
Reads-or_null none h = Reads-null
Reads-or_null (some b) h = Reads-some b (h b refl)

-- What is optional, where it is there.
abbrev pub AllSome : (Bytes → Type 0) → Option Bytes → Type 0
AllSome P none = Unit {0}
AllSome P (some b) = P b

abbrev Optional : Option Bytes → Bytes → Type 0
Optional o bs = AllSome (λ b. (length b < 2 ^ 64) × IsBytes b) o × (bs ≡ bytes_or_null o)

Parses-wrap : Parses (read_bytes >>= wrap) Optional
unfolding bytes_or_null
Parses-wrap =
    Parses-bind read_bytes wrap Parses-bytes
      λ b xs (hl, hb, ex). Parses-pure (some b) ((hl, hb), rw (append-nil, ex))

found_null :
    (p x : ℕ) (l : Bytes) {o : Option Bytes} {r' : CborReader}
    → x ≡ simple_null
    → ◌≡◌ {A = Result Error (Option Bytes × CborReader)} (ok (none, at (p + 1) l)) (ok (o, r'))
    → (bs : Bytes) × (x ∷ l ≡ bs ++ r'.rest) × Optional o bs
unfolding bytes_or_null null
found_null p x l {o} {r'} ex e =
    let eo : none ≡ o = cc in
    let er : l ≡ r'.rest = cc in
    (
      x ∷ [],
      ap (λ (t : Bytes). x ∷ t) er,
      subst (λ (y : Option Bytes). Optional y (x ∷ [])) eo (tt, ap (λ (y : ℕ). y ∷ []) ex),
    )

pub Parses-or_null : Parses read_bytes_or_null Optional
Parses-or_null = record { run = λ r hb e. go r.pos r.rest hb e }
  where
    go :
        (p : ℕ) (l : Bytes) {o : Option Bytes} {r' : CborReader}
        → IsBytes l
        → read_bytes_or_null (at p l) ≡ ok (o, r')
        → (bs : Bytes) × (l ≡ bs ++ r'.rest) × Optional o bs
    go p [] hb e = unfold read_bytes_or_null in cc
    go p (x ∷ l) {o} {r'} hb e = elim (Bool-cases (x == simple_null)) [
      | inl h ↦ found_null p x l ((==_iff x simple_null).0 h) (sym (peek_null p x l h) ∙ e)
      | inr h ↦ Parses-wrap.run (at p (x ∷ l)) hb (sym (peek_bytes p x l h) ∙ e)
    ]

abbrev pub u8_codec : Codec ℕ
u8_codec = record {
  encode = uint;
  body = read_u8;
  Valid = λ n. n ≤ 0xff;
  reads = Reads-u8;
  parses = Parses-u8;
}

-- A number of one byte can be encoded.
abbrev pub IsU8 : ℕ → Type 0
IsU8 n = n ≤ 0xff
