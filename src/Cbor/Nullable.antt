-- ===== src/Cbor/Nullable.antt =====
-- A value or null, as payload decoders read it: they look at the next byte, which is null's or the
-- first of the value.
use sidevers_protocol.Cbor.Array.{text_codec, bytes_codec, fixed_codec}
use sidevers_protocol.Cbor.Codec.{Codec}
use sidevers_protocol.Cbor.Head.{head, info_of, follow, info_of-lt}
use sidevers_protocol.Cbor.Items.{uint-head, bytes-head, text-head}
use sidevers_protocol.Cbor.Optional.{peek_null}
use sidevers_protocol.Cbor.Reader.{◌>>=◌, Read, pure, read_bytes_or_null, CborReader}
use sidevers_protocol.Cbor.Reads.{
  at, bind_ok, Reads-bind, Parses-bind, Reads-pure, Parses-pure, Reads, Parses,
}
use sidevers_protocol.Cbor.Writer.{Bytes, simple_null, null, uint, bytes, text}
use sidevers_protocol.Common.{
  String, ℕ, ◌+◌, ◌≡◌, refl, true, false, Option, none, some, [], ◌∷◌, ◌==◌, if◌then◌else◌, IsBytes,
  sym, ap, ◌∙◌, subst, inl, inr, ◌++◌, append-nil, ==_iff, Bool-cases, ◌*◌, ◌^◌, ◌<◌, arith,
  ==_of_ne, length,
}
use sidevers_protocol.Errors.{cbor_decode, ok, err, Error, Result}

-- `if peek == 0xF6 { r.read_bytes_or_null()?; None } else { Some(..) }`
unfoldable pub null_or : {A : Type 0} → Read A → ℕ → Read (Option A)
null_or m peek =
    if peek == simple_null
    then (do absent ← read_bytes_or_null; pure none)
    else (do a ← m; pure (some a))

-- `let peek = *r.remaining().first().ok_or_else(..)?`
unfoldable pub read_nullable : {A : Type 0} → Read A → Read (Option A)
read_nullable m r = elim r.rest [ [] ↦ err cbor_decode | b ∷ bs ↦ null_or m b r ]

unfoldable pub encode_nullable : {A : Type 0} → (A → Bytes) → Option A → Bytes
encode_nullable f none = null
encode_nullable f (some a) = f a

-- What is optional, where it is there.
abbrev pub OnSome : {A : Type 0} → (A → Type 0) → Option A → Type 0
OnSome P none = Unit {0}
OnSome P (some a) = P a

-- The first byte of an encoding, which is not null's.
abbrev pub StartsNotNull : Bytes → Type 0
StartsNotNull bs = (x : ℕ) × (l : Bytes) × (bs ≡ x ∷ l) × ((x == simple_null) ≡ false)

module _ {A : Type 0} (c : Codec A) where
  abbrev present : Read (Option A)
  present = do a ← c.body; pure (some a)

  peek_value :
      (p x : ℕ) (l : Bytes)
      → (x == simple_null) ≡ false
      → read_nullable c.body (at p (x ∷ l)) ≡ present (at p (x ∷ l))
  unfolding read_nullable null_or
  peek_value p x l e = rw e refl

  peek_absent :
      (p x : ℕ) (l : Bytes)
      → (x == simple_null) ≡ true
      → read_nullable c.body (at p (x ∷ l)) ≡ ok (none, at (p + 1) l)
  unfolding read_nullable null_or pure
  peek_absent p x l e = rw e (bind_ok read_bytes_or_null (λ _. pure none) (peek_null p x l e))

  Reads-absent : Reads (read_nullable c.body) null none
  unfolding null
  Reads-absent = record { run = λ p rest h. peek_absent p simple_null rest refl }

  Reads-present :
      (a : A)
      → c.Valid a
      → StartsNotNull (c.encode a)
      → Reads (read_nullable c.body) (c.encode a) (some a)
  Reads-present a v (x, l, e, n) =
      let whole : Reads present (c.encode a) (some a) =
        subst (λ (t : Bytes). Reads present t (some a)) (append-nil (c.encode a))
          (Reads-bind c.body _ (c.reads a v) (Reads-pure (some a))) in
      record {
        run = λ p rest fits.
            subst
              (λ (t : Bytes). read_nullable c.body (at p (t ++ rest)) ≡ present (at p (t ++ rest)))
              (sym e) (peek_value p x (l ++ rest) n)
            ∙ whole.run p rest fits;
      }

  pub Reads-nullable :
      (o : Option A)
      → OnSome c.Valid o
      → ((a : A) → c.Valid a → StartsNotNull (c.encode a))
      → Reads (read_nullable c.body) (encode_nullable c.encode o) o
  unfolding encode_nullable
  Reads-nullable none v s = Reads-absent
  Reads-nullable (some a) v s = Reads-present a v (s a v)

  abbrev Nullable : Option A → Bytes → Type 0
  Nullable o bs = OnSome c.Valid o × (bs ≡ encode_nullable c.encode o)

  Parses-present : Parses present Nullable
  unfolding encode_nullable
  Parses-present =
      Parses-bind c.body _ c.parses λ a xs (v, ex). Parses-pure (some a) (v, rw (append-nil, ex))

  found_absent :
      (p x : ℕ) (l : Bytes) {o : Option A} {r' : CborReader}
      → x ≡ simple_null
      → ◌≡◌ {A = Result Error (Option A × CborReader)} (ok (none, at (p + 1) l)) (ok (o, r'))
      → (bs : Bytes) × (x ∷ l ≡ bs ++ r'.rest) × Nullable o bs
  unfolding encode_nullable null
  found_absent p x l {o} {r'} ex e =
      let eo : none ≡ o = cc in
      let er : l ≡ r'.rest = cc in
      (
        x ∷ [],
        ap (λ (t : Bytes). x ∷ t) er,
        subst (λ (y : Option A). Nullable y (x ∷ [])) eo (tt, ap (λ (y : ℕ). y ∷ []) ex),
      )

  pub Parses-nullable :
      Parses (read_nullable c.body) (λ o bs. OnSome c.Valid o × (bs ≡ encode_nullable c.encode o))
  Parses-nullable = record { run = λ r hb e. go r.pos r.rest hb e }
    where
      go :
          (p : ℕ) (l : Bytes) {o : Option A} {r' : CborReader}
          → IsBytes l
          → read_nullable c.body (at p l) ≡ ok (o, r')
          → (bs : Bytes) × (l ≡ bs ++ r'.rest) × Nullable o bs
      go p [] hb e = unfold read_nullable in cc
      go p (x ∷ l) {o} {r'} hb e = elim (Bool-cases (x == simple_null)) [
        | inl h ↦ found_absent p x l ((==_iff x simple_null).0 h) (sym (peek_absent p x l h) ∙ e)
        | inr h ↦ Parses-present.run (at p (x ∷ l)) hb (sym (peek_value p x l h) ∙ e)
      ]

-- The codec of a value or null, where no encoding of a value starts as null does.
abbrev pub nullable :
    {A : Type 0}
    → (c : Codec A) → ((a : A) → c.Valid a → StartsNotNull (c.encode a))
    → Codec (Option A)
nullable c s = record {
  encode = encode_nullable c.encode;
  body = read_nullable c.body;
  Valid = OnSome c.Valid;
  reads = λ o h. Reads-nullable c o h s;
  parses = Parses-nullable c;
}

-- The first byte of the head of an item of a major type below 7.
pub head-StartsNotNull : (m v : ℕ) (bs : Bytes) → m < 7 → StartsNotNull (head m v ++ bs)
unfolding head
head-StartsNotNull m v bs h = (
  m * 32 + info_of v,
  follow v ++ bs,
  refl,
  ==_of_ne _ _ (λ e. absurd (omega (arith, info_of-lt v, e))),
)

pub uint-StartsNotNull : (n : ℕ) → n < 2 ^ 64 → StartsNotNull (uint n)
uint-StartsNotNull n h =
    subst (λ (t : Bytes). StartsNotNull t) (append-nil (head 0 n) ∙ sym (uint-head n h))
      (head-StartsNotNull 0 n [] (omega arith))

pub bytes-StartsNotNull : (b : Bytes) → length b < 2 ^ 64 → StartsNotNull (bytes b)
bytes-StartsNotNull b h =
    subst (λ (t : Bytes). StartsNotNull t) (sym (bytes-head b h))
      (head-StartsNotNull 2 (length b) b (omega arith))

pub text-StartsNotNull : (t : Bytes) → length t < 2 ^ 64 → StartsNotNull (text t)
text-StartsNotNull t h =
    subst (λ (x : Bytes). StartsNotNull x) (sym (text-head t h))
      (head-StartsNotNull 3 (length t) t (omega arith))

abbrev pub optional_text : Codec (Option Bytes)
optional_text = nullable text_codec (λ t h. text-StartsNotNull t h.0)

abbrev pub optional_bytes : Codec (Option Bytes)
optional_bytes = nullable bytes_codec (λ b h. bytes-StartsNotNull b h.0)

abbrev pub optional_fixed : String → Codec (Option Bytes)
optional_fixed field =
    nullable (fixed_codec field 32 (omega arith))
      (λ b h. bytes-StartsNotNull b (omega (arith, h.0)))
