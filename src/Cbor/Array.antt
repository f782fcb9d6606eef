-- ===== src/Cbor/Array.antt =====
-- Arrays of payloads: if one item is read back, or parsed canonically, so is an array of them.
use sidevers_protocol.Cbor.Codec.{Codec}
use sidevers_protocol.Cbor.Field.{
  read_fixed, read_items, read_array, concat_map, encode_array, IsArray, Reads-fixed, Parses-fixed,
}
use sidevers_protocol.Cbor.Items.{
  Reads-u64, Parses-u64, Reads-bytes, Parses-bytes, Reads-text, Parses-text, Reads-array_header,
  Parses-array_header,
}
use sidevers_protocol.Cbor.Reader.{
  max_cbor_entries, Read, read_u64, read_bytes, read_text, read_array_header, ◌>>=◌, pure,
}
use sidevers_protocol.Cbor.Reads.{
  Reads-bind, Parses-bind, Reads-pure, Parses-pure, Parses-mono, Reads, Parses,
}
use sidevers_protocol.Cbor.Utf8.{valid_utf8}
use sidevers_protocol.Cbor.Writer.{Bytes, uint, bytes, text}
use sidevers_protocol.Common.{
  IsBytes, ℕ, zero, suc, ◌^◌, ◌≤◌, ◌<◌, String, ◌≡◌, refl, ap, subst, true, List, [], ◌∷◌,
  append-nil, length, All,
}

module _ {A : Type 0} (f : A → Bytes) (m : Read A) where
  pub Reads-items :
      (xs : List A)
      → All (λ x. Reads m (f x) x) xs
      → Reads (read_items m (length xs)) (concat_map f xs) xs
  unfolding read_items concat_map
  Reads-items [] h = Reads-pure []
  Reads-items (x ∷ xs) h =
      let then_cons : List A → Read (List A) = λ ys. pure (x ∷ ys) in
      Reads-bind m _ h.0 (
        subst (λ (t : Bytes). Reads (read_items m (length xs) >>= then_cons) t (x ∷ xs))
          (append-nil (concat_map f xs))
          (Reads-bind (read_items m (length xs)) then_cons (Reads-items xs h.1)
            (Reads-pure (x ∷ xs))))

  pub Reads-array :
      (xs : List A)
      → length xs ≤ max_cbor_entries
      → All (λ x. Reads m (f x) x) xs
      → Reads (read_array m) (encode_array f xs) xs
  unfolding read_array encode_array
  Reads-array xs hl h =
      Reads-bind read_array_header _ (Reads-array_header (length xs) hl) (Reads-items xs h)

  module _ (V : A → Type 0) (one : Parses m (λ a bs. V a × (bs ≡ f a))) where
    pub Parses-items :
        (n : ℕ)
        → Parses (read_items m n) (λ xs bs. (length xs ≡ n) × All V xs × (bs ≡ concat_map f xs))
    unfolding read_items concat_map
    Parses-items zero = Parses-pure [] (refl, tt, refl)
    Parses-items (suc n) = Parses-bind m _ one λ x bs (hx, ex).
        Parses-bind (read_items m n) _ (Parses-items n) λ xs cs (hl, hxs, es).
          Parses-pure (x ∷ xs) (ap suc hl, (hx, hxs), rw (append-nil, ex, es))

    pub Parses-array :
        Parses
          (read_array m)
          (λ xs bs. ((length xs ≤ max_cbor_entries) × All V xs) × (bs ≡ encode_array f xs))
    unfolding read_array encode_array
    Parses-array = Parses-bind read_array_header _ Parses-array_header λ n bs (hn, en).
        Parses-mono _ (λ xs cs (hl, hv, es). ((rw hl hn, hv), rw (hl, en, es))) (Parses-items n)

pub All-mono :
    {A : Type 0} {P Q : A → Type 0} → ((a : A) → P a → Q a) → (xs : List A) → All P xs → All Q xs
All-mono h [] p = tt
All-mono h (x ∷ xs) p = (h x p.0, All-mono h xs p.1)

-- The codec of an array of payloads.
abbrev pub array : {A : Type 0} → Codec A → Codec (List A)
array c = record {
  encode = encode_array c.encode;
  body = read_array c.body;
  Valid = λ xs. (length xs ≤ max_cbor_entries) × All c.Valid xs;
  reads = λ xs h. Reads-array c.encode c.body xs h.0 (All-mono c.reads xs h.1);
  parses = Parses-array c.encode c.body c.Valid c.parses;
}

-- Text, unsigned integers, byte strings, and byte strings of a fixed length, as codecs.
abbrev pub IsText : Bytes → Type 0
IsText t = (length t < 2 ^ 64) × (valid_utf8 t ≡ true)

abbrev pub text_codec : Codec Bytes
text_codec = record {
  encode = text;
  body = read_text;
  Valid = IsText;
  reads = λ t h. Reads-text t h.0 h.1;
  parses = Parses-mono read_text (λ t bs (h, v, e). ((h, v), e)) Parses-text;
}

abbrev pub uint_codec : Codec ℕ
uint_codec = record {
  encode = uint;
  body = read_u64;
  Valid = λ n. n < 2 ^ 64;
  reads = Reads-u64;
  parses = Parses-u64;
}

abbrev pub bytes_codec : Codec Bytes
bytes_codec = record {
  encode = bytes;
  body = read_bytes;
  Valid = λ b. (length b < 2 ^ 64) × IsBytes b;
  reads = λ b h. Reads-bytes b h.0;
  parses = Parses-mono read_bytes (λ b bs (h, hb, e). ((h, hb), e)) Parses-bytes;
}

-- A byte string whose length is fixed, below 2^64.
abbrev pub fixed_codec : String → (n : ℕ) → n < 2 ^ 64 → Codec Bytes
fixed_codec field n small = record {
  encode = bytes;
  body = read_fixed field n;
  Valid = IsArray n;
  reads = λ b h. Reads-fixed field n b small h.0;
  parses = Parses-fixed field n;
}

abbrev pub IsBlob : Bytes → Type 0
IsBlob b = (length b < 2 ^ 64) × IsBytes b

abbrev pub IsArrays : List Bytes → Type 0
IsArrays xs = (length xs ≤ max_cbor_entries) × All (IsArray 32) xs

abbrev pub IsU64 : ℕ → Type 0
IsU64 n = n < 2 ^ 64

abbrev pub IsTexts : List Bytes → Type 0
IsTexts xs = (length xs ≤ max_cbor_entries) × All IsText xs
