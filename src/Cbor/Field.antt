-- ===== src/Cbor/Field.antt =====
-- The steps that every payload decoder of the repository repeats over `CborReader`: the count of a
-- map, a key in its place, a byte string of a fixed length, the items of an array; and what
-- `encode_map` of crates/sidevers-core/src/cbor.rs writes.
use sidevers_protocol.Cbor.Items.{
  Reads-bytes, Parses-bytes, Reads-text, Parses-text, Reads-map_header, Parses-map_header,
}
use sidevers_protocol.Cbor.Reader.{
  max_cbor_entries, Read, pure, require, read_bytes, read_text, read_map_header, read_array_header,
  ◌>>=◌, ◌>>◌,
}
use sidevers_protocol.Cbor.Reads.{
  Reads-bind, Parses-bind, Reads-require, Parses-require, Reads-checked, Parses-checked, Reads,
  Parses,
}
use sidevers_protocol.Cbor.Utf8.{valid_utf8}
use sidevers_protocol.Cbor.Writer.{
  Bytes, write_array_header, write_map_header, bytes, text, write_entries, encode_map, MapEntry,
}
use sidevers_protocol.Common.{
  bytes_eq, IsBytes, bytes_eq_iff, bytes_eq_self, ℕ, zero, suc, ◌^◌, ◌≤◌, ◌<◌, String, ◌≡◌, refl,
  sym, ◌∙◌, subst, true, List, [], ◌∷◌, ◌++◌, append-nil, append_assoc, arith, ◌==◌, ==_iff, length,
}
use sidevers_protocol.Errors.{cbor_decode, cbor_not_canonical, bad_field_length}

-- `let n = r.read_map_header()?; if n != count { return Err(..) }`
unfoldable pub expect_count : ℕ → Read (Unit {0})
expect_count count = do n ← read_map_header; require (n == count) cbor_decode

-- `if r.read_text()? != expected { return Err(..) }`
unfoldable pub expect_key : Bytes → Read (Unit {0})
expect_key expected = do k ← read_text; require (bytes_eq k expected) cbor_not_canonical

-- `let b = r.read_bytes()?; if b.len() != n { return Err(..) }`, then the copy into an array.
unfoldable pub read_fixed : String → ℕ → Read Bytes
read_fixed field n = do
  b ← read_bytes
  require (length b == n) (bad_field_length field n (length b))
  pure b

-- `for _ in 0..n { out.push(..) }`
unfoldable pub read_items : {A : Type 0} → Read A → ℕ → Read (List A)
read_items m zero = pure []
read_items m (suc n) = do x ← m; xs ← read_items m n; pure (x ∷ xs)

-- An array: its header, then its items.
unfoldable pub read_array : {A : Type 0} → Read A → Read (List A)
read_array m = do n ← read_array_header; read_items m n

-- The items of a list, each encoded, one after the other.
unfoldable pub concat_map : {A : Type 0} → (A → Bytes) → List A → Bytes
concat_map f [] = []
concat_map f (x ∷ xs) = f x ++ concat_map f xs

unfoldable pub encode_array : {A : Type 0} → (A → Bytes) → List A → Bytes
encode_array f xs = write_array_header [] (length xs) ++ concat_map f xs

-- Keys and values, one after the other.
unfoldable pub flat : List MapEntry → Bytes
flat [] = []
flat (e ∷ es) = e.key ++ (e.value ++ flat es)

write_entries-flat : (w : Bytes) (es : List MapEntry) → write_entries w es ≡ w ++ flat es
unfolding write_entries flat
write_entries-flat w [] = sym (append-nil w)
write_entries-flat w (e ∷ es) =
    write_entries-flat ((w ++ e.key) ++ e.value) es
    ∙ append_assoc (w ++ e.key) e.value (flat es)
    ∙ append_assoc w e.key (e.value ++ flat es)

pub encode_map-flat :
    (es : List MapEntry) → encode_map es ≡ write_map_header [] (length es) ++ flat es
unfolding encode_map
encode_map-flat es = write_entries-flat _ es

pub Reads-count : (n : ℕ) → n ≤ max_cbor_entries → Reads (expect_count n) (write_map_header [] n) tt
unfolding expect_count
Reads-count n h =
    subst (λ (t : Bytes). Reads (expect_count n) t tt) (append-nil (write_map_header [] n))
      (unfold expect_count in
        Reads-bind read_map_header _ (Reads-map_header n h)
          (Reads-require cbor_decode ((==_iff n n).1 refl)))

pub Parses-count :
    (n : ℕ)
    → Parses (expect_count n) (λ _ bs. (n ≤ max_cbor_entries) × (bs ≡ write_map_header [] n))
unfolding expect_count
Parses-count n = Parses-bind read_map_header _ Parses-map_header λ k xs (hk, ex).
    Parses-require (k == n) cbor_decode
      (λ e. let p = (==_iff k n).0 e in (rw (← p) hk, rw (append-nil, ex, p)))

-- A key that the code spells out: short, and well-formed text.
abbrev pub IsKey : Bytes → Type 0
IsKey k = (length k < 2 ^ 64) × (valid_utf8 k ≡ true)

pub Reads-key : (k : Bytes) → IsKey k → Reads (expect_key k) (text k) tt
unfolding expect_key
Reads-key k h =
    subst (λ (t : Bytes). Reads (expect_key k) t tt) (append-nil (text k))
      (unfold expect_key in
        Reads-bind read_text _ (Reads-text k h.0 h.1)
          (Reads-require cbor_not_canonical (bytes_eq_self k)))

pub Parses-key : (k : Bytes) → Parses (expect_key k) (λ _ bs. bs ≡ text k)
unfolding expect_key
Parses-key k = Parses-bind read_text _ Parses-text λ t xs (ht, hv, ex).
    Parses-require (bytes_eq t k) cbor_not_canonical
      (λ e. rw (append-nil, ex, (bytes_eq_iff t k).0 e))

-- A byte string of `n` bytes.
abbrev pub IsArray : ℕ → Bytes → Type 0
IsArray n b = (length b ≡ n) × IsBytes b

pub Reads-fixed :
    (field : String) (n : ℕ) (b : Bytes)
    → n < 2 ^ 64
    → length b ≡ n
    → Reads (read_fixed field n) (bytes b) b
unfolding read_fixed
Reads-fixed field n b hn e =
    subst (λ (t : Bytes). Reads (read_fixed field n) t b) (append-nil (bytes b))
      (unfold read_fixed in
        Reads-bind read_bytes _ (Reads-bytes b (omega (arith, e)))
          (Reads-checked _ b ((==_iff (length b) n).1 e)))

pub Parses-fixed :
    (field : String) (n : ℕ) → Parses (read_fixed field n) (λ b bs. IsArray n b × (bs ≡ bytes b))
unfolding read_fixed
Parses-fixed field n = Parses-bind read_bytes _ Parses-bytes λ b xs (hl, hb, ex).
    Parses-checked (length b == n) _ b (λ e. (((==_iff (length b) n).0 e, hb), rw (append-nil, ex)))
