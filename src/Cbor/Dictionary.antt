-- ===== src/Cbor/Dictionary.antt =====
-- Maps from text to values, as crates/sidevers-core/src writes them in several places: the entries of a
-- `BTreeMap`, sorted by their encoded keys, and a loop that reads them and refuses keys out of order.
-- A map is the list of its entries.
use sidevers_protocol.Cbor.Array.{IsText}
use sidevers_protocol.Cbor.Codec.{Codec}
use sidevers_protocol.Cbor.Field.{flat, encode_map-flat}
use sidevers_protocol.Cbor.Items.{Reads-text, Parses-text, Reads-map_header, Parses-map_header}
use sidevers_protocol.Cbor.Reader.{
  Read, CborReader, ◌>>=◌, ◌>>◌, max_cbor_entries, pure, require, read_text, read_map_header,
}
use sidevers_protocol.Cbor.Reads.{
  at, Reads, Parses, Reads-bind, Reads-pure, Reads-require, Parses-bind, Parses-pure,
  Parses-require, Parses-mono,
}
use sidevers_protocol.Cbor.Writer.{Bytes, MapEntry, text, encode_map, write_map_header}
use sidevers_protocol.Common.{
  bytes_lt, IsBytes, ℕ, ◌+◌, ◌-◌, ◌≡◌, refl, ap, ◌∙◌, Bool, true, Option, none, some, List, [], ◌∷◌,
  ◌++◌, arith, if◌then◌else◌, length, take, length-append, take-append, zero, suc, ◌≤◌, subst, map,
  All, append-nil, false,
}
use sidevers_protocol.Errors.{Error, Result, ok, err, cbor_not_canonical}

-- `sort_by(|a, b| a.key.cmp(&b.key))`, which keeps the order of equal keys.
unfoldable pub insert_entry : MapEntry → List MapEntry → List MapEntry
insert_entry e [] = e ∷ []
insert_entry e (x ∷ xs) = if bytes_lt x.key e.key then x ∷ insert_entry e xs else e ∷ x ∷ xs

unfoldable pub sort_entries : List MapEntry → List MapEntry
sort_entries [] = []
sort_entries (e ∷ es) = insert_entry e (sort_entries es)

-- What a reader gives, with the bytes that it took: `buf[start..position]`.
unfoldable pub consumed :
    {A : Type 0} → Bytes → Result Error (A × CborReader) → Result Error ((A × Bytes) × CborReader)
consumed buf (ok (a, r)) = ok ((a, take (length buf - length r.rest) buf), r)
consumed buf (err e) = err e

unfoldable pub spanned : {A : Type 0} → Read A → Read (A × Bytes)
spanned m r = consumed r.rest (m r)

-- `if let Some(prev) = &last && prev >= &kbytes { return Err(..) }`
unfoldable pub follows : Option Bytes → Bytes → Bool
follows none k = true
follows (some prev) k = bytes_lt prev k

module _ {A : Type 0} where
  Reads-spanned : (m : Read A) {bs : Bytes} {a : A} → Reads m bs a → Reads (spanned m) bs (a, bs)
  unfolding spanned consumed
  Reads-spanned m {bs} {a} h = record {
    run = λ p rest fits.
        let n : length (bs ++ rest) - length rest ≡ length bs =
          omega (arith, length-append bs rest) in
        ap (consumed (bs ++ rest)) (h.run p rest fits)
        ∙ ap (λ (t : Bytes). ok ((a, t), at (p + length bs) rest))
            (ap (λ (k : ℕ). take k (bs ++ rest)) n ∙ take-append bs rest);
  }

  Parses-spanned :
      (m : Read A) {P : A → Bytes → Type 0}
      → Parses m P
      → Parses (spanned m) (λ x bs. P x.0 bs × (x.1 ≡ bs))
  unfolding spanned
  Parses-spanned m {P} h = record { run = λ r hb e. go r hb (m r) refl e }
    where
      go :
          (r : CborReader) {x : A × Bytes} {r' : CborReader}
          → IsBytes r.rest
          → (y : Result Error (A × CborReader)) → m r ≡ y
          → consumed r.rest y ≡ ok (x, r')
          → (bs : Bytes) × (r.rest ≡ bs ++ r'.rest) × (P x.0 bs × (x.1 ≡ bs))
      go r {x} {r'} hb (ok (a, s)) em e =
          let (bs, sp, p) = h.run r hb em in
          let k = length r.rest - length s.rest in
          let pair : (a, take k r.rest) ≡ x = unfold consumed in cc in
          let er : s ≡ r' = unfold consumed in cc in
          let n : k ≡ length bs = omega (arith, ap length sp, length-append bs s.rest) in
          let t : take k r.rest ≡ bs =
            ap (λ (q : Bytes). take k q) sp
            ∙ ap (λ (q : ℕ). take q (bs ++ s.rest)) n
            ∙ take-append bs s.rest in
          (
            bs,
            sp ∙ ap (λ (q : CborReader). bs ++ q.rest) er,
            subst (λ (y : A × Bytes). P y.0 bs × (y.1 ≡ bs)) pair (p, t),
          )
      go r hb (err c) em e = unfold consumed in cc

bytes_lt-asym : (xs ys : Bytes) → bytes_lt xs ys ≡ true → bytes_lt ys xs ≡ false
unfolding bytes_lt
bytes_lt-asym [] [] h = cc
bytes_lt-asym [] (y ∷ ys) h = refl
bytes_lt-asym (x ∷ xs) [] h = cc
bytes_lt-asym (x ∷ xs) (y ∷ ys) h = ground (arith, bytes_lt-asym xs ys)

-- A map whose values have the codec `v`.
module _ {V : Type 0} (v : Codec V) where
  abbrev pub entry_of : Bytes × V → MapEntry
  entry_of (k, x) = record { key = text k; value = v.encode x }

  unfoldable pub encode_dictionary : List (Bytes × V) → Bytes
  encode_dictionary m = encode_map (sort_entries (map entry_of m))

  unfoldable pub read_entries : ℕ → Option Bytes → Read (List (Bytes × V))
  read_entries zero last = pure []
  read_entries (suc n) last = do
    (k, kbytes) ← spanned read_text
    require (follows last kbytes) cbor_not_canonical
    x ← v.body
    rest ← read_entries n (some kbytes)
    pure ((k, x) ∷ rest)

  unfoldable pub read_dictionary : Read (List (Bytes × V))
  read_dictionary = do n ← read_map_header; read_entries n none

  -- The encoded keys ascend from `last`.
  abbrev pub Ascending : Option Bytes → List (Bytes × V) → Type 0
  Ascending last [] = Unit {0}
  Ascending last ((k, x) ∷ m) = (follows last (text k) ≡ true) × Ascending (some (text k)) m

  abbrev pub IsEntry : Bytes × V → Type 0
  IsEntry (k, x) = IsText k × v.Valid x

  abbrev pub IsSortedMap : List (Bytes × V) → Type 0
  IsSortedMap m = (length m ≤ max_cbor_entries) × All IsEntry m × Ascending none m

  abbrev cons : Bytes × V → List (Bytes × V) → Read (List (Bytes × V))
  cons e m = pure (e ∷ m)

  Reads-entries :
      (m : List (Bytes × V)) (last : Option Bytes)
      → All IsEntry m
      → Ascending last m
      → Reads (read_entries (length m) last) (flat (map entry_of m)) m
  unfolding read_entries flat
  Reads-entries [] last h o = Reads-pure []
  Reads-entries ((k, x) ∷ m) last (h, hs) (o, os) =
      Reads-bind (spanned read_text) _ (Reads-spanned read_text (Reads-text k h.0.0 h.0.1)) (
        Reads-bind (require _ _) _ (Reads-require cbor_not_canonical o) (
          Reads-bind v.body _ (v.reads x h.1) (
            subst
              (λ (t : Bytes).
                Reads (read_entries (length m) (some (text k)) >>= cons (k, x)) t ((k, x) ∷ m))
              (append-nil (flat (map entry_of m)))
              (Reads-bind (read_entries (length m) (some (text k))) (cons (k, x))
                (Reads-entries m (some (text k)) hs os) (Reads-pure ((k, x) ∷ m))))))

  Parses-entries :
      (n : ℕ) (last : Option Bytes)
      → Parses
          (read_entries n last)
          (λ m bs. (length m ≡ n) × All IsEntry m × Ascending last m × (bs ≡ flat (map entry_of m)))
  unfolding read_entries flat
  Parses-entries zero last = Parses-pure [] (refl, tt, tt, refl)
  Parses-entries (suc n) last =
      Parses-bind (spanned read_text) _ (Parses-spanned read_text Parses-text)
        λ (k, kbytes) xs ((hk, hv, ex), ek).
          Parses-bind (require _ _) _ {P = λ _ ys. (follows last kbytes ≡ true) × (ys ≡ [])}
            (Parses-require (follows last kbytes) cbor_not_canonical (λ o. (o, refl)))
            λ _ ys (o, ey). Parses-bind v.body _ v.parses λ x zs (hx, ez).
              Parses-bind (read_entries n (some kbytes)) _ (Parses-entries n (some kbytes))
                λ m ws (hl, hs, os, ew). Parses-pure ((k, x) ∷ m) (
                  ap suc hl,
                  (((hk, hv), hx), hs),
                  (let ek' : kbytes ≡ text k = ek ∙ ex in
                      (
                        subst (λ t. follows last t ≡ true) ek' o,
                        subst (λ t. Ascending (some t) m) ek' os,
                      )),
                  rw (ex, ey, ez, ew, append-nil),
                )

  -- Sorting changes nothing where the keys ascend.
  insert_entry-least :
      (k : Bytes) (x : V) (m : List (Bytes × V))
      → Ascending (some (text k)) m
      → insert_entry (entry_of (k, x)) (map entry_of m) ≡ entry_of (k, x) ∷ map entry_of m
  unfolding insert_entry follows
  insert_entry-least k x [] h = refl
  insert_entry-least k x ((j, y) ∷ m) h = rw (bytes_lt-asym (text k) (text j) h.0)

  sort_entries-Ascending :
      (m : List (Bytes × V)) (last : Option Bytes)
      → Ascending last m
      → sort_entries (map entry_of m) ≡ map entry_of m
  unfolding sort_entries
  sort_entries-Ascending [] last h = refl
  sort_entries-Ascending ((k, x) ∷ m) last (h, hs) =
      rw (sort_entries-Ascending m (some (text k)) hs) (insert_entry-least k x m hs)

  length-map_entry : (m : List (Bytes × V)) → length (map entry_of m) ≡ length m
  length-map_entry [] = refl
  length-map_entry (e ∷ m) = ap suc (length-map_entry m)

  encode_dictionary-flat :
      (m : List (Bytes × V))
      → Ascending none m
      → encode_dictionary m ≡ write_map_header [] (length m) ++ flat (map entry_of m)
  unfolding encode_dictionary
  encode_dictionary-flat m h =
      rw (sort_entries-Ascending m none h, encode_map-flat (map entry_of m), length-map_entry m)

  pub Reads-dictionary :
      (m : List (Bytes × V)) → IsSortedMap m → Reads read_dictionary (encode_dictionary m) m
  unfolding read_dictionary
  Reads-dictionary m (n, h, o) =
      rw (encode_dictionary-flat m o)
        (Reads-bind read_map_header _ (Reads-map_header (length m) n) (Reads-entries m none h o))

  pub Parses-dictionary :
      Parses read_dictionary (λ m bs. IsSortedMap m × (bs ≡ encode_dictionary m))
  unfolding read_dictionary
  Parses-dictionary = Parses-bind read_map_header _ Parses-map_header λ n xs (hn, ex).
      Parses-mono (read_entries n none)
        (λ m ys (hl, hs, o, ey). ((rw hl hn, hs, o), rw (encode_dictionary-flat m o, hl, ex, ey)))
        (Parses-entries n none)

  abbrev pub dictionary_codec : Codec (List (Bytes × V))
  dictionary_codec = record {
    encode = encode_dictionary;
    body = read_dictionary;
    Valid = IsSortedMap;
    reads = Reads-dictionary;
    parses = Parses-dictionary;
  }
