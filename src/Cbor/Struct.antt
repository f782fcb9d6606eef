-- ===== src/Cbor/Struct.antt =====
-- A payload that is a map with its keys in a fixed order: one rule for the count of the map, one for
-- each key with its value, in both directions.
use sidevers_protocol.Cbor.Codec.{Codec}
use sidevers_protocol.Cbor.Field.{
  expect_count, expect_key, Reads-count, Parses-count, IsKey, Reads-key, Parses-key,
}
use sidevers_protocol.Cbor.Reader.{◌>>=◌, ◌>>◌, max_cbor_entries, Read}
use sidevers_protocol.Cbor.Reads.{Reads-bind, Parses-bind, Parses-mono, Reads, Parses}
use sidevers_protocol.Cbor.Writer.{Bytes, write_map_header, text}
use sidevers_protocol.Common.{ℕ, ◌≤◌, [], ◌++◌}

pub Reads-map :
    {A : Type 0} (n : ℕ) (m : Read A) {bs : Bytes} {a : A}
    → n ≤ max_cbor_entries
    → Reads m bs a
    → Reads (expect_count n >> m) (write_map_header [] n ++ bs) a
Reads-map n m h hm = Reads-bind (expect_count n) _ (Reads-count n h) hm

pub Parses-map :
    {A : Type 0} (n : ℕ) (m : Read A) {Q : A → Bytes → Type 0}
    → Parses m (λ a bs. Q a (write_map_header [] n ++ bs))
    → Parses (expect_count n >> m) Q
Parses-map n m {Q} hm =
    Parses-bind (expect_count n) _ (Parses-count n)
      λ _ xs (_, e). Parses-mono m (λ a bs q. rw e q) hm

module _ {A B : Type 0} (k : Bytes) (c : Codec A) (f : A → Read B) where
  pub Reads-field :
      {ys : Bytes} {b : B} (a : A)
      → IsKey k
      → c.Valid a
      → Reads (f a) ys b
      → Reads (expect_key k >> (c.body >>= f)) (text k ++ (c.encode a ++ ys)) b
  Reads-field a hk ha hf =
      Reads-bind (expect_key k) _ (Reads-key k hk) (Reads-bind c.body f (c.reads a ha) hf)

  pub Parses-field :
      {Q : B → Bytes → Type 0}
      → ((a : A) → c.Valid a → Parses (f a) (λ b ys. Q b (text k ++ (c.encode a ++ ys))))
      → Parses (expect_key k >> (c.body >>= f)) Q
  Parses-field {Q} h = Parses-bind (expect_key k) _ (Parses-key k) λ _ xs ex.
      Parses-bind c.body f c.parses
        λ a ys (ha, ey). Parses-mono (f a) (λ b zs q. rw (ex, ey) q) (h a ha)
