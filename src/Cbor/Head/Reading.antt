-- ===== src/Cbor/Head/Reading.antt =====
-- `read_head` of crates/sidevers-core/src/cbor.rs reads back what was written.
use sidevers_protocol.Cbor.Head.{
  info_of, follow, head, Form, inline, byte, short, word, long, Form-cases, info_of-lt, mod_small,
  info_follow, info_of-Form, follow-Form,
}
use sidevers_protocol.Cbor.Reader.{
  take_byte, read_byte, read_n, read_long, read_short, read_argument, read_head,
}
use sidevers_protocol.Cbor.Reads.{Reads, Reads-bind, Reads-pure}
use sidevers_protocol.Cbor.Writer.{Bytes}
use sidevers_protocol.Common.{
  ℕ, ◌+◌, ◌*◌, ◌%◌, ◌^◌, ◌<◌, ◌≡◌, refl, subst, [], ◌∷◌, length, arith, append-nil, length-append,
  take-append, drop-append, to_be_bytes, length-to_be_bytes, from_be_bytes-to_be_bytes, split_major,
  high_five, low_five, leb_of_le, leb_of_gt, ltb_of_ge,
}

pub Reads-byte : (b : ℕ) → Reads read_byte (b ∷ []) b
unfolding read_byte take_byte
Reads-byte b = record { run = λ p rest h. refl }

pub Reads-read_n : (n : ℕ) (bs : Bytes) → length bs ≡ n → Reads (read_n n) bs bs
unfolding read_n
Reads-read_n n bs e = record {
  run = λ p rest h.
      rw (← e) (ground (arith, length-append bs rest, take-append bs rest, drop-append bs rest));
}

Reads-read_long :
    (n floor v : ℕ) → floor < v → v < 256 ^ n → Reads (read_long n floor) (to_be_bytes n v) v
unfolding read_long
Reads-read_long n floor v lo hi =
    subst (λ (bs : Bytes). Reads (read_long n floor) bs v) (append-nil (to_be_bytes n v))
      (unfold read_long in
        Reads-bind (read_n n) _ (Reads-read_n n _ (length-to_be_bytes n v))
          (rw (from_be_bytes-to_be_bytes n v hi, leb_of_gt v floor lo) (Reads-pure v)))

Reads-Form : (v : ℕ) (f : Form v) → Reads (read_argument (info_follow v f).0) (info_follow v f).1 v
unfolding read_argument info_follow
Reads-Form v (inline a) = rw (leb_of_le v 23 a) (Reads-pure v)
Reads-Form v (byte a b) =
    unfold read_short to_be_bytes in
    Reads-bind read_byte _ (Reads-byte (v % 256))
      (rw (mod_small v 256 (omega arith), ltb_of_ge v 24 a) (Reads-pure v))
Reads-Form v (short a b) = Reads-read_long 2 0xff v a (omega arith)
Reads-Form v (word a b) = Reads-read_long 4 0xffff v a (omega arith)
Reads-Form v (long a b) = Reads-read_long 8 0xffff_ffff v a (omega arith)

Reads-argument : (v : ℕ) → v < 2 ^ 64 → Reads (read_argument (info_of v)) (follow v) v
Reads-argument v h =
    let f = Form-cases v h in rw (info_of-Form v f, follow-Form v f) (Reads-Form v f)

-- Reading a written head gives back its major type and its value, and leaves what follows.
pub Reads-head : (m v : ℕ) → m < 8 → v < 2 ^ 64 → Reads read_head (head m v) (m, v)
unfolding read_head head
Reads-head m v hm hv =
    let b : ℕ = m * 32 + info_of v in
    let lt = info_of-lt v in
    subst (λ (t : Bytes). Reads read_head (b ∷ t) (m, v)) (append-nil (follow v))
      (Reads-bind read_byte _ (Reads-byte b) (
        rw (split_major b (omega (arith, lt)), low_five m (info_of v) lt)
          (Reads-bind (read_argument (info_of v)) _ (Reads-argument v hv)
            (rw (high_five m (info_of v) lt) (Reads-pure (m, v))))))
