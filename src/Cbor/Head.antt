-- ===== src/Cbor/Head.antt =====
-- The head of a CBOR item: its shortest form, in five ranges of the value, which is what
-- `write_head` of crates/sidevers-core/src/cbor.rs writes. The children are about the reader.
pub mod Reading
pub mod Parsing
use sidevers_protocol.Cbor.Writer.{Bytes, CborWriter, write_head}
use sidevers_protocol.Common.{
  ℕ, ◌+◌, ◌*◌, ◌%◌, ◌^◌, ◌≤◌, ◌<◌, ◌≡◌, [], ◌∷◌, ◌++◌, leb, if◌then◌else◌, arith, append_assoc,
  to_be_bytes, join_major, leb_of_le, leb_of_gt, Bool-cases, inl, inr,
}

-- The five low bits of the initial byte for a value, and the bytes that follow.
unfoldable pub info_of : ℕ → ℕ
info_of v =
    if leb v 23
    then v
    else if leb v 0xff
    then 24
    else if leb v 0xffff
    then 25
    else if leb v 0xffff_ffff
    then 26
    else 27

unfoldable pub follow : ℕ → Bytes
follow v =
    if leb v 23
    then []
    else if leb v 0xff
    then to_be_bytes 1 v
    else if leb v 0xffff
    then to_be_bytes 2 v
    else if leb v 0xffff_ffff
    then to_be_bytes 4 v
    else to_be_bytes 8 v

-- The shortest head of major type `m` and value `v`.
unfoldable pub head : ℕ → ℕ → Bytes
unfolding info_of follow
head m v = (m * 32 + info_of v) ∷ follow v

-- The five forms, by the range of the value.
pub data Form : ℕ → Type 0 where
  inline : {v : ℕ} → v ≤ 23 → Form v
  byte : {v : ℕ} → 23 < v → v ≤ 0xff → Form v
  short : {v : ℕ} → 0xff < v → v ≤ 0xffff → Form v
  word : {v : ℕ} → 0xffff < v → v ≤ 0xffff_ffff → Form v
  long : {v : ℕ} → 0xffff_ffff < v → v < 2 ^ 64 → Form v

pub Form-cases : (v : ℕ) → v < 2 ^ 64 → Form v
Form-cases v h = elim (Bool-cases (leb v 23)) [
  | inl a ↦ inline (ground arith)
  | inr a ↦ elim (Bool-cases (leb v 0xff)) [
    | inl b ↦ byte (ground arith) (ground arith)
    | inr b ↦ elim (Bool-cases (leb v 0xffff)) [
      | inl c ↦ short (ground arith) (ground arith)
      | inr c ↦ elim (Bool-cases (leb v 0xffff_ffff)) [
        | inl d ↦ word (ground arith) (ground arith)
        | inr d ↦ long (ground arith) h
      ]
    ]
  ]
]

mod_small : (v k : ℕ) → v < k → v % k ≡ v
mod_small v k h = grind arith

-- The initial byte and the bytes that follow it, in each form.
info_follow : (v : ℕ) → Form v → ℕ × Bytes
info_follow v (inline a) = (v, [])
info_follow v (byte a b) = (24, to_be_bytes 1 v)
info_follow v (short a b) = (25, to_be_bytes 2 v)
info_follow v (word a b) = (26, to_be_bytes 4 v)
info_follow v (long a b) = (27, to_be_bytes 8 v)

info_of-Form : (v : ℕ) (f : Form v) → info_of v ≡ (info_follow v f).0
unfolding info_of info_follow
info_of-Form v (inline a) = rw (leb_of_le v 23 a)
info_of-Form v (byte a b) = rw (leb_of_gt v 23 a, leb_of_le v 0xff b)
info_of-Form v (short a b) =
    rw (leb_of_gt v 23 (omega arith), leb_of_gt v 0xff a, leb_of_le v 0xffff b)
info_of-Form v (word a b) = rw (
  leb_of_gt v 23 (omega arith),
  leb_of_gt v 0xff (omega arith),
  leb_of_gt v 0xffff a,
  leb_of_le v 0xffff_ffff b,
)
info_of-Form v (long a b) = rw (
  leb_of_gt v 23 (omega arith),
  leb_of_gt v 0xff (omega arith),
  leb_of_gt v 0xffff (omega arith),
  leb_of_gt v 0xffff_ffff a,
)

follow-Form : (v : ℕ) (f : Form v) → follow v ≡ (info_follow v f).1
unfolding follow info_follow
follow-Form v (inline a) = rw (leb_of_le v 23 a)
follow-Form v (byte a b) = rw (leb_of_gt v 23 a, leb_of_le v 0xff b)
follow-Form v (short a b) =
    rw (leb_of_gt v 23 (omega arith), leb_of_gt v 0xff a, leb_of_le v 0xffff b)
follow-Form v (word a b) = rw (
  leb_of_gt v 23 (omega arith),
  leb_of_gt v 0xff (omega arith),
  leb_of_gt v 0xffff a,
  leb_of_le v 0xffff_ffff b,
)
follow-Form v (long a b) = rw (
  leb_of_gt v 23 (omega arith),
  leb_of_gt v 0xff (omega arith),
  leb_of_gt v 0xffff (omega arith),
  leb_of_gt v 0xffff_ffff a,
)

write_head-head-Form :
    (w : CborWriter) (m v : ℕ) → m < 8 → Form v → write_head w (m * 32) v ≡ w ++ head m v
unfolding write_head head to_be_bytes info_of follow
write_head-head-Form w m v hm (inline a) =
    rw (leb_of_le v 23 a, mod_small v 256 (omega arith), join_major m v hm (omega arith))
write_head-head-Form w m v hm (byte a b) =
    rw (leb_of_gt v 23 a, leb_of_le v 0xff b, join_major m 24 hm (omega arith), append_assoc)
write_head-head-Form w m v hm (short a b) = rw (
  leb_of_gt v 23 (omega arith),
  leb_of_gt v 0xff a,
  leb_of_le v 0xffff b,
  join_major m 25 hm (omega arith),
  mod_small v (2 ^ 16) (omega arith),
  append_assoc,
)
write_head-head-Form w m v hm (word a b) = rw (
  leb_of_gt v 23 (omega arith),
  leb_of_gt v 0xff (omega arith),
  leb_of_gt v 0xffff a,
  leb_of_le v 0xffff_ffff b,
  join_major m 26 hm (omega arith),
  mod_small v (2 ^ 32) (omega arith),
  append_assoc,
)
write_head-head-Form w m v hm (long a b) = rw (
  leb_of_gt v 23 (omega arith),
  leb_of_gt v 0xff (omega arith),
  leb_of_gt v 0xffff (omega arith),
  leb_of_gt v 0xffff_ffff a,
  join_major m 27 hm (omega arith),
  append_assoc,
)

-- The writer appends the shortest head.
pub write_head-head :
    (w : CborWriter) (m v : ℕ) → m < 8 → v < 2 ^ 64 → write_head w (m * 32) v ≡ w ++ head m v
write_head-head w m v hm hv = write_head-head-Form w m v hm (Form-cases v hv)

pub info_of-lt : (v : ℕ) → info_of v < 32
unfolding info_of
info_of-lt v = ground arith
