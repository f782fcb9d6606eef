-- ===== src/Cbor/Writer.antt =====
-- `CborWriter`, `MapEntry` and the encoding helpers of crates/sidevers-core/src/cbor.rs. A writer is
-- its buffer. `value as u8` keeps the low eight bits, so it is written with its remainder.
use sidevers_protocol.Common.{
  ℕ, ◌-◌, ◌%◌, ◌^◌, Bool, true, ◌&&◌, List, [], ◌∷◌, ◌++◌, leb, if◌then◌else◌, length, bit_or,
  to_be_bytes, bytes_lt,
}
use sidevers_protocol.Common.Int.{ℤ, pos, negsuc}

abbrev pub Bytes : Type 0
Bytes = List ℕ

abbrev pub u64_max : ℕ
u64_max = 2 ^ 64 - 1

-- The six major types, shifted into the three high bits of the initial byte.
abbrev pub mt_uint : ℕ
mt_uint = 0

abbrev pub mt_negint : ℕ
mt_negint = 32

abbrev pub mt_bytes : ℕ
mt_bytes = 64

abbrev pub mt_text : ℕ
mt_text = 96

abbrev pub mt_array : ℕ
mt_array = 128

abbrev pub mt_map : ℕ
mt_map = 160

abbrev pub simple_false : ℕ
simple_false = 0xf4

abbrev pub simple_true : ℕ
simple_true = 0xf5

abbrev pub simple_null : ℕ
simple_null = 0xf6

-- `CborWriter { buf }`
abbrev pub CborWriter : Type 0
CborWriter = Bytes

abbrev pub new : CborWriter
new = []

-- `self.buf.push(b)`
abbrev push : CborWriter → ℕ → CborWriter
push w b = w ++ (b ∷ [])

unfoldable pub write_head : CborWriter → ℕ → ℕ → CborWriter
write_head w major value =
    if leb value 23
    then push w (bit_or major (value % 256))
    else if leb value 0xff
    then push (push w (bit_or major 24)) (value % 256)
    else if leb value 0xffff
    then push w (bit_or major 25) ++ to_be_bytes 2 (value % 2 ^ 16)
    else if leb value 0xffff_ffff
    then push w (bit_or major 26) ++ to_be_bytes 4 (value % 2 ^ 32)
    else push w (bit_or major 27) ++ to_be_bytes 8 value

unfoldable pub write_u64 : CborWriter → ℕ → CborWriter
write_u64 w n = write_head w mt_uint n

-- `negsuc k` is -(k + 1), so `-(n + 1)` is `k`.
unfoldable pub write_i64 : CborWriter → ℤ → CborWriter
write_i64 w (pos n) = write_head w mt_uint n
write_i64 w (negsuc k) = write_head w mt_negint k

unfoldable pub write_bool : CborWriter → Bool → CborWriter
write_bool w b = push w (if b then simple_true else simple_false)

unfoldable pub write_null : CborWriter → CborWriter
write_null w = push w simple_null

unfoldable pub write_bytes : CborWriter → Bytes → CborWriter
write_bytes w bs = write_head w mt_bytes (length bs) ++ bs

-- A `&str` is its UTF-8 bytes.
unfoldable pub write_text : CborWriter → Bytes → CborWriter
write_text w t = write_head w mt_text (length t) ++ t

unfoldable pub write_array_header : CborWriter → ℕ → CborWriter
write_array_header w len = write_head w mt_array len

unfoldable pub write_map_header : CborWriter → ℕ → CborWriter
write_map_header w len = write_head w mt_map len

-- The helpers that encode one item in a fresh writer.
unfoldable pub key : Bytes → Bytes
key t = write_text new t

unfoldable pub uint : ℕ → Bytes
uint n = write_u64 new n

unfoldable pub bytes : Bytes → Bytes
bytes b = write_bytes new b

unfoldable pub text : Bytes → Bytes
text t = write_text new t

unfoldable pub null : Bytes
null = simple_null ∷ []

unfoldable pub boolean : Bool → Bytes
boolean b = (if b then simple_true else simple_false) ∷ []

pub record MapEntry : Type 0 where
  pub key : Bytes
  pub value : Bytes

-- The loop of `encode_map`.
unfoldable pub write_entries : CborWriter → List MapEntry → CborWriter
write_entries w [] = w
write_entries w (e ∷ es) = write_entries ((w ++ e.key) ++ e.value) es

-- The release build: the order of the keys is asserted in debug builds only.
unfoldable pub encode_map : List MapEntry → Bytes
encode_map entries = write_entries (write_map_header new (length entries)) entries

-- `entries.windows(2).all(|w| w[0].key < w[1].key)`
unfoldable pub is_sorted_by_key : List MapEntry → Bool
is_sorted_by_key [] = true
is_sorted_by_key (e ∷ []) = true
is_sorted_by_key (e ∷ f ∷ es) = bytes_lt e.key f.key && is_sorted_by_key (f ∷ es)
