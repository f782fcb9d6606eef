-- ===== src/Cbor/Reader.antt =====
-- `CborReader` of crates/sidevers-core/src/cbor.rs. A reader is its position and the bytes that are
-- left, `buf[pos..]`. Lengths are 64-bit, so `arg as usize` is `arg`.
use sidevers_protocol.Common.{
  ℕ, ◌+◌, ◌/◌, ◌^◌, Bool, true, false, Option, none, some, [], ◌∷◌, leb, ltb, ◌==◌, if◌then◌else◌,
  length, take, drop, bit_and, from_be_bytes,
}
use sidevers_protocol.Errors.{Error, Result, ok, err, cbor_decode, cbor_not_canonical}
use sidevers_protocol.Cbor.Writer.{Bytes, simple_false, simple_true, simple_null}
use sidevers_protocol.Cbor.Utf8.{valid_utf8}

pub record CborReader : Type 0 where
  pub pos : ℕ
  pub rest : Bytes

abbrev pub usize_mod : ℕ
usize_mod = 2 ^ 64

abbrev pub max_cbor_entries : ℕ
max_cbor_entries = 2 ^ 20

-- A method that reads: an error leaves the reader to be dropped, as `?` does in every caller.
abbrev pub Read : Type 0 → Type 0
Read A = CborReader → Result Error (A × CborReader)

unfoldable pub continue :
    {A B : Type 0} → (A → Read B) → Result Error (A × CborReader) → Result Error (B × CborReader)
continue f (ok (a, r)) = f a r
continue f (err e) = err e

infixl 5 ◌>>=◌ ◌>>◌
unfoldable pub ◌>>=◌ : {A B : Type 0} → Read A → (A → Read B) → Read B
◌>>=◌ m f r = continue f (m r)

abbrev pub ◌>>◌ : {B : Type 0} → Read (Unit {0}) → Read B → Read B
m >> k = m >>= λ _. k

unfoldable pub pure : {A : Type 0} → A → Read A
pure a r = ok (a, r)

unfoldable pub fail : {A : Type 0} → Error → Read A
fail e r = err e

-- `if !test { return Err(e) }`
unfoldable pub require : Bool → Error → Read (Unit {0})
require true e = pure tt
require false e = fail e

-- `CborReader::new`
unfoldable pub reader : Bytes → CborReader
reader buf = record { pos = 0; rest = buf }

unfoldable pub at_end : CborReader → Bool
at_end r = elim r.rest [ [] ↦ true | b ∷ bs ↦ false ]

unfoldable pub take_byte : ℕ → Bytes → Result Error (ℕ × CborReader)
take_byte p [] = err cbor_decode
take_byte p (b ∷ bs) = ok (b, record { pos = p + 1; rest = bs })

unfoldable pub read_byte : Read ℕ
read_byte r = take_byte r.pos r.rest

-- `checked_add` fails where the sum leaves `usize`.
unfoldable pub read_n : ℕ → Read Bytes
read_n n r =
    if leb usize_mod (r.pos + n)
    then err cbor_decode
    else if ltb (length r.rest) n
    then err cbor_decode
    else ok (take n r.rest, record { pos = r.pos + n; rest = drop n r.rest })

-- The arms 25, 26 and 27 of `read_head`: `n` bytes, whose value must exceed `floor`.
unfoldable pub read_long : ℕ → ℕ → Read ℕ
read_long n floor = do
  bs ← read_n n
  if leb (from_be_bytes bs) floor then fail cbor_not_canonical else pure (from_be_bytes bs)

-- The arm 24.
unfoldable pub read_short : Read ℕ
read_short = do b ← read_byte; if ltb b 24 then fail cbor_not_canonical else pure b

-- `match info`
unfoldable pub read_argument : ℕ → Read ℕ
read_argument info =
    if leb info 23
    then pure info
    else if info == 24
    then read_short
    else if info == 25
    then read_long 2 0xff
    else if info == 26
    then read_long 4 0xffff
    else if info == 27
    then read_long 8 0xffff_ffff
    else if leb info 30
    then fail cbor_decode
    else fail cbor_not_canonical

unfoldable pub read_head : Read (ℕ × ℕ)
read_head = do ib ← read_byte; arg ← read_argument (bit_and ib 0x1f); pure (ib / 32, arg)

-- `read_head`, then `if major != expected { return Err(..) }`.
unfoldable pub read_major : ℕ → Read ℕ
read_major expected = do (major, arg) ← read_head; require (major == expected) cbor_decode; pure arg

unfoldable pub read_u64 : Read ℕ
read_u64 = read_major 0

unfoldable pub read_bytes : Read Bytes
read_bytes = do arg ← read_major 2; read_n arg

unfoldable pub read_text : Read Bytes
read_text = do
  arg ← read_major 3
  slice ← read_n arg
  require (valid_utf8 slice) cbor_decode
  pure slice

unfoldable pub or_null : ℕ → Bytes → Read (Option Bytes)
or_null peek after =
    if peek == simple_null
    then (λ r. ok (none, record { pos = r.pos + 1; rest = after }))
    else (do b ← read_bytes; pure (some b))

-- A byte string, or null for `None`.
unfoldable pub read_bytes_or_null : Read (Option Bytes)
read_bytes_or_null r = elim r.rest [ [] ↦ err cbor_decode | b ∷ bs ↦ or_null b bs r ]

unfoldable pub read_bool : Read Bool
read_bool = do
  b ← read_byte
  if b == simple_false then pure false else if b == simple_true then pure true else fail cbor_decode

-- A count above `MAX_CBOR_ENTRIES` is refused.
unfoldable pub read_count : ℕ → Read ℕ
read_count major = do
  arg ← read_major major
  require (leb arg max_cbor_entries) cbor_decode
  pure arg

unfoldable pub read_map_header : Read ℕ
read_map_header = read_count 5

unfoldable pub read_array_header : Read ℕ
read_array_header = read_count 4
