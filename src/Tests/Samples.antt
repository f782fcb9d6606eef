-- ===== src/Tests/Samples.antt =====
-- A cryptographic library that can be computed with, and sample values.
use sidevers_protocol.Cbor.Field.{IsArray}
use sidevers_protocol.Cbor.Optional.{bytes_or_null}
use sidevers_protocol.Cbor.Reader.{usize_mod}
use sidevers_protocol.Cbor.Writer.{
  Bytes, write_head, write_u64, write_bytes, write_text, write_map_header, key, uint, bytes,
  write_entries, encode_map,
}
use sidevers_protocol.Common.{
  to_be_bytes, bytes_eq, IsBytes, bytes_eq_self, ℕ, zero, suc, ◌+◌, ◌%◌, ◌<◌, ◌≡◌, refl, ap, inl,
  inr, Bool, true, false, ◌||◌, some, [], ◌∷◌, arith, ltb, if◌then◌else◌, Bool-cases, length,
  leb→le,
}
use sidevers_protocol.Crypto.{Crypto, IsSound}
use sidevers_protocol.Envelope.{Envelope, to_wire_bytes, encode_unsigned}
use sidevers_protocol.Envelope.Signed.{sign_with}

-- `n` times the byte `b`.
unfoldable pub fill : ℕ → ℕ → Bytes
fill zero b = []
fill (suc n) b = b ∷ fill n b

length-fill : (n b : ℕ) → length (fill n b) ≡ n
unfolding fill
length-fill zero b = refl
length-fill (suc n) b = ap suc (length-fill n b)

IsBytes-fill : (n b : ℕ) → b < 256 → IsBytes (fill n b)
unfolding fill
IsBytes-fill zero b h = tt
IsBytes-fill (suc n) b h = (h, IsBytes-fill n b h)

pub fill-IsArray : (n b : ℕ) → b < 256 → IsArray n (fill n b)
fill-IsArray n b h = (length-fill n b, IsBytes-fill n b h)

unfoldable pub all_bytes : Bytes → Bool
all_bytes [] = true
all_bytes (b ∷ bs) = let rest = all_bytes bs in if ltb b 256 then rest else false

pub IsBytes-all_bytes : (bs : Bytes) → all_bytes bs ≡ true → IsBytes bs
unfolding all_bytes
IsBytes-all_bytes [] h = tt
IsBytes-all_bytes (b ∷ bs) h = elim (Bool-cases (ltb b 256)) [
  | inl x ↦ (ground arith, IsBytes-all_bytes bs (rw x at h))
  | inr x ↦ let f : false ≡ true = rw x at h in cc
]

-- The sum of a message, modulo 256: its digest, and each byte of its signature by either key.
unfoldable pub sum_below : (n : ℕ) → Bytes → ℕ
sum_below n [] = n % 256
sum_below n (b ∷ bs) = sum_below (n + b) bs

sum_below-lt : (n : ℕ) (bs : Bytes) → sum_below n bs < 256
unfolding sum_below
sum_below-lt n [] = omega arith
sum_below-lt n (b ∷ bs) = sum_below-lt (n + b) bs

abbrev pub toy : Crypto
toy = record {
  blake3 = λ m. fill 32 (sum_below 0 m);
  SigningKey = Bool;
  public_bytes = λ k. fill 32 (if k then 7 else 9);
  sign = λ k m. fill 64 (sum_below (if k then 7 else 9) m);
  valid_key = λ b. bytes_eq b (fill 32 7) || bytes_eq b (fill 32 9);
  verify = λ b m s. bytes_eq s (fill 64 (sum_below (if bytes_eq b (fill 32 7) then 7 else 9) m));
}

pub toy-IsArray : (m : Bytes) → IsArray 32 (toy.blake3 m)
toy-IsArray m = fill-IsArray 32 _ (sum_below-lt 0 m)

nine_seven : bytes_eq (fill 32 9) (fill 32 7) ≡ false
unfolding fill bytes_eq
nine_seven = refl

pub toy-IsSound : IsSound toy
toy-IsSound = record {
  key_array = keys;
  key_valid = valid;
  sign_array = λ k m. fill-IsArray 64 _ (sum_below-lt _ m);
  sign_valid = verified;
}
  where
    keys : (k : Bool) → IsArray 32 (fill 32 (if k then 7 else 9))
    keys true = fill-IsArray 32 7 (omega arith)
    keys false = fill-IsArray 32 9 (omega arith)

    valid :
        (k : Bool)
        → (bytes_eq (fill 32 (if k then 7 else 9)) (fill 32 7)
            || bytes_eq (fill 32 (if k then 7 else 9)) (fill 32 9))
          ≡ true
    valid true = rw (bytes_eq_self (fill 32 7)) refl
    valid false = rw (nine_seven, bytes_eq_self (fill 32 9)) refl

    verified : (k : Bool) (m : Bytes) → toy.verify (toy.public_bytes k) m (toy.sign k m) ≡ true
    verified true m = rw (bytes_eq_self (fill 32 7)) (bytes_eq_self _)
    verified false m = rw nine_seven (bytes_eq_self _)

-- An envelope to the address 4, 4, .., with the payload `[1, 2, 3]`.
abbrev pub sample : Envelope
sample = sign_with toy 0x20 true (some (fill 32 4)) (1 ∷ 2 ∷ 3 ∷ []) 1700000000 (fill 16 5)

pub sample-fits : length (to_wire_bytes sample) < usize_mod
unfolding to_wire_bytes encode_map write_entries write_map_header write_head key uint bytes
    write_text write_bytes write_u64 bytes_or_null fill sign_with encode_unsigned to_be_bytes
    sum_below
sample-fits = leb→le (suc (length (to_wire_bytes sample))) usize_mod refl

pub sample-IsBytes : IsBytes (to_wire_bytes sample)
unfolding to_wire_bytes encode_map write_entries write_map_header write_head key uint bytes
    write_text write_bytes write_u64 bytes_or_null fill sign_with encode_unsigned to_be_bytes
    sum_below all_bytes
sample-IsBytes = IsBytes-all_bytes (to_wire_bytes sample) refl
