-- ===== src/Common/Bytes.antt =====
-- Bytes and byte strings: the big-endian forms of `u16`, `u32` and `u64` that Rust's
-- `to_be_bytes` and `from_be_bytes` give, byte strings compared as slices are, and the split of
-- CBOR's initial byte into a major type and five low bits.
use Prim.Native.Nat.{ℕ, zero, suc, ◌+◌, ◌*◌, ◌/◌, ◌%◌, ◌^◌, ◌<◌, bit_and, bit_or}
use Prim.Native.Char.{code}
use Prim.Native.String.{String}
use mathlib.Core.Path.{◌≡◌, refl, sym, ap, ◌∙◌, subst}
use mathlib.Core.Logic.{◌↔◌}
use mathlib.Core.Bool.{Bool, true, false, ◌&&◌}
use mathlib.Core.List.{List, [], ◌∷◌, ◌++◌, append-nil, append_assoc}
use native.Mathlib.Omega.{arith}
use native.Mathlib.Nat.{pow-suc}
use sidevers_protocol.Common.Tests.{ltb, ◌==◌, ==_iff, if◌then◌else◌}
use sidevers_protocol.Common.Lists.{length, All, length-append}

abbrev pub IsByte : ℕ → Type 0
IsByte b = b < 256

abbrev pub IsBytes : List ℕ → Type 0
IsBytes bs = All IsByte bs

-- The bytes of an ASCII literal.
abbrev pub codes : String → List ℕ
codes String.[] = []
codes (String.◌∷◌ c s) = code c ∷ codes s

pub IsBytes-append : (xs ys : List ℕ) → IsBytes xs → IsBytes ys → IsBytes (xs ++ ys)
IsBytes-append [] ys hx hy = hy
IsBytes-append (x ∷ xs) ys hx hy = (hx.0, IsBytes-append xs ys hx.1 hy)

pub IsBytes-front : (xs ys : List ℕ) → IsBytes (xs ++ ys) → IsBytes xs
IsBytes-front [] ys h = tt
IsBytes-front (x ∷ xs) ys h = (h.0, IsBytes-front xs ys h.1)

pub IsBytes-back : (xs ys : List ℕ) → IsBytes (xs ++ ys) → IsBytes ys
IsBytes-back [] ys h = h
IsBytes-back (x ∷ xs) ys h = IsBytes-back xs ys h.1

-- The `n` low bytes of `v`, the highest first.
unfoldable pub to_be_bytes : ℕ → ℕ → List ℕ
to_be_bytes zero v = []
to_be_bytes (suc n) v = to_be_bytes n (v / 256) ++ ((v % 256) ∷ [])

unfoldable pub from_be_acc : ℕ → List ℕ → ℕ
from_be_acc acc [] = acc
from_be_acc acc (b ∷ bs) = from_be_acc (acc * 256 + b) bs

unfoldable pub from_be_bytes : List ℕ → ℕ
unfolding from_be_acc
from_be_bytes bs = from_be_acc 0 bs

pub length-to_be_bytes : (n v : ℕ) → length (to_be_bytes n v) ≡ n
unfolding to_be_bytes
length-to_be_bytes zero v = refl
length-to_be_bytes (suc n) v =
    length-append (to_be_bytes n (v / 256)) ((v % 256) ∷ [])
    ∙ omega (arith, length-to_be_bytes n (v / 256))

pub IsBytes-to_be_bytes : (n v : ℕ) → IsBytes (to_be_bytes n v)
unfolding to_be_bytes
IsBytes-to_be_bytes zero v = tt
IsBytes-to_be_bytes (suc n) v =
    IsBytes-append (to_be_bytes n (v / 256)) _ (IsBytes-to_be_bytes n (v / 256)) (omega arith)

from_be_acc-append :
    (acc b : ℕ) (bs : List ℕ) → from_be_acc acc (bs ++ (b ∷ [])) ≡ from_be_acc acc bs * 256 + b
unfolding from_be_acc
from_be_acc-append acc b [] = refl
from_be_acc-append acc b (x ∷ bs) = from_be_acc-append (acc * 256 + x) b bs

-- Reading back the bytes of a number that fits in them gives the number.
pub from_be_bytes-to_be_bytes : (n v : ℕ) → v < 256 ^ n → from_be_bytes (to_be_bytes n v) ≡ v
unfolding from_be_bytes to_be_bytes
from_be_bytes-to_be_bytes zero v h = omega arith
from_be_bytes-to_be_bytes (suc n) v h =
    from_be_acc-append 0 (v % 256) (to_be_bytes n (v / 256))
    ∙ omega (arith, from_be_bytes-to_be_bytes n (v / 256) (omega (arith, pow-suc 256 n)))

resize : {m n : ℕ} (v : ℕ) → m ≡ n → to_be_bytes m v ≡ to_be_bytes n v
resize v e = ap (λ (k : ℕ). to_be_bytes k v) e

high_part : (acc b : ℕ) → b < 256 → (acc * 256 + b) / 256 ≡ acc
high_part acc b h = omega arith

low_part : (acc b : ℕ) → b < 256 → (acc * 256 + b) % 256 ≡ b
low_part acc b h = omega arith

to_be_bytes-from_be_acc :
    (k acc : ℕ) (bs : List ℕ)
    → IsBytes bs
    → to_be_bytes (length bs + k) (from_be_acc acc bs) ≡ to_be_bytes k acc ++ bs
unfolding from_be_acc to_be_bytes
to_be_bytes-from_be_acc k acc [] h =
    let e : 0 + k ≡ k = omega arith in resize acc e ∙ sym (append-nil (to_be_bytes k acc))
to_be_bytes-from_be_acc k acc (b ∷ bs) h =
    let e : suc (length bs) + k ≡ length bs + suc k = omega arith in
    resize (from_be_acc (acc * 256 + b) bs) e
    ∙ to_be_bytes-from_be_acc (suc k) (acc * 256 + b) bs h.1
    ∙ append_assoc (to_be_bytes k ((acc * 256 + b) / 256)) _ bs
    ∙ rw (high_part acc b h.0, low_part acc b h.0)

-- A byte string is the big-endian form, at its own length, of the number that it reads as.
pub to_be_bytes-from_be_bytes :
    (n : ℕ) (bs : List ℕ) → length bs ≡ n → IsBytes bs → to_be_bytes n (from_be_bytes bs) ≡ bs
unfolding from_be_bytes to_be_bytes
to_be_bytes-from_be_bytes n bs e h =
    let p : n ≡ length bs + 0 = omega (arith, e) in
    resize (from_be_acc 0 bs) p ∙ to_be_bytes-from_be_acc 0 0 bs h

from_be_acc-lt :
    (k acc : ℕ) (bs : List ℕ)
    → acc < 256 ^ k
    → IsBytes bs
    → from_be_acc acc bs < 256 ^ (length bs + k)
unfolding from_be_acc
from_be_acc-lt k acc [] h hb =
    subst (λ (n : ℕ). acc < 256 ^ n) (let e : k ≡ 0 + k = omega arith in e) h
from_be_acc-lt k acc (b ∷ bs) h hb =
    subst (λ (n : ℕ). from_be_acc (acc * 256 + b) bs < 256 ^ n)
      (let e : length bs + suc k ≡ suc (length bs) + k = omega arith in e)
      (from_be_acc-lt (suc k) (acc * 256 + b) bs (omega (arith, pow-suc 256 k, hb.0)) hb.1)

pub from_be_bytes-lt :
    (n : ℕ) (bs : List ℕ) → length bs ≡ n → IsBytes bs → from_be_bytes bs < 256 ^ n
unfolding from_be_bytes
from_be_bytes-lt n bs e h =
    subst (λ (k : ℕ). from_be_acc 0 bs < 256 ^ k)
      (let p : length bs + 0 ≡ n = omega (arith, e) in p) (from_be_acc-lt 0 0 bs (omega arith) h)

-- Equality of byte slices, and their lexicographic order.
unfoldable pub bytes_eq : List ℕ → List ℕ → Bool
bytes_eq [] [] = true
bytes_eq [] (y ∷ ys) = false
bytes_eq (x ∷ xs) [] = false
bytes_eq (x ∷ xs) (y ∷ ys) = x == y && bytes_eq xs ys

unfoldable pub bytes_lt : List ℕ → List ℕ → Bool
bytes_lt xs [] = false
bytes_lt [] (y ∷ ys) = true
bytes_lt (x ∷ xs) (y ∷ ys) = if x == y then bytes_lt xs ys else ltb x y

pub bytes_eq_iff : (xs ys : List ℕ) → (bytes_eq xs ys ≡ true) ↔ (xs ≡ ys)
unfolding bytes_eq
bytes_eq_iff [] [] = (λ _. refl, λ _. refl)
bytes_eq_iff [] (y ∷ ys) = (λ e. cc, λ e. cc)
bytes_eq_iff (x ∷ xs) [] = (λ e. cc, λ e. cc)
bytes_eq_iff (x ∷ xs) (y ∷ ys) = let ih = bytes_eq_iff xs ys in ground (arith, ih.0, ih.1)

pub bytes_eq_self : (xs : List ℕ) → bytes_eq xs xs ≡ true
bytes_eq_self xs = (bytes_eq_iff xs xs).1 refl

-- A test that every number below a bound passes, from the bound down.
table : (test : ℕ → Bool) → ℕ → Bool
table test zero = true
table test (suc k) = let rest = table test k in if test k then rest else false

table_lem : (test : ℕ → Bool) (k : ℕ) {i : ℕ} → i < k → table test k ≡ true → test i ≡ true
unfolding table
table_lem test zero small passed = absurd (omega arith)
table_lem test (suc k) {i} small passed = ground (arith, table_lem test k {i = i})

join_table : table (λ x. bit_or (x / 32 * 32) (x % 32) == x) 256 ≡ true
unfolding table
join_table = refl

low_table : table (λ x. bit_and x 0x1f == x % 32) 256 ≡ true
unfolding table
low_table = refl

pub high_five : (m v : ℕ) → v < 32 → (m * 32 + v) / 32 ≡ m
high_five m v h = omega arith

pub low_five : (m v : ℕ) → v < 32 → (m * 32 + v) % 32 ≡ v
low_five m v h = omega arith

-- `major | info` is a sum, for a major type in the three high bits.
pub join_major : (m v : ℕ) → m < 8 → v < 32 → bit_or (m * 32) v ≡ m * 32 + v
join_major m v hm hv =
    rw (high_five m v hv, low_five m v hv) at
      ((==_iff (bit_or ((m * 32 + v) / 32 * 32) ((m * 32 + v) % 32)) (m * 32 + v)).0
        (table_lem _ 256 {i = m * 32 + v} (omega arith) join_table))

-- `ib & 0x1F` is the remainder by 32.
pub split_major : (x : ℕ) → x < 256 → bit_and x 0x1f ≡ x % 32
split_major x h = (==_iff (bit_and x 0x1f) (x % 32)).0 (table_lem _ 256 h low_table)
