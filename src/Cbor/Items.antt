-- ===== src/Cbor/Items.antt =====
-- One CBOR item of each kind that crates/sidevers-core/src/cbor.rs handles: what the encoding helper
-- gives, that the reading method reads it back, and that the method accepts nothing else.
use sidevers_protocol.Cbor.Head.{head, write_head-head}
use sidevers_protocol.Cbor.Head.Parsing.{Parses-read_n, Parses-head}
use sidevers_protocol.Cbor.Head.Reading.{Reads-read_n, Reads-head}
use sidevers_protocol.Cbor.Reader.{
  Read, ◌>>=◌, read_head, read_major, read_n, read_u64, read_bytes, read_text, read_count,
  read_map_header, read_array_header, require, pure, max_cbor_entries, ◌>>◌,
}
use sidevers_protocol.Cbor.Reads.{
  Reads, Parses, Reads-bind, Parses-bind, Reads-checked, Parses-checked, Parses-mono,
}
use sidevers_protocol.Cbor.Utf8.{valid_utf8}
use sidevers_protocol.Cbor.Writer.{
  Bytes, write_u64, write_bytes, write_text, write_array_header, write_map_header, uint, bytes,
  text, key,
}
use sidevers_protocol.Common.{
  ℕ, ◌^◌, ◌≤◌, ◌<◌, ◌≡◌, refl, sym, ap, ◌∙◌, subst, true, [], ◌++◌, length, arith, append-nil,
  ==_iff, leb→le, leb_of_le, IsBytes, ◌==◌, leb,
}
use sidevers_protocol.Errors.{cbor_decode}

-- What the helpers give.
pub uint-head : (n : ℕ) → n < 2 ^ 64 → uint n ≡ head 0 n
unfolding uint write_u64
uint-head n h = write_head-head [] 0 n (omega arith) h

pub bytes-head : (b : Bytes) → length b < 2 ^ 64 → bytes b ≡ head 2 (length b) ++ b
unfolding bytes write_bytes
bytes-head b h = ap (λ (t : Bytes). t ++ b) (write_head-head [] 2 (length b) (omega arith) h)

pub text-head : (t : Bytes) → length t < 2 ^ 64 → text t ≡ head 3 (length t) ++ t
unfolding text write_text
text-head t h = ap (λ (x : Bytes). x ++ t) (write_head-head [] 3 (length t) (omega arith) h)

array_header-head : (w : Bytes) (n : ℕ) → n < 2 ^ 64 → write_array_header w n ≡ w ++ head 4 n
unfolding write_array_header
array_header-head w n h = write_head-head w 4 n (omega arith) h

pub map_header-head : (w : Bytes) (n : ℕ) → n < 2 ^ 64 → write_map_header w n ≡ w ++ head 5 n
unfolding write_map_header
map_header-head w n h = write_head-head w 5 n (omega arith) h

-- `key` and `text` are one function.
key-eq-text : (t : Bytes) → key t ≡ text t
unfolding key text
key-eq-text t = refl

-- Heads of an expected major type.
Reads-major : (m v : ℕ) → m < 8 → v < 2 ^ 64 → Reads (read_major m) (head m v) v
unfolding read_major
Reads-major m v hm hv =
    subst (λ (t : Bytes). Reads (read_major m) t v) (append-nil (head m v))
      (unfold read_major in
        Reads-bind read_head _ (Reads-head m v hm hv)
          (Reads-checked cbor_decode v ((==_iff m m).1 refl)))

Parses-major : (m : ℕ) → Parses (read_major m) (λ v bs. (v < 2 ^ 64) × (bs ≡ head m v))
unfolding read_major
Parses-major m = Parses-bind read_head _ Parses-head λ (k, v) xs (hm, hv, ex).
    Parses-checked (k == m) cbor_decode v (λ e. (hv, rw (append-nil, ex, (==_iff k m).0 e)))

-- Unsigned integers.
pub Reads-u64 : (n : ℕ) → n < 2 ^ 64 → Reads read_u64 (uint n) n
unfolding read_u64
Reads-u64 n h = rw (uint-head n h) (Reads-major 0 n (omega arith) h)

pub Parses-u64 : Parses read_u64 (λ n bs. (n < 2 ^ 64) × (bs ≡ uint n))
unfolding read_u64
Parses-u64 = Parses-mono _ (λ n bs (h, e). (h, e ∙ sym (uint-head n h))) (Parses-major 0)

-- Byte strings.
pub Reads-bytes : (b : Bytes) → length b < 2 ^ 64 → Reads read_bytes (bytes b) b
unfolding read_bytes
Reads-bytes b h = rw (bytes-head b h) (
    Reads-bind (read_major 2) _ (Reads-major 2 (length b) (omega arith) h)
      (Reads-read_n (length b) b refl))

pub Parses-bytes : Parses read_bytes (λ b bs. (length b < 2 ^ 64) × IsBytes b × (bs ≡ bytes b))
unfolding read_bytes
Parses-bytes = Parses-bind (read_major 2) _ (Parses-major 2) λ n xs (hn, ex).
    Parses-mono _
      (λ b ys (ey, el, hb).
        let h : length b < 2 ^ 64 = rw el hn in (h, hb, rw (bytes-head b h, el, ex, ey)))
      (Parses-read_n n)

-- Text.
abbrev check_utf8 : Bytes → Read Bytes
check_utf8 slice = require (valid_utf8 slice) cbor_decode >> pure slice

pub Reads-text : (t : Bytes) → length t < 2 ^ 64 → valid_utf8 t ≡ true → Reads read_text (text t) t
unfolding read_text
Reads-text t h v = rw (text-head t h) (
    Reads-bind (read_major 3) _ (Reads-major 3 (length t) (omega arith) h) (
      subst (λ (x : Bytes). Reads (read_n (length t) >>= check_utf8) x t) (append-nil t)
        (Reads-bind (read_n (length t)) _ (Reads-read_n (length t) t refl)
          (Reads-checked cbor_decode t v))))

pub Parses-text :
    Parses read_text (λ t bs. (length t < 2 ^ 64) × (valid_utf8 t ≡ true) × (bs ≡ text t))
unfolding read_text
Parses-text = Parses-bind (read_major 3) _ (Parses-major 3) λ n xs (hn, ex).
    Parses-bind (read_n n) _ (Parses-read_n n) λ t ys (ey, el, hb).
      let h : length t < 2 ^ 64 = rw el hn in
      Parses-checked (valid_utf8 t) cbor_decode t
        (λ v. (h, v, rw (text-head t h, el, ex, ey, append-nil)))

-- Counts of arrays and maps.
Reads-count : (m n : ℕ) → m < 8 → n ≤ max_cbor_entries → Reads (read_count m) (head m n) n
unfolding read_count
Reads-count m n hm h =
    subst (λ (t : Bytes). Reads (read_count m) t n) (append-nil (head m n))
      (unfold read_count in
        Reads-bind (read_major m) _ (Reads-major m n hm (omega arith))
          (Reads-checked cbor_decode n (leb_of_le n max_cbor_entries h)))

Parses-count : (m : ℕ) → Parses (read_count m) (λ n bs. (n ≤ max_cbor_entries) × (bs ≡ head m n))
unfolding read_count
Parses-count m = Parses-bind (read_major m) _ (Parses-major m) λ n xs (hn, ex).
    Parses-checked (leb n max_cbor_entries) cbor_decode n
      (λ e. (leb→le n max_cbor_entries e, rw (append-nil, ex)))

pub Reads-array_header :
    (n : ℕ) → n ≤ max_cbor_entries → Reads read_array_header (write_array_header [] n) n
unfolding read_array_header
Reads-array_header n h = rw (array_header-head [] n (omega arith)) (Reads-count 4 n (omega arith) h)

pub Reads-map_header :
    (n : ℕ) → n ≤ max_cbor_entries → Reads read_map_header (write_map_header [] n) n
unfolding read_map_header
Reads-map_header n h = rw (map_header-head [] n (omega arith)) (Reads-count 5 n (omega arith) h)

pub Parses-array_header :
    Parses read_array_header (λ n bs. (n ≤ max_cbor_entries) × (bs ≡ write_array_header [] n))
unfolding read_array_header
Parses-array_header =
    Parses-mono _ (λ n bs (h, e). (h, e ∙ sym (array_header-head [] n (omega arith))))
      (Parses-count 4)

pub Parses-map_header :
    Parses read_map_header (λ n bs. (n ≤ max_cbor_entries) × (bs ≡ write_map_header [] n))
unfolding read_map_header
Parses-map_header =
    Parses-mono _ (λ n bs (h, e). (h, e ∙ sym (map_header-head [] n (omega arith))))
      (Parses-count 5)
