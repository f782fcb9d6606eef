-- ===== src/Cbor/Head/Parsing.antt =====
-- `read_head` of crates/sidevers-core/src/cbor.rs accepts nothing but shortest heads.
use sidevers_protocol.Common.{
  ℕ, ◌+◌, ◌*◌, ◌/◌, ◌%◌, ◌^◌, ◌≤◌, ◌<◌, ◌≡◌, sym, ap, ◌∙◌, subst, [], ◌∷◌, ◌++◌, length, leb, arith,
  take, drop, append-nil, take-append-drop, length-take, to_be_bytes, from_be_bytes,
  to_be_bytes-from_be_bytes, from_be_bytes-lt, split_major, IsBytes, IsBytes-front, bit_and, ◌==◌,
  ltb, leb→le, ==_iff,
}
use sidevers_protocol.Errors.{ok}
use sidevers_protocol.Cbor.Writer.{Bytes}
use sidevers_protocol.Cbor.Reader.{
  CborReader, take_byte, read_byte, read_n, read_long, read_short, read_argument, read_head,
}
use sidevers_protocol.Cbor.Reads.{
  Parses, Parses-bind, Parses-pure, Parses-fail, Parses-if, Parses-mono,
}
use sidevers_protocol.Cbor.Head.{
  info_of, follow, head, Form, inline, byte, short, word, long, mod_small, info_follow,
  info_of-Form, follow-Form,
}

pub Parses-byte : Parses read_byte (λ b bs. (bs ≡ b ∷ []) × (b < 256))
unfolding read_byte take_byte
Parses-byte = record { run = λ r hb e. go r.pos r.rest hb e }
  where
    go :
        (p : ℕ) (xs : Bytes) {b : ℕ} {r' : CborReader}
        → IsBytes xs
        → take_byte p xs ≡ ok (b, r')
        → (bs : Bytes) × (xs ≡ bs ++ r'.rest) × ((bs ≡ b ∷ []) × (b < 256))
    go p [] hb e = cc
    go p (x ∷ xs) {b} {r'} hb e =
        let eb : x ≡ b = cc in
        let er : xs ≡ r'.rest = cc in
        (x ∷ [], ap (λ (t : Bytes). x ∷ t) er, (ap (λ (y : ℕ). y ∷ []) eb, rw (← eb) hb.0))

read_n-eq-ok :
    (n : ℕ) (r : CborReader) {a : Bytes} {r' : CborReader}
    → read_n n r ≡ ok (a, r')
    → (a ≡ take n r.rest) × (r'.rest ≡ drop n r.rest) × (n ≤ length r.rest)
unfolding read_n
read_n-eq-ok n r e = ground arith

pub Parses-read_n : (n : ℕ) → Parses (read_n n) (λ a bs. (bs ≡ a) × (length a ≡ n) × IsBytes a)
Parses-read_n n = record {
  run = λ r hb e.
      let (ea, er, le) = read_n-eq-ok n r e in
      let whole = take-append-drop n r.rest in
      (
        take n r.rest,
        rw (er, whole),
        (
          sym ea,
          rw ea (length-take n r.rest le),
          rw ea (IsBytes-front (take n r.rest) (drop n r.rest) (rw whole hb)),
        ),
      );
}

Parses-read_long :
    (n floor : ℕ)
    → Parses (read_long n floor) (λ v bs. (bs ≡ to_be_bytes n v) × (floor < v) × (v < 256 ^ n))
unfolding read_long
Parses-read_long n floor = Parses-bind (read_n n) _ (Parses-read_n n) λ bs xs (e, el, hb).
    Parses-if (leb (from_be_bytes bs) floor) (λ _. Parses-fail _)
      (λ big. Parses-pure _ (
        append-nil xs ∙ e ∙ sym (to_be_bytes-from_be_bytes n bs el hb),
        ground arith,
        from_be_bytes-lt n bs el hb,
      ))

-- What `read_argument` accepts for given low bits.
abbrev Argument : ℕ → ℕ → Bytes → Type 0
Argument info v bs = (v < 2 ^ 64) × (info ≡ info_of v) × (bs ≡ follow v)

Form-lt : {v : ℕ} → Form v → v < 2 ^ 64
Form-lt (inline a) = omega arith
Form-lt (byte a b) = omega arith
Form-lt (short a b) = omega arith
Form-lt (word a b) = omega arith
Form-lt (long a b) = b

Form-Argument : {v : ℕ} (f : Form v) → Argument (info_follow v f).0 v (info_follow v f).1
Form-Argument {v} f = (Form-lt f, sym (info_of-Form v f), sym (follow-Form v f))

Argument-byte : (b : ℕ) → 23 < b → b ≤ 0xff → Argument 24 b (b ∷ [])
unfolding info_follow to_be_bytes
Argument-byte b lo hi =
    subst (λ (y : ℕ). Argument 24 b (y ∷ [])) (mod_small b 256 (omega arith))
      (Form-Argument (byte lo hi))

Parses-short : Parses read_short (Argument 24)
unfolding read_short
Parses-short = Parses-bind read_byte _ Parses-byte λ b xs (e, hb).
    Parses-if (ltb b 24) (λ _. Parses-fail _)
      λ big. Parses-pure b (rw (append-nil, e) (Argument-byte b (ground arith) (omega arith)))

Parses-two : Parses (read_long 2 0xff) (Argument 25)
unfolding info_follow
Parses-two =
    Parses-mono _ (λ v bs (e, lo, hi). rw e (Form-Argument (short lo (omega arith))))
      (Parses-read_long 2 0xff)

Parses-four : Parses (read_long 4 0xffff) (Argument 26)
unfolding info_follow
Parses-four =
    Parses-mono _ (λ v bs (e, lo, hi). rw e (Form-Argument (word lo (omega arith))))
      (Parses-read_long 4 0xffff)

Parses-eight : Parses (read_long 8 0xffff_ffff) (Argument 27)
unfolding info_follow
Parses-eight =
    Parses-mono _ (λ v bs (e, lo, hi). rw e (Form-Argument (long lo (omega arith))))
      (Parses-read_long 8 0xffff_ffff)

Parses-Argument : (info : ℕ) → info < 32 → Parses (read_argument info) (Argument info)
unfolding read_argument
Parses-Argument info h =
    Parses-if (leb info 23)
      (λ a. Parses-pure info (unfold info_follow in Form-Argument (inline (leb→le _ _ a))))
      λ _.
        Parses-if (info == 24) (λ e. rw ((==_iff _ _).0 e) Parses-short)
          λ _.
            Parses-if (info == 25) (λ e. rw ((==_iff _ _).0 e) Parses-two)
              λ _.
                Parses-if (info == 26) (λ e. rw ((==_iff _ _).0 e) Parses-four)
                  λ _.
                    Parses-if (info == 27) (λ e. rw ((==_iff _ _).0 e) Parses-eight)
                      λ _. Parses-if (leb info 30) (λ _. Parses-fail _) (λ _. Parses-fail _)

-- Whatever head the reader accepts is the shortest head of the value that it returns.
pub Parses-head : Parses read_head (λ (m, v) bs. (m < 8) × (v < 2 ^ 64) × (bs ≡ head m v))
unfolding read_head head
Parses-head = Parses-bind read_byte _ Parses-byte λ ib xs (ex, hb).
    Parses-bind (read_argument (bit_and ib 0x1f)) _
      (Parses-Argument _ (rw (split_major ib hb) (omega arith)))
      λ v ys (hv, ei, ey).
        Parses-pure (ib / 32, v)
          (
            omega (arith, hb),
            hv,
            rw (append-nil, ex, ey, ← ei, split_major ib hb)
                (let e : ib ≡ ib / 32 * 32 + ib % 32 = omega arith in
                  ap (λ (y : ℕ). y ∷ follow v) e),
          )
