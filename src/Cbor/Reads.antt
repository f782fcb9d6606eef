-- ===== src/Cbor/Reads.antt =====
-- Two relations between a reader and bytes, each with a rule for every way to build a reader.
-- `Reads m bs a`: in front of any rest, `m` consumes exactly `bs` and gives `a`.
-- `Parses m P`: whenever `m` succeeds on bytes, what it consumed and what it gave are related by `P`.
use sidevers_protocol.Cbor.Reader.{
  CborReader, Read, usize_mod, ◌>>=◌, ◌>>◌, continue, pure, fail, require,
}
use sidevers_protocol.Cbor.Writer.{Bytes}
use sidevers_protocol.Common.{
  ℕ, ◌+◌, ◌<◌, ◌≡◌, refl, sym, ap, ◌∙◌, subst, Bool, true, false, [], ◌++◌, length, append_assoc,
  length-append, IsBytes, IsBytes-back, arith, if◌then◌else◌, append-nil,
}
use sidevers_protocol.Errors.{Error, Result, ok, err}

-- The reader at position `p` with `bs` left.
abbrev pub at : ℕ → Bytes → CborReader
at p bs = record { pos = p; rest = bs }

pub record Reads {A : Type 0} (m : Read A) (bs : Bytes) (a : A) : Type 0 where
  pub run :
      (p : ℕ) (rest : Bytes)
      → p + length bs + length rest < usize_mod
      → m (at p (bs ++ rest)) ≡ ok (a, at (p + length bs) rest)

pub record Parses {A : Type 0} (m : Read A) (P : A → Bytes → Type 0) : Type 0 where
  pub run :
      (r : CborReader) {a : A} {r' : CborReader}
      → IsBytes r.rest
      → m r ≡ ok (a, r')
      → (bs : Bytes) × (r.rest ≡ bs ++ r'.rest) × P a bs

module _ {A B : Type 0} where
  -- Running the first part of a bind that is known to succeed.
  pub bind_ok :
      (m : Read A) (f : A → Read B) {r r' : CborReader} {a : A}
      → m r ≡ ok (a, r')
      → (m >>= f) r ≡ f a r'
  unfolding ◌>>=◌ continue
  bind_ok m f e = ap (continue f) e

  pub bind-eq-ok :
      (m : Read A) (f : A → Read B) {r r'' : CborReader} {b : B}
      → (m >>= f) r ≡ ok (b, r'')
      → (a : A) × (r' : CborReader) × (m r ≡ ok (a, r')) × (f a r' ≡ ok (b, r''))
  unfolding ◌>>=◌ continue
  bind-eq-ok m f {r} {r''} {b} e = split (m r) refl e
    where
      split :
          (x : Result Error (A × CborReader))
          → m r ≡ x
          → continue f x ≡ ok (b, r'')
          → (a : A) × (r' : CborReader) × (m r ≡ ok (a, r')) × (f a r' ≡ ok (b, r''))
      split (ok (a, r')) p q = (a, r', p, q)
      split (err c) p q = cc

  pub Reads-bind :
      (m : Read A) (f : A → Read B) {xs ys : Bytes} {a : A} {b : B}
      → Reads m xs a
      → Reads (f a) ys b
      → Reads (m >>= f) (xs ++ ys) b
  Reads-bind m f {xs} {ys} {a} {b} hm hf = record {
    run = λ p rest h.
        let e = length-append xs ys in
        rw (append_assoc xs ys rest) (
          bind_ok m f (hm.run p (ys ++ rest) (omega (arith, e, length-append ys rest)))
          ∙ hf.run (p + length xs) rest (omega (arith, e))
          ∙ ap (λ (q : ℕ). ok (b, at q rest))
              (let s : p + length xs + length ys ≡ p + length (xs ++ ys) = omega (arith, e) in s));
  }

  pub Parses-bind :
      (m : Read A) (f : A → Read B) {P : A → Bytes → Type 0} {Q : B → Bytes → Type 0}
      → Parses m P
      → ((a : A) (xs : Bytes) → P a xs → Parses (f a) (λ b ys. Q b (xs ++ ys)))
      → Parses (m >>= f) Q
  Parses-bind m f {P} {Q} hm hf = record {
    run = λ r hb e.
        let (a, r₁, em, ef) = bind-eq-ok m f e in
        let (xs, ex, px) = hm.run r hb em in
        let (ys, ey, qy) = (hf a xs px).run r₁ (IsBytes-back xs r₁.rest (subst IsBytes ex hb)) ef in
        (xs ++ ys, ex ∙ ap (λ (t : Bytes). xs ++ t) ey ∙ sym (append_assoc xs ys _), qy);
  }

module _ {A : Type 0} where
  pub Reads-pure : (a : A) → Reads (pure a) [] a
  unfolding pure
  Reads-pure a = record {
    run = λ p rest h. ap (λ (q : ℕ). ok (a, at q rest)) (let e : p ≡ p + 0 = omega arith in e);
  }

  pub Parses-pure : (a : A) {P : A → Bytes → Type 0} → P a [] → Parses (pure a) P
  unfolding pure
  Parses-pure a {P} h = record { run = λ r b e. ([], cc, subst (λ (x : A). P x []) (cc) h) }

  pub Parses-fail : (e : Error) {P : A → Bytes → Type 0} → Parses (fail e) P
  unfolding fail
  Parses-fail e = record { run = λ r b h. cc }

  pub Parses-mono :
      (m : Read A) {P Q : A → Bytes → Type 0}
      → ((a : A) (bs : Bytes) → P a bs → Q a bs)
      → Parses m P
      → Parses m Q
  Parses-mono m f h = record {
    run = λ r {a} b e. let (bs, s, p) = h.run r b e in (bs, s, f a bs p);
  }

  pub Parses-if :
      (t : Bool) {m n : Read A} {P : A → Bytes → Type 0}
      → (t ≡ true → Parses m P)
      → (t ≡ false → Parses n P)
      → Parses (if t then m else n) P
  Parses-if true hm hn = hm refl
  Parses-if false hm hn = hn refl

pub Reads-require : {t : Bool} (e : Error) → t ≡ true → Reads (require t e) [] tt
unfolding require pure
Reads-require e h = rw h (Reads-pure tt)

pub Parses-require :
    (t : Bool) (e : Error) {P : Unit {0} → Bytes → Type 0}
    → (t ≡ true → P tt [])
    → Parses (require t e) P
unfolding require
Parses-require true e h = Parses-pure tt (h refl)
Parses-require false e h = Parses-fail e

-- A test, then a value.
pub Reads-checked :
    {A : Type 0} {t : Bool} (e : Error) (a : A) → t ≡ true → Reads (require t e >> pure a) [] a
Reads-checked e a h = Reads-bind (require _ e) _ (Reads-require e h) (Reads-pure a)

pub Parses-checked :
    {A : Type 0} (t : Bool) (e : Error) (a : A) {P : A → Bytes → Type 0}
    → (t ≡ true → P a [])
    → Parses (require t e >> pure a) P
Parses-checked t e a {P} h =
    Parses-bind (require t e) _ {P = λ _ ys. P a ys} (Parses-require t e h)
      λ _ ys p. Parses-pure a (subst (P a) (sym (append-nil ys)) p)

-- What a reader gives for the same bytes is one value.
pub Reads-injective :
    {A : Type 0} (m : Read A) (bs : Bytes) (a b : A)
    → length bs < usize_mod
    → Reads m bs a
    → Reads m bs b
    → a ≡ b
Reads-injective m bs a b fits ha hb =
    let e = sym (ha.run 0 [] (omega arith)) ∙ hb.run 0 [] (omega arith) in cc
