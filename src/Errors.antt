-- ===== src/Errors.antt =====
-- crates/sidevers-core/src/error.rs: the error type of the protocol core, and fallible results.
-- The human-readable texts that several variants carry are not modelled; numbers and field names are.
use sidevers_protocol.Common.{ℕ, String, Bool, true, false, ◌≡◌, refl}

pub data Error : Type 0 where
  cbor_encode cbor_decode cbor_not_canonical address : Error
  signature_invalid decryption_failed : Error
  timestamp_skewed : ℕ → Error
  replay : Error
  unsupported_version : ℕ → Error
  unknown_type : ℕ → Error
  csprng_unavailable : Error
  bad_field_length : String → ℕ → ℕ → Error
  invariant : Error

pub data Result (E A : Type 0) : Type 0 where
  ok : A → Result E A
  err : E → Result E A

-- Rust's `?` on a result.
infixl 5 ◌>>=◌ ◌>>◌
abbrev pub ◌>>=◌ : {E A B : Type 0} → Result E A → (A → Result E B) → Result E B
ok a >>= f = f a
err e >>= f = err e

abbrev pub ◌>>◌ : {E B : Type 0} → Result E (Unit {0}) → Result E B → Result E B
m >> k = m >>= λ _. k

abbrev pub guard : {E : Type 0} → Bool → E → Result E (Unit {0})
guard true e = ok tt
guard false e = err e

pub guard-eq-ok :
    {E A : Type 0} (t : Bool) (x : E) {m : Result E A} {a : A}
    → (guard t x >> m) ≡ ok a
    → (t ≡ true) × (m ≡ ok a)
guard-eq-ok true x h = (refl, h)
guard-eq-ok false x h = cc

pub bind-eq-ok :
    {E A B : Type 0} (m : Result E A) (f : A → Result E B) {b : B}
    → (m >>= f) ≡ ok b
    → (a : A) × (m ≡ ok a) × (f a ≡ ok b)
bind-eq-ok (ok a) f h = (a, refl, h)
bind-eq-ok (err e) f h = cc

pub guard-true : {E : Type 0} (t : Bool) (x : E) → guard t x ≡ ok tt → t ≡ true
guard-true true x h = refl
guard-true false x h = cc
