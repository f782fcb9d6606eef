-- ===== src/Cbor/Boolean.antt =====
-- `read_bool` of crates/sidevers-core/src/cbor.rs reads what `boolean` writes.
use sidevers_protocol.Cbor.Codec.{Codec}
use sidevers_protocol.Cbor.Head.Parsing.{Parses-byte}
use sidevers_protocol.Cbor.Head.Reading.{Reads-byte}
use sidevers_protocol.Cbor.Reader.{read_byte, read_bool}
use sidevers_protocol.Cbor.Reads.{
  Parses-if, Parses-fail, Reads-bind, Parses-bind, Reads-pure, Parses-pure, Reads, Parses,
}
use sidevers_protocol.Cbor.Writer.{simple_false, simple_true, boolean}
use sidevers_protocol.Common.{◌≡◌, refl, Bool, true, false, ◌==◌, ==_iff}

pub Reads-bool : (b : Bool) → Reads read_bool (boolean b) b
unfolding read_bool boolean
Reads-bool true = Reads-bind read_byte _ (Reads-byte simple_true) (Reads-pure true)
Reads-bool false = Reads-bind read_byte _ (Reads-byte simple_false) (Reads-pure false)

pub Parses-bool : Parses read_bool (λ b bs. Unit {0} × (bs ≡ boolean b))
unfolding read_bool boolean
Parses-bool = Parses-bind read_byte _ Parses-byte λ x xs (ex, hx).
    Parses-if (x == simple_false)
      (λ h. Parses-pure false (tt, rw (ex, (==_iff x simple_false).0 h) refl))
      λ _.
        Parses-if (x == simple_true)
          (λ h. Parses-pure true (tt, rw (ex, (==_iff x simple_true).0 h) refl))
          (λ _. Parses-fail _)

abbrev pub bool_codec : Codec Bool
bool_codec = record {
  encode = boolean;
  body = read_bool;
  Valid = λ _. Unit {0};
  reads = λ b _. Reads-bool b;
  parses = Parses-bool;
}

-- Both Booleans can be encoded.
abbrev pub IsFlag : Bool → Type 0
IsFlag b = Unit {0}
