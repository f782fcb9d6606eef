-- ===== src/Messages/DataDisposition.antt =====
-- `DataDisposition` of crates/sidevers-core/src/messages/verse.rs, whose spellings are three.
use sidevers_protocol.Cbor.Array.{IsText}
use sidevers_protocol.Cbor.Codec.{Codec}
use sidevers_protocol.Cbor.Items.{Reads-text, Parses-text}
use sidevers_protocol.Cbor.Reader.{◌>>=◌, Read, pure, fail, read_text}
use sidevers_protocol.Cbor.Reads.{
  Reads-bind, Parses-bind, Reads-pure, Parses-pure, Parses-fail, Parses-mono, Parses-if, Reads,
  Parses,
}
use sidevers_protocol.Cbor.Utf8.{valid_utf8}
use sidevers_protocol.Cbor.Writer.{Bytes, text}
use sidevers_protocol.Common.{
  bytes_eq, codes, bytes_eq_iff, ◌≡◌, refl, subst, [], append-nil, arith, if◌then◌else◌,
}
use sidevers_protocol.Errors.{cbor_decode}

pub data DataDisposition : Type 0 where
  retain retract transfer : DataDisposition

abbrev pub as_str : DataDisposition → Bytes
as_str retain = codes "retain"
as_str retract = codes "retract"
as_str transfer = codes "transfer"

unfoldable pub parse : Bytes → Read DataDisposition
parse s =
    if bytes_eq s (codes "retain")
    then pure retain
    else if bytes_eq s (codes "retract")
    then pure retract
    else if bytes_eq s (codes "transfer")
    then pure transfer
    else fail cbor_decode

-- `DataDisposition::parse(r.read_text()?)?`
unfoldable pub read_disposition : Read DataDisposition
read_disposition = do s ← read_text; parse s

Reads-parse : (d : DataDisposition) → Reads (parse (as_str d)) [] d
unfolding parse bytes_eq
Reads-parse retain = Reads-pure retain
Reads-parse retract = Reads-pure retract
Reads-parse transfer = Reads-pure transfer

as_str-IsText : (d : DataDisposition) → IsText (as_str d)
unfolding valid_utf8
as_str-IsText retain = (omega arith, refl)
as_str-IsText retract = (omega arith, refl)
as_str-IsText transfer = (omega arith, refl)

pub Reads-disposition : (d : DataDisposition) → Reads read_disposition (text (as_str d)) d
unfolding read_disposition
Reads-disposition d =
    let t = as_str-IsText d in
    subst (λ (x : Bytes). Reads (read_text >>= parse) x d) (append-nil (text (as_str d)))
      (Reads-bind read_text parse (Reads-text (as_str d) t.0 t.1) (Reads-parse d))

Parses-parse : (s : Bytes) → Parses (parse s) (λ d bs. (s ≡ as_str d) × (bs ≡ []))
unfolding parse
Parses-parse s =
    Parses-if (bytes_eq s (codes "retain"))
      (λ h. Parses-pure retain ((bytes_eq_iff s (codes "retain")).0 h, refl))
      λ _.
        Parses-if (bytes_eq s (codes "retract"))
          (λ h. Parses-pure retract ((bytes_eq_iff s (codes "retract")).0 h, refl))
          λ _.
            Parses-if (bytes_eq s (codes "transfer"))
              (λ h. Parses-pure transfer ((bytes_eq_iff s (codes "transfer")).0 h, refl))
              (λ _. Parses-fail _)

pub Parses-disposition : Parses read_disposition (λ d bs. Unit {0} × (bs ≡ text (as_str d)))
unfolding read_disposition
Parses-disposition = Parses-bind read_text parse Parses-text λ s xs (h, v, ex).
    Parses-mono (parse s) (λ d ys (es, ey). (tt, rw (ey, append-nil, ex, es))) (Parses-parse s)

abbrev pub disposition_codec : Codec DataDisposition
disposition_codec = record {
  encode = λ d. text (as_str d);
  body = read_disposition;
  Valid = λ _. Unit {0};
  reads = λ d _. Reads-disposition d;
  parses = Parses-disposition;
}

-- Every disposition can be encoded.
abbrev pub IsDisposition : DataDisposition → Type 0
IsDisposition d = Unit {0}
