-- ===== src/Cbor/Spelled.antt =====
-- A type whose values are spelled as text, such as an enumeration with a variant for other spellings.
use sidevers_protocol.Cbor.Array.{IsText}
use sidevers_protocol.Cbor.Codec.{Codec}
use sidevers_protocol.Cbor.Items.{Reads-text, Parses-text}
use sidevers_protocol.Cbor.Reader.{◌>>=◌, Read, pure, read_text}
use sidevers_protocol.Cbor.Reads.{Reads-bind, Parses-bind, Reads-pure, Parses-pure, Reads, Parses}
use sidevers_protocol.Cbor.Writer.{Bytes, text}
use sidevers_protocol.Common.{◌≡◌, sym, ap, subst, [], append-nil}

-- `T::parse(r.read_text()?)`
unfoldable pub read_spelled : {A : Type 0} → (Bytes → A) → Read A
read_spelled parse = do t ← read_text; pure (parse t)

module _ {A : Type 0} (as_str : A → Bytes) (parse : Bytes → A) where
  -- A value that is spelled in text which is parsed as that value.
  abbrev pub IsSpelled : A → Type 0
  IsSpelled a = IsText (as_str a) × (parse (as_str a) ≡ a)

  pub Reads-read_spelled : (a : A) → IsSpelled a → Reads (read_spelled parse) (text (as_str a)) a
  unfolding read_spelled
  Reads-read_spelled a (h, e) =
      subst (λ (t : Bytes). Reads (read_spelled parse) t a) (append-nil (text (as_str a)))
        (unfold read_spelled in
          Reads-bind read_text _ (Reads-text (as_str a) h.0 h.1)
            (subst (λ (b : A). Reads (pure b) [] a) (sym e) (Reads-pure a)))

  module _ (spelling : (t : Bytes) → as_str (parse t) ≡ t) where
    pub Parses-read_spelled :
        Parses (read_spelled parse) (λ a bs. IsSpelled a × (bs ≡ text (as_str a)))
    unfolding read_spelled
    Parses-read_spelled = Parses-bind read_text _ Parses-text λ t xs (h, v, ex).
        Parses-pure (parse t)
          ((rw (spelling t) (h, v), ap parse (spelling t)), rw (append-nil, ex, spelling t))

    abbrev pub spelled : Codec A
    spelled = record {
      encode = λ a. text (as_str a);
      body = read_spelled parse;
      Valid = IsSpelled;
      reads = Reads-read_spelled;
      parses = Parses-read_spelled;
    }
