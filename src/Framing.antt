-- ===== src/Framing.antt =====
-- crates/sidevers-net/src/framing.rs: envelopes on a stream, each behind its length in four bytes. A
-- stream is the list of the bytes that are sent and not yet received; that a stream breaks is the error
-- `Stream`, and a text of an error is left out.
pub mod RoundTrip
use sidevers_protocol.Cbor.Writer.{Bytes}
use sidevers_protocol.Common.{
  to_be_bytes, from_be_bytes, ℕ, ◌*◌, ◌%◌, ◌^◌, ◌||◌, ◌++◌, ltb, leb, ◌==◌, if◌then◌else◌, length,
  take, drop,
}
use sidevers_protocol.Crypto.{Crypto}
use sidevers_protocol.Envelope.{Envelope, to_wire_bytes}
use sidevers_protocol.Envelope.Signed.{from_wire_bytes}
use sidevers_protocol.Errors.{Error, Result, ok, err, ◌>>=◌}

abbrev pub max_envelope_len : ℕ
max_envelope_len = 64 * 1024

-- The errors of crates/sidevers-net/src/error.rs that framing returns.
pub data NetError : Type 0 where
  stream : NetError
  envelope_too_large : ℕ → ℕ → NetError
  core : Error → NetError

-- What is written, behind what the stream holds; a length is cut to 32 bits in the error.
unfoldable pub send_envelope : Envelope → Bytes → Result NetError Bytes
send_envelope env sent =
    let wire = to_wire_bytes env in
    if ltb max_envelope_len (length wire)
    then err (envelope_too_large (length wire % 2 ^ 32) max_envelope_len)
    else ok (sent ++ (to_be_bytes 4 (length wire % 2 ^ 32) ++ wire))

-- `read_exact` of `n` bytes: the bytes and what is left.
unfoldable pub read_exact : ℕ → Bytes → Result NetError (Bytes × Bytes)
read_exact n sent = if leb n (length sent) then ok (take n sent, drop n sent) else err stream

-- `map_err(Error::Core)`, with what is left on the stream.
unfoldable pub or_core : {A : Type 0} → Bytes → Result Error A → Result NetError (A × Bytes)
or_core rest (ok a) = ok (a, rest)
or_core rest (err e) = err (core e)

module _ (c : Crypto) where
  unfoldable pub recv_frame : ℕ → Bytes → Result NetError (Envelope × Bytes)
  recv_frame len sent =
      if (len == 0) || ltb max_envelope_len len
      then err (envelope_too_large len max_envelope_len)
      else (read_exact len sent >>= λ p. or_core p.1 (from_wire_bytes c p.0))

  unfoldable pub recv_envelope : Bytes → Result NetError (Envelope × Bytes)
  recv_envelope sent = read_exact 4 sent >>= λ p. recv_frame (from_be_bytes p.0) p.1
