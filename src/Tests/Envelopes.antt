-- ===== src/Tests/Envelopes.antt =====
-- The theorems on envelopes at a sample.
use sidevers_protocol.Common.{
  ◌≡◌, refl, true, some, [], ◌∷◌, arith, ◌≤◌, ◌<◌, ◌+◌, ◌↔◌, ◌⊎◌, length, leb→le, suc,
}
use sidevers_protocol.Cbor.Codec.{decode_whole}
use sidevers_protocol.Cbor.Reader.{usize_mod}
use sidevers_protocol.Cbor.Writer.{
  encode_map, write_entries, write_map_header, write_head, key, uint, bytes, write_text,
  write_bytes, write_u64,
}
use sidevers_protocol.Cbor.Optional.{bytes_or_null}
use sidevers_protocol.Common.{to_be_bytes}
use sidevers_protocol.Envelope.{to_wire_bytes, encode_unsigned, fields, check_freshness}
use sidevers_protocol.Envelope.Checks.{check_freshness_iff}
use sidevers_protocol.Envelope.Signed.{from_wire_bytes, sign_with, verify_fields}
use sidevers_protocol.Envelope.Unsigned.{encode_unsigned-injective, unsign}
use sidevers_protocol.Envelope.Verify.{
  from_wire_bytes-sign_with, from_wire_bytes_sound, canonical_check_redundant, IsVerified,
}
use sidevers_protocol.Envelope.Wire.{IsEnvelope}
use sidevers_protocol.Errors.{◌>>=◌, ok, err, timestamp_skewed}
use sidevers_protocol.Tests.Samples.{
  fill, fill-IsArray, toy, toy-IsSound, sample, sample-fits, sample-IsBytes,
}

from_wire_bytes-sign_with_example : from_wire_bytes toy (to_wire_bytes sample) ≡ ok sample
from_wire_bytes-sign_with_example =
    from_wire_bytes-sign_with toy toy-IsSound 0x20 true (some (fill 32 4)) (1 ∷ 2 ∷ 3 ∷ [])
      1700000000 (fill 16 5) (omega arith) (fill-IsArray 32 4 (omega arith))
      (omega arith, (omega arith, (omega arith, (omega arith, tt)))) (omega arith)
      (fill-IsArray 16 5 (omega arith)) sample-fits

sample-accepted : from_wire_bytes toy (to_wire_bytes sample) ≡ ok sample
sample-accepted =
    from_wire_bytes-sign_with toy toy-IsSound 0x20 true (some (fill 32 4)) (1 ∷ 2 ∷ 3 ∷ [])
      1700000000 (fill 16 5) (omega arith) (fill-IsArray 32 4 (omega arith))
      (omega arith, (omega arith, (omega arith, (omega arith, tt)))) (omega arith)
      (fill-IsArray 16 5 (omega arith)) sample-fits

from_wire_bytes_sound_example :
    (to_wire_bytes sample ≡ to_wire_bytes sample) × IsEnvelope sample × IsVerified toy sample
from_wire_bytes_sound_example =
    from_wire_bytes_sound toy (to_wire_bytes sample) sample sample-IsBytes sample-accepted

pub sample-parts : IsEnvelope sample × IsVerified toy sample
sample-parts =
    let r =
      from_wire_bytes_sound toy (to_wire_bytes sample) sample sample-IsBytes sample-accepted in
    (r.1, r.2)

canonical_check_redundant_example :
    from_wire_bytes toy (to_wire_bytes sample)
    ≡ (decode_whole fields (to_wire_bytes sample) >>= verify_fields toy)
canonical_check_redundant_example =
    canonical_check_redundant toy (to_wire_bytes sample) sample-IsBytes

unsigned-fits : length (encode_unsigned sample) < usize_mod
unfolding encode_map write_entries write_map_header write_head key uint bytes write_text write_bytes
    write_u64 bytes_or_null fill sign_with encode_unsigned to_be_bytes
unsigned-fits = leb→le (suc (length (encode_unsigned sample))) usize_mod refl

encode_unsigned-injective_example : unsign sample ≡ unsign sample
encode_unsigned-injective_example =
    encode_unsigned-injective sample sample sample-parts.0 sample-parts.0 unsigned-fits refl

check_freshness_iff_example :
    ((check_freshness sample 1700000030 60 ≡ ok tt)
      ↔ ((1700000030 ≤ sample.timestamp + 60) × (sample.timestamp ≤ 1700000030 + 60)))
    × ((check_freshness sample 1700000030 60 ≡ err (timestamp_skewed 60))
        ↔ ((sample.timestamp + 60 < 1700000030) ⊎ (1700000030 + 60 < sample.timestamp)))
check_freshness_iff_example = check_freshness_iff sample 1700000030 60
