-- ===== src/Tests/Separation.antt =====
-- What is signed tells its kind, at two announcements that differ in their signatures.
use sidevers_protocol.Messages.Announcement
use sidevers_protocol.Cbor.Reader.{usize_mod}
use sidevers_protocol.Cbor.Utf8.{valid_utf8}
use sidevers_protocol.Cbor.Writer.{
  write_head, write_u64, write_bytes, write_text, write_map_header, key, uint, bytes, text,
  write_entries, encode_map,
}
use sidevers_protocol.Common.{to_be_bytes, codes, suc, ◌<◌, ◌≡◌, refl, arith, leb→le, length}
use sidevers_protocol.Messages.Separation.{kind_of, a_announcement, signed_bytes}
use sidevers_protocol.Messages.Separation.Kinds.{signed_bytes-kind_of}
use sidevers_protocol.Tests.Samples.{fill, fill-IsArray}

abbrev news : Announcement.AnnouncementPayload
news = record { side = fill 32 3; body = codes "open"; created_at = 9; signature = fill 64 1 }

abbrev resigned : Announcement.AnnouncementPayload
resigned = record { side = fill 32 3; body = codes "open"; created_at = 9; signature = fill 64 2 }

news-Valid : Announcement.Valid news
unfolding valid_utf8
news-Valid = (
  (omega arith, refl),
  fill-IsArray 32 3 (omega arith),
  fill-IsArray 64 1 (omega arith),
  omega arith,
)

resigned-Valid : Announcement.Valid resigned
unfolding valid_utf8
resigned-Valid = (
  (omega arith, refl),
  fill-IsArray 32 3 (omega arith),
  fill-IsArray 64 2 (omega arith),
  omega arith,
)

news-fits : length (signed_bytes (a_announcement news)) < usize_mod
unfolding Announcement.encode_unsigned encode_map write_entries write_map_header write_head key uint
    bytes write_text write_bytes write_u64 text fill to_be_bytes
news-fits = leb→le (suc (length (signed_bytes (a_announcement news)))) usize_mod refl

same_bytes : signed_bytes (a_announcement news) ≡ signed_bytes (a_announcement resigned)
unfolding Announcement.encode_unsigned
same_bytes = refl

signed_bytes-kind_of_example : kind_of (a_announcement news) ≡ kind_of (a_announcement resigned)
signed_bytes-kind_of_example =
    signed_bytes-kind_of (a_announcement news) (a_announcement resigned) news-Valid resigned-Valid
      news-fits same_bytes
