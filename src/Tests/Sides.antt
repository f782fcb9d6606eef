-- ===== src/Tests/Sides.antt =====
-- The theorems about signed payloads of Messages/Sides, at samples.
use sidevers_protocol.Cbor.Dictionary.{insert_entry, sort_entries, follows, encode_dictionary}
use sidevers_protocol.Cbor.Field.{concat_map, encode_array}
use sidevers_protocol.Cbor.Nullable.{encode_nullable}
use sidevers_protocol.Cbor.Reader.{usize_mod}
use sidevers_protocol.Cbor.Utf8.{valid_utf8}
use sidevers_protocol.Cbor.Writer.{
  Bytes, write_head, write_u64, write_bytes, write_text, write_array_header, write_map_header, key,
  uint, bytes, text, null, boolean, write_entries, encode_map,
}
use sidevers_protocol.Common.{
  to_be_bytes, bytes_lt, IsBytes, codes, suc, ◌<◌, ◌≡◌, refl, ◌↔◌, true, false, some, [], ◌∷◌,
  arith, leb→le, length,
}
use sidevers_protocol.Errors.{ok}
use sidevers_protocol.Messages.Sides.{sides_iff, sides_signed}
use sidevers_protocol.Tests.Samples.{
  toy, toy-IsSound, fill, fill-IsArray, all_bytes, IsBytes-all_bytes, sum_below,
}
use sidevers_protocol.Messages.HandleAttest
use sidevers_protocol.Messages.PagePublish
use sidevers_protocol.Messages.Announcement
use sidevers_protocol.Messages.SideRetirement
use sidevers_protocol.Messages.StoragePreferences
use sidevers_protocol.Linkage

abbrev handle_attest : HandleAttest.HandleAttestPayload
handle_attest = record {
  side = fill 32 3;
  handle_local = codes "ab";
  domain = codes "ab";
  issued_at = 1700000000;
  signature = fill 64 3;
}

handle_attest-Valid : HandleAttest.Valid handle_attest
unfolding valid_utf8 follows bytes_lt text write_text write_head to_be_bytes
handle_attest-Valid = (
  fill-IsArray 32 3 (omega arith),
  (omega arith, refl),
  omega arith,
  fill-IsArray 64 3 (omega arith),
  (omega arith, refl),
)

abbrev signed_handle_attest : HandleAttest.HandleAttestPayload
signed_handle_attest =
    HandleAttest.sign toy true handle_attest.handle_local handle_attest.domain
      handle_attest.issued_at

handle_attest_fits : length (HandleAttest.to_wire_bytes signed_handle_attest) < usize_mod
unfolding HandleAttest.to_wire_bytes HandleAttest.sign HandleAttest.encode_unsigned encode_map
    write_entries write_map_header write_array_header write_head key uint bytes write_text
    write_bytes write_u64 text null encode_nullable boolean fill encode_array concat_map to_be_bytes
    sum_below encode_dictionary sort_entries insert_entry bytes_lt
handle_attest_fits =
    leb→le (suc (length (HandleAttest.to_wire_bytes signed_handle_attest))) usize_mod refl

abbrev page_publish : PagePublish.PagePublishPayload
page_publish = record {
  side = fill 32 3;
  slug = codes "ab";
  mime = codes "ab";
  content = 1 ∷ 2 ∷ [];
  published_at = 1700000000;
  signature = fill 64 3;
}

page_publish-Valid : PagePublish.Valid page_publish
unfolding valid_utf8 follows bytes_lt text write_text write_head to_be_bytes
page_publish-Valid = (
  (omega arith, refl),
  fill-IsArray 32 3 (omega arith),
  (omega arith, refl),
  omega arith,
  fill-IsArray 64 3 (omega arith),
  omega arith,
)

abbrev signed_page_publish : PagePublish.PagePublishPayload
signed_page_publish =
    PagePublish.sign toy true page_publish.slug page_publish.mime page_publish.content
      page_publish.published_at

page_publish_fits : length (PagePublish.to_wire_bytes signed_page_publish) < usize_mod
unfolding PagePublish.to_wire_bytes PagePublish.sign PagePublish.encode_unsigned encode_map
    write_entries write_map_header write_array_header write_head key uint bytes write_text
    write_bytes write_u64 text null encode_nullable boolean fill encode_array concat_map to_be_bytes
    sum_below encode_dictionary sort_entries insert_entry bytes_lt
page_publish_fits =
    leb→le (suc (length (PagePublish.to_wire_bytes signed_page_publish))) usize_mod refl

abbrev announcement : Announcement.AnnouncementPayload
announcement = record {
  side = fill 32 3;
  body = codes "ab";
  created_at = 1700000000;
  signature = fill 64 3;
}

announcement-Valid : Announcement.Valid announcement
unfolding valid_utf8 follows bytes_lt text write_text write_head to_be_bytes
announcement-Valid = (
  (omega arith, refl),
  fill-IsArray 32 3 (omega arith),
  fill-IsArray 64 3 (omega arith),
  omega arith,
)

abbrev signed_announcement : Announcement.AnnouncementPayload
signed_announcement = Announcement.sign toy true announcement.body announcement.created_at

announcement_fits : length (Announcement.to_wire_bytes signed_announcement) < usize_mod
unfolding Announcement.to_wire_bytes Announcement.sign Announcement.encode_unsigned encode_map
    write_entries write_map_header write_array_header write_head key uint bytes write_text
    write_bytes write_u64 text null encode_nullable boolean fill encode_array concat_map to_be_bytes
    sum_below encode_dictionary sort_entries insert_entry bytes_lt
announcement_fits =
    leb→le (suc (length (Announcement.to_wire_bytes signed_announcement))) usize_mod refl

abbrev side_retirement : SideRetirement.SideRetirementPayload
side_retirement = record {
  side = fill 32 3;
  reason = some (codes "why");
  retired_at = 1700000000;
  signature = fill 64 3;
}

side_retirement-Valid : SideRetirement.Valid side_retirement
unfolding valid_utf8 follows bytes_lt text write_text write_head to_be_bytes
side_retirement-Valid = (
  fill-IsArray 32 3 (omega arith),
  (omega arith, refl),
  fill-IsArray 64 3 (omega arith),
  omega arith,
)

abbrev signed_side_retirement : SideRetirement.SideRetirementPayload
signed_side_retirement =
    SideRetirement.sign toy true side_retirement.retired_at side_retirement.reason

side_retirement_fits : length (SideRetirement.to_wire_bytes signed_side_retirement) < usize_mod
unfolding SideRetirement.to_wire_bytes SideRetirement.sign SideRetirement.encode_unsigned encode_map
    write_entries write_map_header write_array_header write_head key uint bytes write_text
    write_bytes write_u64 text null encode_nullable boolean fill encode_array concat_map to_be_bytes
    sum_below encode_dictionary sort_entries insert_entry bytes_lt
side_retirement_fits =
    leb→le (suc (length (SideRetirement.to_wire_bytes signed_side_retirement))) usize_mod refl

abbrev storage_preferences : StoragePreferences.StoragePreferences
storage_preferences = record {
  side = fill 32 3;
  preferred_providers = fill 32 4 ∷ [];
  max_object_kib = 1700000000;
  retention_hint_secs = 1700000000;
  updated_at = 1700000000;
  signature = fill 64 3;
}

storage_preferences-Valid : StoragePreferences.Valid storage_preferences
unfolding valid_utf8 follows bytes_lt text write_text write_head to_be_bytes
storage_preferences-Valid = (
  fill-IsArray 32 3 (omega arith),
  fill-IsArray 64 3 (omega arith),
  omega arith,
  omega arith,
  (omega arith, (fill-IsArray 32 4 (omega arith), tt)),
  omega arith,
)

abbrev signed_storage_preferences : StoragePreferences.StoragePreferences
signed_storage_preferences =
    StoragePreferences.sign toy true storage_preferences.updated_at
      storage_preferences.max_object_kib storage_preferences.preferred_providers
      storage_preferences.retention_hint_secs

storage_preferences_fits :
    length (StoragePreferences.to_wire_bytes signed_storage_preferences) < usize_mod
unfolding StoragePreferences.to_wire_bytes StoragePreferences.sign
    StoragePreferences.encode_unsigned encode_map write_entries write_map_header write_array_header
    write_head key uint bytes write_text write_bytes write_u64 text null encode_nullable boolean
    fill encode_array concat_map to_be_bytes sum_below encode_dictionary sort_entries insert_entry
    bytes_lt
storage_preferences_fits =
    leb→le (suc (length (StoragePreferences.to_wire_bytes signed_storage_preferences))) usize_mod
      refl

abbrev linkage : Linkage.LinkageProof
linkage = record {
  side_a = fill 32 3;
  side_b = fill 32 3;
  issued_at = 1700000000;
  nonce = fill 16 3;
  sig_a = fill 64 3;
  sig_b = fill 64 3;
}

linkage-Valid : Linkage.Valid linkage
unfolding valid_utf8 follows bytes_lt text write_text write_head to_be_bytes
linkage-Valid = (
  fill-IsArray 16 3 (omega arith),
  fill-IsArray 64 3 (omega arith),
  fill-IsArray 64 3 (omega arith),
  fill-IsArray 32 3 (omega arith),
  fill-IsArray 32 3 (omega arith),
  omega arith,
)

abbrev signed_linkage : Linkage.LinkageProof
signed_linkage = Linkage.sign_with toy true false linkage.issued_at linkage.nonce

linkage_fits : length (Linkage.to_wire_bytes signed_linkage) < usize_mod
unfolding Linkage.to_wire_bytes Linkage.sign_with Linkage.encode_unsigned encode_map write_entries
    write_map_header write_array_header write_head key uint bytes write_text write_bytes write_u64
    text null encode_nullable boolean fill encode_array concat_map to_be_bytes sum_below
    encode_dictionary sort_entries insert_entry bytes_lt
linkage_fits = leb→le (suc (length (Linkage.to_wire_bytes signed_linkage))) usize_mod refl

abbrev wire : Bytes
wire = HandleAttest.to_wire_bytes signed_handle_attest

wire-IsBytes : IsBytes wire
unfolding HandleAttest.to_wire_bytes HandleAttest.sign HandleAttest.encode_unsigned all_bytes
    encode_map write_entries write_map_header write_array_header write_head key uint bytes
    write_text write_bytes write_u64 text null encode_nullable boolean fill encode_array concat_map
    to_be_bytes sum_below encode_dictionary sort_entries insert_entry bytes_lt
wire-IsBytes = IsBytes-all_bytes wire refl

sides_iff_example :
    ((HandleAttest.from_wire_bytes toy wire ≡ ok signed_handle_attest)
      ↔ HandleAttest.Valid signed_handle_attest
        × (wire ≡ HandleAttest.to_wire_bytes signed_handle_attest)
        × HandleAttest.Authentic toy signed_handle_attest)
    × ((PagePublish.from_wire_bytes toy wire ≡ ok signed_page_publish)
        ↔ PagePublish.Valid signed_page_publish
          × (wire ≡ PagePublish.to_wire_bytes signed_page_publish)
          × PagePublish.Authentic toy signed_page_publish)
    × ((Announcement.from_wire_bytes toy wire ≡ ok signed_announcement)
        ↔ Announcement.Valid signed_announcement
          × (wire ≡ Announcement.to_wire_bytes signed_announcement)
          × Announcement.Authentic toy signed_announcement)
    × ((SideRetirement.from_wire_bytes toy wire ≡ ok signed_side_retirement)
        ↔ SideRetirement.Valid signed_side_retirement
          × (wire ≡ SideRetirement.to_wire_bytes signed_side_retirement)
          × SideRetirement.Authentic toy signed_side_retirement)
    × ((StoragePreferences.from_wire_bytes toy wire ≡ ok signed_storage_preferences)
        ↔ StoragePreferences.Valid signed_storage_preferences
          × (wire ≡ StoragePreferences.to_wire_bytes signed_storage_preferences)
          × StoragePreferences.Authentic toy signed_storage_preferences)
    × ((Linkage.from_wire_bytes toy wire ≡ ok signed_linkage)
        ↔ Linkage.Valid signed_linkage
          × (wire ≡ Linkage.to_wire_bytes signed_linkage)
          × Linkage.Authentic toy signed_linkage)
sides_iff_example =
    sides_iff toy wire signed_handle_attest signed_page_publish signed_announcement
      signed_side_retirement signed_storage_preferences signed_linkage wire-IsBytes
      handle_attest_fits

sides_signed_example :
    (HandleAttest.from_wire_bytes toy (HandleAttest.to_wire_bytes signed_handle_attest)
      ≡ ok signed_handle_attest)
    × (PagePublish.from_wire_bytes toy (PagePublish.to_wire_bytes signed_page_publish)
        ≡ ok signed_page_publish)
    × (Announcement.from_wire_bytes toy (Announcement.to_wire_bytes signed_announcement)
        ≡ ok signed_announcement)
    × (SideRetirement.from_wire_bytes toy (SideRetirement.to_wire_bytes signed_side_retirement)
        ≡ ok signed_side_retirement)
    × (StoragePreferences.from_wire_bytes toy
          (StoragePreferences.to_wire_bytes signed_storage_preferences)
        ≡ ok signed_storage_preferences)
    × (Linkage.from_wire_bytes toy (Linkage.to_wire_bytes signed_linkage) ≡ ok signed_linkage)
sides_signed_example =
    sides_signed toy toy-IsSound true false handle_attest page_publish announcement side_retirement
      storage_preferences linkage handle_attest-Valid page_publish-Valid announcement-Valid
      side_retirement-Valid storage_preferences-Valid linkage-Valid handle_attest_fits
      page_publish_fits announcement_fits side_retirement_fits storage_preferences_fits linkage_fits
