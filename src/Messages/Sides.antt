-- ===== src/Messages/Sides.antt =====
-- Which bytes the decoders of signed payloads accept in crates/sidevers-core/src/messages, in public.rs,
-- retirement.rs and storage_prefs.rs, and in crates/sidevers-core/src/linkage.rs, and that what is
-- signed is accepted.
use sidevers_protocol.Cbor.Reader.{usize_mod}
use sidevers_protocol.Cbor.Writer.{Bytes}
use sidevers_protocol.Common.{IsBytes, length, ◌<◌, ◌≡◌, ◌↔◌}
use sidevers_protocol.Crypto.{Crypto, IsSound}
use sidevers_protocol.Errors.{ok}
use sidevers_protocol.Messages.HandleAttest
use sidevers_protocol.Messages.PagePublish
use sidevers_protocol.Messages.Announcement
use sidevers_protocol.Messages.SideRetirement
use sidevers_protocol.Messages.StoragePreferences
use sidevers_protocol.Linkage

-- For what a side signs about itself: the claim of a handle, a page, an announcement, its
-- retirement, its storage preferences and, with another side, a linkage proof: from bytes that fit
-- the address space, the decoder gives a payload exactly if the payload can be encoded, the bytes
-- are its encoding, and every signature in it holds.
pub sides_iff :
    (c : Crypto) (bs : Bytes) (handle_attest : HandleAttest.HandleAttestPayload)
    (page_publish : PagePublish.PagePublishPayload)
    (announcement : Announcement.AnnouncementPayload)
    (side_retirement : SideRetirement.SideRetirementPayload)
    (storage_preferences : StoragePreferences.StoragePreferences) (linkage : Linkage.LinkageProof)
    → IsBytes bs
    → length bs < usize_mod
    → ((HandleAttest.from_wire_bytes c bs ≡ ok handle_attest)
        ↔ HandleAttest.Valid handle_attest
          × (bs ≡ HandleAttest.to_wire_bytes handle_attest)
          × HandleAttest.Authentic c handle_attest)
      × ((PagePublish.from_wire_bytes c bs ≡ ok page_publish)
          ↔ PagePublish.Valid page_publish
            × (bs ≡ PagePublish.to_wire_bytes page_publish)
            × PagePublish.Authentic c page_publish)
      × ((Announcement.from_wire_bytes c bs ≡ ok announcement)
          ↔ Announcement.Valid announcement
            × (bs ≡ Announcement.to_wire_bytes announcement)
            × Announcement.Authentic c announcement)
      × ((SideRetirement.from_wire_bytes c bs ≡ ok side_retirement)
          ↔ SideRetirement.Valid side_retirement
            × (bs ≡ SideRetirement.to_wire_bytes side_retirement)
            × SideRetirement.Authentic c side_retirement)
      × ((StoragePreferences.from_wire_bytes c bs ≡ ok storage_preferences)
          ↔ StoragePreferences.Valid storage_preferences
            × (bs ≡ StoragePreferences.to_wire_bytes storage_preferences)
            × StoragePreferences.Authentic c storage_preferences)
      × ((Linkage.from_wire_bytes c bs ≡ ok linkage)
          ↔ Linkage.Valid linkage
            × (bs ≡ Linkage.to_wire_bytes linkage)
            × Linkage.Authentic c linkage)
sides_iff c bs handle_attest page_publish announcement side_retirement storage_preferences linkage
      hb fits =
    (
      HandleAttest.handle_attest_iff c bs handle_attest hb fits,
      PagePublish.page_publish_iff c bs page_publish hb fits,
      Announcement.announcement_iff c bs announcement hb fits,
      SideRetirement.side_retirement_iff c bs side_retirement hb fits,
      StoragePreferences.storage_preferences_iff c bs storage_preferences hb fits,
      Linkage.linkage_iff c bs linkage hb fits,
    )

-- For what a side signs about itself: the claim of a handle, a page, an announcement, its
-- retirement, its storage preferences and, with another side, a linkage proof: with a sound
-- cryptographic library, what is signed of fields of the right widths and fits the address space is
-- decoded from its own encoding.
pub sides_signed :
    (c : Crypto)
    → IsSound c
    → (k j : c.SigningKey) (handle_attest : HandleAttest.HandleAttestPayload)
      (page_publish : PagePublish.PagePublishPayload)
      (announcement : Announcement.AnnouncementPayload)
      (side_retirement : SideRetirement.SideRetirementPayload)
      (storage_preferences : StoragePreferences.StoragePreferences) (linkage : Linkage.LinkageProof)
    → HandleAttest.Valid handle_attest
    → PagePublish.Valid page_publish
    → Announcement.Valid announcement
    → SideRetirement.Valid side_retirement
    → StoragePreferences.Valid storage_preferences
    → Linkage.Valid linkage
    → length (
        HandleAttest.to_wire_bytes (
          HandleAttest.sign c k handle_attest.handle_local handle_attest.domain
            handle_attest.issued_at))
      < usize_mod
    → length (
        PagePublish.to_wire_bytes (
          PagePublish.sign c k page_publish.slug page_publish.mime page_publish.content
            page_publish.published_at))
      < usize_mod
    → length (
        Announcement.to_wire_bytes
          (Announcement.sign c k announcement.body announcement.created_at))
      < usize_mod
    → length (
        SideRetirement.to_wire_bytes
          (SideRetirement.sign c k side_retirement.retired_at side_retirement.reason))
      < usize_mod
    → length (
        StoragePreferences.to_wire_bytes (
          StoragePreferences.sign c k storage_preferences.updated_at
            storage_preferences.max_object_kib storage_preferences.preferred_providers
            storage_preferences.retention_hint_secs))
      < usize_mod
    → length (Linkage.to_wire_bytes (Linkage.sign_with c k j linkage.issued_at linkage.nonce))
      < usize_mod
    → (HandleAttest.from_wire_bytes c (
          HandleAttest.to_wire_bytes (
            HandleAttest.sign c k handle_attest.handle_local handle_attest.domain
              handle_attest.issued_at))
        ≡ ok (
            HandleAttest.sign c k handle_attest.handle_local handle_attest.domain
              handle_attest.issued_at))
      × (PagePublish.from_wire_bytes c (
            PagePublish.to_wire_bytes (
              PagePublish.sign c k page_publish.slug page_publish.mime page_publish.content
                page_publish.published_at))
          ≡ ok (
              PagePublish.sign c k page_publish.slug page_publish.mime page_publish.content
                page_publish.published_at))
      × (Announcement.from_wire_bytes c (
            Announcement.to_wire_bytes
              (Announcement.sign c k announcement.body announcement.created_at))
          ≡ ok (Announcement.sign c k announcement.body announcement.created_at))
      × (SideRetirement.from_wire_bytes c (
            SideRetirement.to_wire_bytes
              (SideRetirement.sign c k side_retirement.retired_at side_retirement.reason))
          ≡ ok (SideRetirement.sign c k side_retirement.retired_at side_retirement.reason))
      × (StoragePreferences.from_wire_bytes c (
            StoragePreferences.to_wire_bytes (
              StoragePreferences.sign c k storage_preferences.updated_at
                storage_preferences.max_object_kib storage_preferences.preferred_providers
                storage_preferences.retention_hint_secs))
          ≡ ok (
              StoragePreferences.sign c k storage_preferences.updated_at
                storage_preferences.max_object_kib storage_preferences.preferred_providers
                storage_preferences.retention_hint_secs))
      × (Linkage.from_wire_bytes c
            (Linkage.to_wire_bytes (Linkage.sign_with c k j linkage.issued_at linkage.nonce))
          ≡ ok (Linkage.sign_with c k j linkage.issued_at linkage.nonce))
sides_signed c s k j handle_attest page_publish announcement side_retirement storage_preferences
      linkage h0 h1 h2 h3 h4 h5 f0 f1 f2 f3 f4 f5 =
    (
      HandleAttest.sign-handle_attest c s k handle_attest h0 f0,
      PagePublish.sign-page_publish c s k page_publish h1 f1,
      Announcement.sign-announcement c s k announcement h2 f2,
      SideRetirement.sign-side_retirement c s k side_retirement h3 f3,
      StoragePreferences.sign-storage_preferences c s k storage_preferences h4 f4,
      Linkage.sign-linkage c s k j linkage h5 f5,
    )
