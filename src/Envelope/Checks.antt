-- ===== src/Envelope/Checks.antt =====
-- Freshness, message categories and key order in crates/sidevers-core/src/envelope.rs.
use sidevers_protocol.Cbor.Writer.{write_head, write_text, key, is_sorted_by_key}
use sidevers_protocol.Common.{bytes_lt, ℕ, ◌+◌, ◌≤◌, ◌<◌, ◌≡◌, refl, ◌↔◌, ◌⊎◌, true, arith}
use sidevers_protocol.Envelope.{
  Envelope, unsigned_entries, wire_entries, abs_diff, check_freshness, MessageCategory, reserved,
  handshake, direct, storage, discovery, verse, public, future, extension, category,
}
use sidevers_protocol.Errors.{timestamp_skewed, ok, err}

-- `check_freshness` accepts exactly the timestamps at most `max_skew` seconds from `now`, on either
-- side, and its error carries the window.
pub check_freshness_iff :
    (e : Envelope) (now max_skew : ℕ)
    → ((check_freshness e now max_skew ≡ ok tt)
        ↔ ((now ≤ e.timestamp + max_skew) × (e.timestamp ≤ now + max_skew)))
      × ((check_freshness e now max_skew ≡ err (timestamp_skewed max_skew))
          ↔ ((e.timestamp + max_skew < now) ⊎ (now + max_skew < e.timestamp)))
unfolding check_freshness abs_diff
check_freshness_iff e now max_skew =
    ((λ h. ground arith, λ h. ground arith), (λ h. ground arith, λ h. ground arith))

-- Both maps of an envelope have their keys in canonical order, whatever the fields: the assertion of
-- `encode_map` never fails.
pub entries_sorted :
    (e : Envelope)
    → (is_sorted_by_key (unsigned_entries e) ≡ true) × (is_sorted_by_key (wire_entries e) ≡ true)
unfolding is_sorted_by_key bytes_lt key write_text write_head
entries_sorted e = (refl, refl)

-- The range of a category, both ends included.
abbrev range : MessageCategory → ℕ × ℕ
range reserved = (0x00, 0x0f)
range handshake = (0x10, 0x1f)
range direct = (0x20, 0x2f)
range storage = (0x30, 0x3f)
range discovery = (0x40, 0x4f)
range verse = (0x50, 0x5f)
range public = (0x60, 0x6f)
range future = (0x70, 0xef)
range extension = (0xf0, 0xff)

-- For every byte, the category is the one whose range holds it.
pub category_iff :
    (t : ℕ) (k : MessageCategory)
    → t ≤ 0xff
    → (category t ≡ k) ↔ (((range k).0 ≤ t) × (t ≤ (range k).1))
unfolding category
category_iff t reserved h = ground arith
category_iff t _ h = ground arith
