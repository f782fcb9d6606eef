-- ===== src/Session.antt =====
-- crates/sidevers-net/src/session.rs: the intents of a session and the messages that each admits.
use sidevers_protocol.Common.{
  ℕ, ◌≤◌, ◌≡◌, ◌↔◌, ◌⊎◌, Bool, true, false, Option, none, some, arith, ◌==◌, if◌then◌else◌,
}
use sidevers_protocol.Envelope.{
  MessageCategory, direct, storage, discovery, verse, public, category,
}

pub data Intent : Type 0 where
  for_direct for_storage for_gossip for_verse for_public_layer : Intent

unfoldable pub as_u8 : Intent → ℕ
as_u8 for_direct = 1
as_u8 for_storage = 2
as_u8 for_gossip = 3
as_u8 for_verse = 4
as_u8 for_public_layer = 5

unfoldable pub from_u8 : ℕ → Option Intent
from_u8 v =
    if v == 1
    then some for_direct
    else if v == 2
    then some for_storage
    else if v == 3
    then some for_gossip
    else if v == 4
    then some for_verse
    else if v == 5
    then some for_public_layer
    else none

-- `match (self, mt.category())`
unfoldable pub admits : Intent → MessageCategory → Bool
admits for_direct direct = true
admits for_storage storage = true
admits for_gossip discovery = true
admits for_gossip public = true
admits for_verse verse = true
admits for_public_layer public = true
admits _ _ = false

unfoldable pub accepts : Intent → ℕ → Bool
accepts i t = admits i (category t)

-- The message types that the protocol gives to an intent.
abbrev pub InRange : Intent → ℕ → Type 0
InRange for_direct t = (0x20 ≤ t) × (t ≤ 0x2f)
InRange for_storage t = (0x30 ≤ t) × (t ≤ 0x3f)
InRange for_gossip t = ((0x40 ≤ t) × (t ≤ 0x4f)) ⊎ ((0x60 ≤ t) × (t ≤ 0x6f))
InRange for_verse t = (0x50 ≤ t) × (t ≤ 0x5f)
InRange for_public_layer t = (0x60 ≤ t) × (t ≤ 0x6f)

-- An intent accepts exactly the message types in its ranges: never one of a handshake.
pub accepts_iff : (i : Intent) (t : ℕ) → t ≤ 0xff → (accepts i t ≡ true) ↔ InRange i t
unfolding accepts admits category
accepts_iff for_direct t h = ground arith
accepts_iff for_storage t h = ground arith
accepts_iff for_gossip t h = ground arith
accepts_iff for_verse t h = ground arith
accepts_iff for_public_layer t h = ground arith

-- A byte is read as an intent exactly if it is that intent's byte.
pub from_u8_iff : (v : ℕ) (i : Intent) → (from_u8 v ≡ some i) ↔ (v ≡ as_u8 i)
unfolding from_u8 as_u8
from_u8_iff v for_direct = ground arith
from_u8_iff v for_storage = ground arith
from_u8_iff v for_gossip = ground arith
from_u8_iff v for_verse = ground arith
from_u8_iff v for_public_layer = ground arith
