-- ===== src/Messages.antt =====
-- The payloads of crates/sidevers-core/src/messages, one module for each.
pub mod HelloBack
pub mod Hello
pub mod StateDelta
pub mod StateBundleInner
pub mod Relationship
pub mod VerseReconsent
pub mod JoinRequest
pub mod VerseRemove
pub mod VerseLeave
pub mod PairingRequest
pub mod StateBundle
pub mod DeviceRevoke
pub mod SideRetirement
pub mod StoragePreferences
pub mod HandleAttest
pub mod PagePublish
pub mod Announcement
pub mod HandleResolve
pub mod PageFetch
pub mod DataDisposition
pub mod DeltaOp
pub mod StorageOffer
pub mod ContractFetch
pub mod JoinAccept
pub mod JoinDecline
pub mod VersePost
pub mod Devices
pub mod Members
pub mod Sides
pub mod Plain
pub mod Separation
pub mod Accepted
pub mod Rendezvous
pub mod RendezvousAck
pub mod ForwardStore
pub mod ForwardDeliver
pub mod ReceiptStatus
pub mod TypingState
pub mod DirectReceipt
pub mod DirectTyping
pub mod Confirm
pub mod ByteRange
pub mod StorageGet
pub mod StorageHave
pub mod StorageMiss
pub mod StorageWant
pub mod StorageRetract
pub mod PeerAsk
pub mod PeerInfo
pub mod PeerTell
