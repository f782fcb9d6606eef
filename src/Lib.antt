-- ===== src/Lib.antt =====
-- The Sidevers protocol: canonical CBOR, signed envelopes, replay detection, message payloads, the
-- content-addressed object store and the policies of a node towards its peers.
--
-- The program is a peer-to-peer messaging protocol in Rust. Every message is an envelope: a map in
-- canonical CBOR whose unsigned part is hashed and signed by the sender's side key. A receiver parses
-- and verifies the envelope, tests its freshness, looks its sender and nonce up in a replay cache, and
-- decodes the payload that the message type names. A node reads envelopes off a stream, limits what a
-- peer may send, keeps tables of peers and publishers, and stores objects under the hash of their
-- bytes, large ones in chunks that a manifest lists. This library models these parts.
--
-- Files, with the code that they model:
--   Common         lists, bytes, tests and decidable equality, shared by all files
--   Errors         crates/sidevers-core/src/error.rs and Rust's `?`
--   Table          the hash map of the standard library, as an association list
--   Cbor           crates/sidevers-core/src/cbor.rs: Cbor/Writer is `CborWriter` and the helpers,
--                  Cbor/Reader is `CborReader` as a state monad with errors; Cbor/Reads is the
--                  logic of readers (`Reads`: a reader takes exactly these bytes; `Parses`: what a
--                  reader accepts satisfies a relation), Cbor/Head and Cbor/Items are about the head
--                  of an item and about items, Cbor/Field, Cbor/Array and Cbor/Struct about maps and
--                  arrays, Cbor/Nullable, Cbor/Boolean and Cbor/Spelled about other values,
--                  Cbor/Dictionary about sorted maps from text, and Cbor/Codec is the interface
--                  that a payload's encoder and decoder fill
--   Signing        what the signed values share: a map with one entry for the signature of the digest of
--                  the other entries, `check_signature` and its comparison of a second encoding
--   Messages       crates/sidevers-core/src/messages/{rendezvous,forward,peer,direct,handshake,
--                  device,public,retirement,storage_prefs,verse}.rs, and
--                  crates/sidevers-net/src/storage_protocol.rs: for each payload a record,
--                  `entries`, `encode`, `body` (the reads of `decode`) and `decode`, for a signed
--                  one also `unsigned`, `sign` and `verify`; Messages/{Accepted,Plain,Devices,
--                  Members,Sides} are about what the decoders accept, Messages/Separation about the
--                  bytes that are signed for each kind of value
--   Linkage        crates/sidevers-core/src/linkage.rs: `LinkageProof`
--   Storage        crates/sidevers-storage/src: Storage/Objects is object.rs, a table of rows and a map
--                  of files (Objects/Keys: their addresses; Objects/Contents and
--                  Objects/Refinement: the map from addresses to contents that they stand for;
--                  Objects/Eviction, Objects/Budget and Objects/Recency: eviction; Objects/Rows
--                  and Objects/Pins: what operations leave of a row, and what a pin keeps), Storage/References is reference.rs, Storage/Manifest
--                  and Storage/Chunks are chunking.rs
--   Crypto         the crates blake3 and ed25519-dalek, as a parameter with documented laws
--   Envelope       crates/sidevers-core/src/envelope.rs: `encode_unsigned`, `to_wire_bytes`,
--                  `sign_with`, `from_wire_bytes`, `check_freshness` and `category`
--   Replay         crates/sidevers-core/src/replay.rs: `ReplayCache`, each method a function from the
--                  state to the state
--   Gossip         crates/sidevers-net/src/gossip.rs: `GossipState`
--   Mailbox        crates/sidevers-net/src/forward.rs: `Mailbox`, with the clock as an argument
--   Framing        crates/sidevers-net/src/framing.rs, on a stream that is a list of bytes
--   Peers          crates/sidevers-net/src/peers.rs: `PeerTable`
--   Publishers     crates/sidevers-net/src/provenance.rs: `PublisherTable`
--   Reputation     crates/sidevers-net/src/reputation.rs: the reputations of peers and their token
--                  buckets; Reputation/Sybil is the tracker of fresh identities
--   Session        crates/sidevers-net/src/session.rs: `Intent` and what it accepts
--   Verse          crates/sidevers-core/src/verse.rs: what the rules of a contract are and how an
--                  amendment is classified; Verse/{Fields,Policies,Contract} are the encodings of
--                  contracts and their signature, Verse/MembershipToken is the token of a member
--   Tests          a cryptographic library to compute with, and the theorems at concrete inputs
--
-- Numbers are natural numbers; `usize` has 64 bits, and a reader fails where its position leaves it.
-- Bytes are numbers below 256 where a theorem needs it. Text is its UTF-8 bytes. The texts in errors
-- are left out. A reader holds the position and the bytes that are left. The loop over the expected
-- keys of a map is unrolled. A `BTreeMap` is the list of its entries, in the order of the encoded keys
-- where it is encoded. `trim` runs on fuel, one round for each entry, and each round removes one;
-- `chunks` runs on as much fuel as there are bytes. The decoder of references counts down the levels
-- that are left, 65 at first. Tokens are whole numbers, where the code has floating-point ones.
--
-- Not modelled: input and output, the runtime, SQLite itself (the store's statements are modelled by
-- what they do), the bindings and the user interfaces, `assert_canonical` (it calls another CBOR
-- library), the profile and the direct message (they skip values of unknown keys), the payloads that
-- hold another signed value (page deliver, directory entry, contract deliver, verse amend), the codes
-- in base 32 that a camera reads, the encryption of posts, and the other network policies.
pub mod Common
pub mod Errors
pub mod Table
pub mod Cbor
pub mod Messages
pub mod Crypto
pub mod Envelope
pub mod Replay
pub mod Gossip
pub mod Mailbox
pub mod Linkage
pub mod Framing
pub mod Peers
pub mod Publishers
pub mod Reputation
pub mod Session
pub mod Signing
pub mod Storage
pub mod Verse
pub mod Tests
