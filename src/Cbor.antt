-- ===== src/Cbor.antt =====
-- crates/sidevers-core/src/cbor.rs: deterministic CBOR (RFC 8949 §4.2.1). `Writer`, `Utf8` and
-- `Reader` are the code; `Reads` and `Parses` are two rules of composition for readers; the other
-- modules prove that the reader and the writer agree.
pub mod Writer
pub mod Utf8
pub mod Reader
pub mod Reads
pub mod Head
pub mod Items
pub mod Field
pub mod Codec
pub mod Array
pub mod Struct
pub mod Optional
pub mod Boolean
pub mod Nullable
pub mod Spelled
pub mod Dictionary
