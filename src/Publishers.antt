-- ===== src/Publishers.antt =====
-- crates/sidevers-net/src/provenance.rs: who published an object. A set of publishers is a list, whose
-- order is not that of the code's sets. Each method holds the mutex from start to end.
pub mod Members
use sidevers_protocol.Cbor.Writer.{Bytes}
use sidevers_protocol.Common.{Bool, true, false, Option, none, some, List, [], ◌∷◌, if◌then◌else◌}
use sidevers_protocol.Common.Eq.{bytes_Eq}
use sidevers_protocol.Table.{Table, lookup, insert, remove}

abbrev pub PublisherTable : Type 0
PublisherTable = Table Bytes (List Bytes)

-- `BTreeSet::contains`
unfoldable pub contains : Bytes → List Bytes → Bool
contains side [] = false
contains side (t ∷ ts) = if bytes_Eq.beq t side then true else contains side ts

-- `BTreeSet::insert`
unfoldable pub add : Bytes → List Bytes → List Bytes
add side set = if contains side set then set else side ∷ set

-- `BTreeSet::remove`
unfoldable pub discard : Bytes → List Bytes → List Bytes
discard side [] = []
discard side (t ∷ ts) = let rest = discard side ts in if bytes_Eq.beq t side then rest else t ∷ rest

-- `unwrap_or_default`
unfoldable pub or_default : Option (List Bytes) → List Bytes
or_default none = []
or_default (some set) = set

unfoldable pub note_publisher : Bytes → Bytes → PublisherTable → PublisherTable
note_publisher hash side tab = insert hash (add side (or_default (lookup hash tab))) tab

unfoldable pub has_publisher : Bytes → Bytes → PublisherTable → Bool
has_publisher hash side tab = elim (lookup hash tab) [ none ↦ false | some set ↦ contains side set ]

-- A set without the side that leaves: gone if it is empty, kept otherwise.
unfoldable pub put_back : Bytes → List Bytes → PublisherTable → Bool × PublisherTable
put_back hash [] tab = (false, remove hash tab)
put_back hash (t ∷ ts) tab = (true, insert hash (t ∷ ts) tab)

unfoldable pub drop_publisher : Bytes → Bytes → PublisherTable → Bool × PublisherTable
drop_publisher hash side tab = elim (lookup hash tab) [
  | none ↦ (false, tab)
  | some set ↦ put_back hash (discard side set) tab
]

unfoldable pub publishers : Bytes → PublisherTable → List Bytes
publishers hash tab = or_default (lookup hash tab)
