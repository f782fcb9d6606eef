-- ===== src/Peers.antt =====
-- crates/sidevers-net/src/peers.rs: the table of known peers. The clock's time is an argument; the order
-- of the table stands for the order in which the code's map is walked. Each method holds the lock from
-- start to end.
pub mod Bounds
pub mod Oldest
pub mod Sample
use sidevers_protocol.Cbor.Writer.{Bytes}
use sidevers_protocol.Common.{
  ℕ, Bool, true, false, not, ◌&&◌, Option, none, some, List, [], ◌∷◌, ltb, leb, ◌==◌, if◌then◌else◌,
  length, take,
}
use sidevers_protocol.Common.Eq.{bytes_Eq}
use sidevers_protocol.Errors.{address}
use sidevers_protocol.Messages.PeerInfo.{PeerInfo}
use sidevers_protocol.Table.{Table, lookup, insert, remove}

abbrev pub default_max_peers : ℕ
default_max_peers = 256

pub record PeerTable : Type 0 where
  pub peers : Table Bytes PeerInfo
  pub max : ℕ

unfoldable pub new_table : ℕ → PeerTable
new_table max = record { peers = []; max = max }

-- `min_by_key`: of several peers seen at the least time, the first.
unfoldable pub least_seen : Bytes → ℕ → Table Bytes PeerInfo → Bytes
least_seen k t [] = k
least_seen k t ((j, p) ∷ m) =
    if ltb p.last_seen t then least_seen j p.last_seen m else least_seen k t m

unfoldable pub drop_oldest : Table Bytes PeerInfo → Table Bytes PeerInfo
drop_oldest [] = []
drop_oldest ((k, p) ∷ m) = remove (least_seen k p.last_seen m) ((k, p) ∷ m)

unfoldable pub contains_key : Bytes → Table Bytes PeerInfo → Bool
contains_key k m = elim (lookup k m) [ none ↦ false | some p ↦ true ]

unfoldable pub make_room : PeerInfo → PeerTable → Table Bytes PeerInfo
make_room info t =
    if not (contains_key info.address t.peers) && leb t.max (length t.peers)
    then drop_oldest t.peers
    else t.peers

unfoldable pub insert_peer : PeerInfo → PeerTable → PeerTable
insert_peer info t = record t { peers = insert info.address info (make_room info t) }

unfoldable pub touch : ℕ → Bytes → PeerTable → PeerTable
touch now peer t = elim (lookup peer t.peers) [
  | none ↦ t
  | some p ↦ record t { peers = insert peer (record p { last_seen = now }) t.peers }
]

unfoldable pub get_peer : Bytes → PeerTable → Option PeerInfo
get_peer peer t = lookup peer t.peers

unfoldable pub remove_peer : Bytes → PeerTable → PeerTable
remove_peer peer t = record t { peers = remove peer t.peers }

-- `p.intents.contains(&want)`
unfoldable pub has_intent : ℕ → List ℕ → Bool
has_intent want [] = false
has_intent want (i ∷ is) = if i == want then true else has_intent want is

unfoldable pub wanted : Option ℕ → PeerInfo → Bool
wanted none p = true
wanted (some want) p = has_intent want p.intents

unfoldable pub matching : Option ℕ → Table Bytes PeerInfo → List PeerInfo
matching filter [] = []
matching filter ((k, p) ∷ m) =
    let rest = matching filter m in if wanted filter p then p ∷ rest else rest

unfoldable pub insert_fresh : PeerInfo → List PeerInfo → List PeerInfo
insert_fresh p [] = p ∷ []
insert_fresh p (q ∷ qs) =
    let rest = insert_fresh p qs in if leb q.last_seen p.last_seen then p ∷ q ∷ qs else q ∷ rest

-- `sort_by_key(|p| Reverse(p.last_seen))`, which is stable.
unfoldable pub sort_fresh : List PeerInfo → List PeerInfo
sort_fresh [] = []
sort_fresh (p ∷ ps) = insert_fresh p (sort_fresh ps)

unfoldable pub sample : ℕ → Option ℕ → PeerTable → List PeerInfo
sample limit filter t = take limit (sort_fresh (matching filter t.peers))
