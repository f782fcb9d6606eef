-- ===== src/Peers/Bounds.antt =====
-- The bound on the table of crates/sidevers-net/src/peers.rs, and which peer makes room.
use sidevers_protocol.Cbor.Writer.{Bytes}
use sidevers_protocol.Common.{
  suc, ◌≤◌, ◌<◌, ◌≡◌, refl, sym, ap, ◌∙◌, subst, ◌⊎◌, inl, inr, true, false, Option, none, some, [],
  ◌∷◌, arith, leb, Bool-cases, length,
}
use sidevers_protocol.Common.Eq.{bytes_Eq}
use sidevers_protocol.Messages.PeerInfo.{PeerInfo}
use sidevers_protocol.Peers.{PeerTable, drop_oldest, contains_key, make_room, insert_peer}
use sidevers_protocol.Peers.Oldest.{drop_oldest-cases}
use sidevers_protocol.Table.{Table, lookup, insert, remove, IsMap}
use sidevers_protocol.Table.Laws.{
  lookup-insert, lookup-remove, length-remove-lt, length-insert-le, IsMap-insert, IsMap-remove,
}

-- A table of distinct addresses with at most `max` peers.
abbrev pub IsBounded : PeerTable → Type 0
IsBounded t = IsMap t.peers × (length t.peers ≤ t.max)

contains_key-some :
    (k : Bytes) (m : Table Bytes PeerInfo)
    → contains_key k m ≡ true
    → (q : PeerInfo) × (lookup k m ≡ some q)
unfolding contains_key
contains_key-some k m h = go (lookup k m) h
  where
    go :
        (o : Option PeerInfo)
        → elim o [ none ↦ false | some p ↦ true ] ≡ true
        → (q : PeerInfo) × (o ≡ some q)
    go none e = cc
    go (some q) e = (q, refl)

length-insert-known :
    (k : Bytes) (p q : PeerInfo) (m : Table Bytes PeerInfo)
    → lookup k m ≡ some q
    → length (insert k p m) ≡ length m
unfolding insert lookup
length-insert-known k p q [] h = cc
length-insert-known k p q ((j, r) ∷ m) h = elim (Bool-cases (bytes_Eq.beq j k)) [
  | inl x ↦ rw x refl
  | inr x ↦
      let rest : lookup k m ≡ some q = rw x at h in rw x (ap suc (length-insert-known k p q m rest))
]

-- How an insertion makes room: it keeps the table where the address is known or there is room, and
-- drops the oldest peer otherwise.
make_room-cases :
    (info : PeerInfo) (t : PeerTable)
    → ((make_room info t ≡ t.peers)
        × ((contains_key info.address t.peers ≡ true) ⊎ (length t.peers < t.max)))
      ⊎ ((make_room info t ≡ drop_oldest t.peers)
          × (contains_key info.address t.peers ≡ false)
          × (t.max ≤ length t.peers))
unfolding make_room
make_room-cases info t = elim (Bool-cases (contains_key info.address t.peers)) [
  | inl x ↦ inl (rw x refl, inl x)
  | inr x ↦ elim (Bool-cases (leb t.max (length t.peers))) [
    | inl y ↦ inr (rw (x, y) refl, x, ground arith)
    | inr y ↦ inl (rw (x, y) refl, inr (ground arith))
  ]
]

-- From a table of distinct addresses with at most `max` peers, where that is at least one, an
-- insertion gives such a table.
pub insert_peer-IsBounded :
    (info : PeerInfo) (t : PeerTable) → 0 < t.max → IsBounded t → IsBounded (insert_peer info t)
unfolding insert_peer
insert_peer-IsBounded info t h (d, b) = elim (make_room-cases info t) [
  | inl (e, r) ↦ rw e (
    IsMap-insert info.address info t.peers d,
    elim r [
      | inl x ↦
          let (q, found) = contains_key-some info.address t.peers x in
          omega (arith, length-insert-known info.address info q t.peers found)
      | inr x ↦ omega (arith, length-insert-le info.address info t.peers)
    ],
  )
  | inr (e, x, le) ↦
      let (k, p, e', l, least) = drop_oldest-cases t.peers d (omega arith) in
      let shorter : length (remove k t.peers) < length t.peers = length-remove-lt k t.peers l in
      rw (e, e')
        (
          IsMap-insert info.address info (remove k t.peers) (IsMap-remove k t.peers d),
          omega (arith, length-insert-le info.address info (remove k t.peers)),
        )
]

lookup-other :
    (k j : Bytes) (p : PeerInfo) (m : Table Bytes PeerInfo)
    → bytes_Eq.beq k j ≡ false
    → lookup j (insert k p m) ≡ lookup j m
lookup-other k j p m x = rw (lookup-insert k j p m) (rw x refl)

-- What is missing after a removal, and was there, is what was removed.
removed-same :
    (k i : Bytes) (p : PeerInfo) (m : Table Bytes PeerInfo)
    → lookup i m ≡ some p
    → lookup i (remove k m) ≡ none
    → k ≡ i
removed-same k i p m e gone = elim (Bool-cases (bytes_Eq.beq k i)) [
  | inl x ↦ (bytes_Eq.beq_iff k i).0 x
  | inr x ↦
      let left : lookup i (remove k m) ≡ lookup i m = rw (lookup-remove k i m) (rw x refl) in cc
]

left-there :
    (k j : Bytes) (q : PeerInfo) (m : Table Bytes PeerInfo)
    → lookup j (remove k m) ≡ some q
    → lookup j m ≡ some q
left-there k j q m e = elim (Bool-cases (bytes_Eq.beq k j)) [
  | inl x ↦ let gone : lookup j (remove k m) ≡ none = rw (lookup-remove k j m) (rw x refl) in cc
  | inr x ↦
      let left : lookup j (remove k m) ≡ lookup j m = rw (lookup-remove k j m) (rw x refl) in cc
]

-- From a table of distinct addresses for at least one peer: a peer that an insertion pushes out was
-- seen no later than any other peer that is left, the inserted one aside.
pub insert_peer-oldest :
    (info : PeerInfo) (t : PeerTable) (i j : Bytes) (pi pj : PeerInfo)
    → 0 < t.max
    → IsMap t.peers
    → lookup i t.peers ≡ some pi
    → lookup i (insert_peer info t).peers ≡ none
    → bytes_Eq.beq info.address j ≡ false
    → lookup j (insert_peer info t).peers ≡ some pj
    → pi.last_seen ≤ pj.last_seen
unfolding insert_peer
insert_peer-oldest info t i j pi pj h d before gone other left =
    elim (Bool-cases (bytes_Eq.beq info.address i)) [
      | inl x ↦
          let found : lookup i (insert info.address info (make_room info t)) ≡ some info =
            rw (lookup-insert info.address i info (make_room info t)) (rw x refl) in
          cc
      | inr x ↦
          let gone' : lookup i (make_room info t) ≡ none =
            sym (lookup-other info.address i info (make_room info t) x) ∙ gone in
          let left' : lookup j (make_room info t) ≡ some pj =
            sym (lookup-other info.address j info (make_room info t) other) ∙ left in
          elim (make_room-cases info t) [
            | inl (e, r) ↦
                let same : lookup i t.peers ≡ none =
                  subst (λ (m : Table Bytes PeerInfo). lookup i m ≡ none) e gone' in
                cc
            | inr (e, y, le) ↦
                let (k, p, e', l, least) = drop_oldest-cases t.peers d (omega arith) in
                let to_room = e ∙ e' in
                let was_k =
                  removed-same k i pi t.peers before
                    (subst (λ (m : Table Bytes PeerInfo). lookup i m ≡ none) to_room gone') in
                let there =
                  left-there k j pj t.peers
                    (subst (λ (m : Table Bytes PeerInfo). lookup j m ≡ some pj) to_room left') in
                let at_i : lookup i t.peers ≡ some p =
                  subst (λ (y : Bytes). lookup y t.peers ≡ some p) was_k l in
                let seen : p.last_seen ≡ pi.last_seen = cc in omega (arith, least j pj there)
          ]
    ]
