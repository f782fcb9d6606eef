-- ===== src/Peers/Oldest.antt =====
-- The peer that an insertion into the table of crates/sidevers-net/src/peers.rs drops.
use sidevers_protocol.Cbor.Writer.{Bytes}
use sidevers_protocol.Common.{
  ℕ, ◌≤◌, ◌<◌, ◌≡◌, refl, sym, subst, inl, inr, Option, none, some, [], ◌∷◌, arith, ltb,
  if◌then◌else◌, Bool-cases, length,
}
use sidevers_protocol.Common.Eq.{bytes_Eq}
use sidevers_protocol.Messages.PeerInfo.{PeerInfo}
use sidevers_protocol.Peers.{least_seen, drop_oldest}
use sidevers_protocol.Table.{Table, lookup, remove, IsMap}
use sidevers_protocol.Table.Laws.{lookup-cons, lookup-front, lookup-skip}

-- The least time that a peer was seen.
unfoldable least_time : ℕ → Table Bytes PeerInfo → ℕ
least_time t [] = t
least_time t ((j, p) ∷ m) = if ltb p.last_seen t then least_time p.last_seen m else least_time t m

-- A peer of the table that was seen at the time.
abbrev SeenAt : ℕ → Option PeerInfo → Type 0
SeenAt t none = ⊥
SeenAt t (some p) = p.last_seen ≡ t

SeenAt-some :
    (t : ℕ) (o : Option PeerInfo) → SeenAt t o → (p : PeerInfo) × (o ≡ some p) × (p.last_seen ≡ t)
SeenAt-some t none h = elim h [ ]
SeenAt-some t (some p) h = (p, refl, h)

lookup-least_seen :
    (k : Bytes) (p : PeerInfo) (m : Table Bytes PeerInfo)
    → IsMap ((k, p) ∷ m)
    → SeenAt (least_time p.last_seen m) (lookup (least_seen k p.last_seen m) ((k, p) ∷ m))
unfolding least_seen least_time
lookup-least_seen k p [] h = subst (SeenAt p.last_seen) (sym (lookup-front k p [])) refl
lookup-least_seen k p ((j, q) ∷ m) h = elim (Bool-cases (ltb q.last_seen p.last_seen)) [
  | inl x ↦
      let (v, e, t) = SeenAt-some _ _ (lookup-least_seen j q m h.1) in
      rw x (
        subst (SeenAt (least_time q.last_seen m))
          (sym (lookup-cons (least_seen j q.last_seen m) k p ((j, q) ∷ m) h.0 e)) t)
  | inr x ↦
      let (v, e, t) = SeenAt-some _ _ (lookup-least_seen k p m (h.0.1, h.1.1)) in
      rw x (
        subst (SeenAt (least_time p.last_seen m))
          (sym (lookup-skip (least_seen k p.last_seen m) k j p q m h e)) t)
]

least_time-le : (t : ℕ) (m : Table Bytes PeerInfo) → least_time t m ≤ t
unfolding least_time
least_time-le t [] = omega arith
least_time-le t ((j, q) ∷ m) = ground (arith, least_time-le q.last_seen m, least_time-le t m)

least_time-lookup :
    (t : ℕ) (m : Table Bytes PeerInfo) (j : Bytes) (q : PeerInfo)
    → lookup j m ≡ some q
    → least_time t m ≤ q.last_seen
unfolding least_time lookup
least_time-lookup t [] j q e = cc
least_time-lookup t ((i, p) ∷ m) j q e = elim (Bool-cases (bytes_Eq.beq i j)) [
  | inl x ↦
      let same : some p ≡ some q = rw x at e in
      let seen : p.last_seen ≡ q.last_seen = cc in
      ground (arith, least_time-le p.last_seen m, least_time-le t m)
  | inr x ↦
      let rest : lookup j m ≡ some q = rw x at e in
      ground (arith, least_time-lookup p.last_seen m j q rest, least_time-lookup t m j q rest)
]

least_time-front :
    (k : Bytes) (p : PeerInfo) (m : Table Bytes PeerInfo) (j : Bytes) (q : PeerInfo)
    → lookup j ((k, p) ∷ m) ≡ some q
    → least_time p.last_seen m ≤ q.last_seen
unfolding lookup
least_time-front k p m j q e = elim (Bool-cases (bytes_Eq.beq k j)) [
  | inl x ↦
      let same : some p ≡ some q = rw x at e in
      let seen : p.last_seen ≡ q.last_seen = cc in omega (arith, least_time-le p.last_seen m)
  | inr x ↦ least_time-lookup p.last_seen m j q (rw x at e)
]

-- What is dropped: a peer of the table that was seen no later than every other.
pub drop_oldest-cases :
    (m : Table Bytes PeerInfo)
    → IsMap m
    → 0 < length m
    → (k : Bytes) × (p : PeerInfo) × (drop_oldest m ≡ remove k m)
      × (lookup k m ≡ some p)
      × ((j : Bytes) (q : PeerInfo) → lookup j m ≡ some q → p.last_seen ≤ q.last_seen)
unfolding drop_oldest
drop_oldest-cases [] d h = absurd (omega arith)
drop_oldest-cases ((k, p) ∷ m) d h =
    let (v, e, t) = SeenAt-some _ _ (lookup-least_seen k p m d) in
    (least_seen k p.last_seen m, v, refl, e, λ j q l. older j q l v t)
  where
    older :
        (j : Bytes) (q : PeerInfo)
        → lookup j ((k, p) ∷ m) ≡ some q
        → (v : PeerInfo) → v.last_seen ≡ least_time p.last_seen m
        → v.last_seen ≤ q.last_seen
    older j q l v t = omega (arith, least_time-front k p m j q l)
