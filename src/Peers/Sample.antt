-- ===== src/Peers/Sample.antt =====
-- What `sample` of crates/sidevers-net/src/peers.rs returns.
use sidevers_protocol.Cbor.Writer.{Bytes}
use sidevers_protocol.Common.{
  ℕ, zero, suc, ◌≤◌, ◌≡◌, refl, ap, ◌∙◌, ◌↔◌, ◌⊎◌, inl, inr, true, false, Option, none, some, List,
  [], ◌∷◌, arith, leb, ◌==◌, Bool-cases, length, take,
}
use sidevers_protocol.Messages.PeerInfo.{PeerInfo}
use sidevers_protocol.Peers.{
  PeerTable, has_intent, wanted, matching, insert_fresh, sort_fresh, sample,
}
use sidevers_protocol.Table.{Table}

abbrev pub In : PeerInfo → List PeerInfo → Type 0
In p [] = ⊥
In p (q ∷ qs) = (p ≡ q) ⊎ In p qs

-- The peer was seen no later than every one of the list.
abbrev pub NoFresher : PeerInfo → List PeerInfo → Type 0
NoFresher p [] = Unit {0}
NoFresher p (q ∷ qs) = (p.last_seen ≤ q.last_seen) × NoFresher p qs

-- Every peer of the list was seen no earlier than those behind it.
abbrev pub IsFreshFirst : List PeerInfo → Type 0
IsFreshFirst [] = Unit {0}
IsFreshFirst (q ∷ qs) = ((p : PeerInfo) → In p qs → p.last_seen ≤ q.last_seen) × IsFreshFirst qs

In-insert_fresh :
    (p q : PeerInfo) (qs : List PeerInfo) → In p (insert_fresh q qs) ↔ (p ≡ q) ⊎ In p qs
unfolding insert_fresh
In-insert_fresh p q [] = (λ i. i, λ i. i)
In-insert_fresh p q (r ∷ qs) = elim (Bool-cases (leb r.last_seen q.last_seen)) [
  | inl x ↦ rw x (λ i. i, λ i. i)
  | inr x ↦
      let (there, back) = In-insert_fresh p q qs in
      rw x (
        λ i. elim i [
          | inl e ↦ inr (inl e)
          | inr j ↦ elim (there j) [ inl e ↦ inl e | inr k ↦ inr (inr k) ]
        ],
        λ i. elim i [
          | inl e ↦ inr (back (inl e))
          | inr j ↦ elim j [ inl e ↦ inl e | inr k ↦ inr (back (inr k)) ]
        ],
      )
]

In-sort_fresh : (p : PeerInfo) (qs : List PeerInfo) → In p (sort_fresh qs) ↔ In p qs
unfolding sort_fresh
In-sort_fresh p [] = (λ i. i, λ i. i)
In-sort_fresh p (q ∷ qs) =
    let (there, back) = In-sort_fresh p qs in
    let (out, into) = In-insert_fresh p q (sort_fresh qs) in
    (
      λ i. elim (out i) [ inl e ↦ inl e | inr j ↦ inr (there j) ],
      λ i. into (elim i [ inl e ↦ inl e | inr j ↦ inr (back j) ]),
    )

IsFreshFirst-insert_fresh :
    (q : PeerInfo) (qs : List PeerInfo) → IsFreshFirst qs → IsFreshFirst (insert_fresh q qs)
unfolding insert_fresh
IsFreshFirst-insert_fresh q [] h = (λ p i. absurd i, tt)
IsFreshFirst-insert_fresh q (r ∷ qs) h = elim (Bool-cases (leb r.last_seen q.last_seen)) [
  | inl x ↦
      let le : r.last_seen ≤ q.last_seen = ground arith in
      rw x (
        λ p i. elim i [
          | inl e ↦
              (let same : p.last_seen ≡ r.last_seen = ap (λ (t : PeerInfo). t.last_seen) e in
                omega arith)
          | inr j ↦ omega (arith, h.0 p j)
        ],
        h,
      )
  | inr x ↦
      let le : q.last_seen ≤ r.last_seen = ground arith in
      rw x (
        λ p i. elim ((In-insert_fresh p q qs).0 i) [
          | inl e ↦
              (let same : p.last_seen ≡ q.last_seen = ap (λ (t : PeerInfo). t.last_seen) e in
                omega arith)
          | inr j ↦ h.0 p j
        ],
        IsFreshFirst-insert_fresh q qs h.1,
      )
]

IsFreshFirst-sort_fresh : (qs : List PeerInfo) → IsFreshFirst (sort_fresh qs)
unfolding sort_fresh
IsFreshFirst-sort_fresh [] = tt
IsFreshFirst-sort_fresh (q ∷ qs) =
    IsFreshFirst-insert_fresh q (sort_fresh qs) (IsFreshFirst-sort_fresh qs)

-- A front of a list that is fresh first leaves nothing fresher behind, and leaves something only when
-- it is as long as it may be.
take-fresh :
    (n : ℕ) (p : PeerInfo) (qs : List PeerInfo)
    → IsFreshFirst qs
    → In p qs
    → In p (take n qs) ⊎ ((length (take n qs) ≡ n) × NoFresher p (take n qs))
take-fresh zero p qs h i = inr (refl, tt)
take-fresh (suc n) p [] h i = absurd i
take-fresh (suc n) p (q ∷ qs) h (inl e) = inl (inl e)
take-fresh (suc n) p (q ∷ qs) h (inr i) = elim (take-fresh n p qs h.1 i) [
  | inl j ↦ inl (inr j)
  | inr (e, f) ↦ inr (ap suc e, (h.0 p i, f))
]

take-In : (n : ℕ) (p : PeerInfo) (qs : List PeerInfo) → In p (take n qs) → In p qs
take-In zero p qs i = absurd i
take-In (suc n) p [] i = absurd i
take-In (suc n) p (q ∷ qs) (inl e) = inl e
take-In (suc n) p (q ∷ qs) (inr i) = inr (take-In n p qs i)

take-IsFreshFirst : (n : ℕ) (qs : List PeerInfo) → IsFreshFirst qs → IsFreshFirst (take n qs)
take-IsFreshFirst zero qs h = tt
take-IsFreshFirst (suc n) [] h = tt
take-IsFreshFirst (suc n) (q ∷ qs) h = (λ p i. h.0 p (take-In n p qs i), take-IsFreshFirst n qs h.1)

length-take-le : (n : ℕ) (qs : List PeerInfo) → length (take n qs) ≤ n
length-take-le zero qs = omega arith
length-take-le (suc n) [] = omega arith
length-take-le (suc n) (q ∷ qs) = omega (arith, length-take-le n qs)

-- The peers of a table, in its order.
abbrev pub InTable : PeerInfo → Table Bytes PeerInfo → Type 0
InTable p [] = ⊥
InTable p ((k, q) ∷ m) = (p ≡ q) ⊎ InTable p m

-- The value is one of the list.
abbrev pub IsAmong : ℕ → List ℕ → Type 0
IsAmong want [] = ⊥
IsAmong want (i ∷ is) = (i ≡ want) ⊎ IsAmong want is

-- A peer is wanted for any reason, or for one intent that it has.
abbrev pub IsWanted : Option ℕ → PeerInfo → Type 0
IsWanted none p = Unit {0}
IsWanted (some want) p = IsAmong want p.intents

has_intent_iff : (want : ℕ) (is : List ℕ) → (has_intent want is ≡ true) ↔ IsAmong want is
unfolding has_intent
has_intent_iff want [] = (λ e. cc, λ i. absurd i)
has_intent_iff want (i ∷ is) =
    let (there, back) = has_intent_iff want is in
    elim (Bool-cases (i == want)) [
      | inl x ↦ rw x (λ e. inl (ground arith), λ j. refl)
      | inr x ↦ rw x (λ e. inr (there e), λ j. elim j [ inl e ↦ ground arith | inr k ↦ back k ])
    ]

wanted_iff : (filter : Option ℕ) (p : PeerInfo) → (wanted filter p ≡ true) ↔ IsWanted filter p
unfolding wanted
wanted_iff none p = (λ e. tt, λ u. refl)
wanted_iff (some want) p = has_intent_iff want p.intents

In-matching :
    (filter : Option ℕ) (p : PeerInfo) (m : Table Bytes PeerInfo)
    → In p (matching filter m) ↔ InTable p m × (wanted filter p ≡ true)
unfolding matching
In-matching filter p [] = (λ i. absurd i, λ i. absurd i.0)
In-matching filter p ((k, q) ∷ m) =
    let (there, back) = In-matching filter p m in
    elim (Bool-cases (wanted filter q)) [
      | inl x ↦ rw x (
        λ i. elim i [
          | inl e ↦ (inl e, ap (wanted filter) e ∙ x)
          | inr j ↦ let (a, b) = there j in (inr a, b)
        ],
        λ (i, w). elim i [ inl e ↦ inl e | inr j ↦ inr (back (j, w)) ],
      )
      | inr x ↦ rw x (
        λ i. let (a, b) = there i in (inr a, b),
        λ (i, w). elim i [
          | inl e ↦ (let no : wanted filter p ≡ false = ap (wanted filter) e ∙ x in cc)
          | inr j ↦ back (j, w)
        ],
      )
    ]

-- A sample has at most `limit` peers, the freshest first, each of them a peer of the table that is
-- wanted, which is any peer, or one with the intent asked for; and a wanted peer that it leaves out
-- is no fresher than any of its peers, of which it then has exactly `limit`.
pub sample_lem :
    (limit : ℕ) (filter : Option ℕ) (t : PeerTable)
    → (length (sample limit filter t) ≤ limit)
      × IsFreshFirst (sample limit filter t)
      × ((p : PeerInfo) → In p (sample limit filter t) → InTable p t.peers × IsWanted filter p)
      × ((p : PeerInfo)
          → InTable p t.peers × IsWanted filter p
          → In p (sample limit filter t)
            ⊎ ((length (sample limit filter t) ≡ limit) × NoFresher p (sample limit filter t)))
unfolding sample
sample_lem limit filter t =
    let sorted = sort_fresh (matching filter t.peers) in
    (
      length-take-le limit sorted,
      take-IsFreshFirst limit sorted (IsFreshFirst-sort_fresh _),
      λ p i.
          let (there, w) =
            (In-matching filter p t.peers).0 ((In-sort_fresh p _).0 (take-In limit p sorted i)) in
          (there, (wanted_iff filter p).0 w),
      λ p (there, w). take-fresh limit p sorted (IsFreshFirst-sort_fresh _) (
          (In-sort_fresh p _).1
            ((In-matching filter p t.peers).1 (there, (wanted_iff filter p).1 w))),
    )
