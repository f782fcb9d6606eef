-- ===== src/Reputation/Rate.antt =====
-- The rate limit of crates/sidevers-net/src/reputation.rs.
use sidevers_protocol.Cbor.Writer.{Bytes}
use sidevers_protocol.Common.{
  ℕ, ◌+◌, ◌-◌, ◌*◌, ◌≤◌, ◌≡◌, refl, sym, subst, inl, inr, Bool, true, false, Option, none, some,
  List, [], ◌∷◌, arith, ltb, if◌then◌else◌, ltb→lt, Bool-cases, All,
}
use sidevers_protocol.Common.Eq.{bytes_Eq}
use sidevers_protocol.Reputation.{
  ReputationPolicy, PeerReputation, Peers, or_fresh, fresh, count_seen, refill, take_token, admit,
  observe_entry, observe_envelope, fail_signature, record_sig_failure, fail_payload,
  record_malformed, refuse, forgive, reinstate, Event, observed, signature_failed, payload_failed,
  refused_by_user, reinstated, step, lets_through, passed, entry_of,
}
use sidevers_protocol.Table.{lookup, insert}
use sidevers_protocol.Table.Laws.{lookup-insert}

mul_split : (a b c r : ℕ) → a ≤ b → b ≤ c → (c - a) * r ≡ (c - b) * r + (b - a) * r
mul_split a b c r h k = let e : c - a ≡ (c - b) + (b - a) = omega arith in rw e (grind arith)

mul_mono : (a b r : ℕ) → a ≤ b → a * r ≤ b * r
mul_mono a b r h = grind arith

module _ (policy : ReputationPolicy) (first last : ℕ) where
  -- The tokens that an entry has, and that it can get up to the time `last`.
  abbrev potential : PeerReputation → ℕ
  potential rep = rep.tokens + (last - rep.last_refill_at) * policy.refill_per_sec

  abbrev potential_of : Option PeerReputation → ℕ
  potential_of none = policy.bucket_capacity + (last - first) * policy.refill_per_sec
  potential_of (some rep) = potential rep

  abbrev Timely : Option PeerReputation → Type 0
  Timely none = Unit {0}
  Timely (some rep) = rep.last_refill_at ≤ last

  abbrev spent : Bool → ℕ
  spent b = if b then 1 else 0

  or_fresh-potential :
      (now : ℕ) (o : Option PeerReputation)
      → first ≤ now
      → now ≤ last
      → Timely o
      → (potential (or_fresh policy now o) ≤ potential_of o)
        × ((or_fresh policy now o).last_refill_at ≤ last)
  unfolding or_fresh fresh
  or_fresh-potential now none h k t = (
    let le = mul_mono (last - now) (last - first) policy.refill_per_sec (omega arith) in
        omega arith,
    k,
  )
  or_fresh-potential now (some rep) h k t = (omega arith, t)

  refill-potential :
      (now : ℕ) (rep : PeerReputation)
      → now ≤ last
      → rep.last_refill_at ≤ last
      → (potential (refill policy now rep) ≤ potential rep)
        × ((refill policy now rep).last_refill_at ≤ last)
  unfolding refill
  refill-potential now rep h t = elim (Bool-cases (ltb rep.last_refill_at now)) [
    | inl x ↦
        let lt = ltb→lt rep.last_refill_at now x in
        let e = mul_split rep.last_refill_at now last policy.refill_per_sec (omega arith) h in
        rw x (omega arith, h)
    | inr x ↦ rw x (omega arith, t)
  ]

  take_token-potential :
      (rep : PeerReputation)
      → rep.last_refill_at ≤ last
      → (spent (take_token rep).1 + potential (take_token rep).0 ≤ potential rep)
        × ((take_token rep).0.last_refill_at ≤ last)
  unfolding take_token
  take_token-potential rep t = ground arith

  admit-potential :
      (b : Bool) (now : ℕ) (rep : PeerReputation)
      → now ≤ last
      → rep.last_refill_at ≤ last
      → (spent (admit b policy now rep).1 + potential (admit b policy now rep).0 ≤ potential rep)
        × ((admit b policy now rep).0.last_refill_at ≤ last)
  unfolding admit
  admit-potential true now rep h t = (omega arith, t)
  admit-potential false now rep h t =
      let (p, q) = refill-potential now rep h t in
      let (u, v) = take_token-potential (refill policy now rep) q in (omega arith, v)

  -- The tokens that `k` has and can get, and those that an event spends for it.
  abbrev Falls : Bytes → Bool → Peers → Peers → Type 0
  Falls k b m m' =
      (spent b + potential_of (lookup k m') ≤ potential_of (lookup k m)) × Timely (lookup k m')

  -- An event writes the entry of `peer`, and spends `b` for it.
  insert-Falls :
      (k peer : Bytes) (b : Bool) (rep : PeerReputation) (m : Peers)
      → (Timely (lookup peer m)
          → (spent b + potential rep ≤ potential_of (lookup peer m)) × (rep.last_refill_at ≤ last))
      → Timely (lookup k m)
      → Falls k (if bytes_Eq.beq peer k then b else false) m (insert peer rep m)
  insert-Falls k peer b rep m h timely = elim (Bool-cases (bytes_Eq.beq peer k)) [
    | inl x ↦
        let same : k ≡ peer = sym ((bytes_Eq.beq_iff peer k).0 x) in
        let (le, t) = h (subst (λ (y : Bytes). Timely (lookup y m)) same timely) in
        let le' : spent b + potential rep ≤ potential_of (lookup k m) =
          subst (λ (y : Bytes). spent b + potential rep ≤ potential_of (lookup y m)) (sym same)
            le in
        rw (lookup-insert peer k rep m) (rw x (le', t))
    | inr x ↦ rw (lookup-insert peer k rep m) (rw x (omega arith, timely))
  ]

  keep-Falls :
      (k peer : Bytes) (rep : PeerReputation) (m : Peers)
      → (Timely (lookup peer m)
          → (potential rep ≤ potential_of (lookup peer m)) × (rep.last_refill_at ≤ last))
      → Timely (lookup k m)
      → Falls k false m (insert peer rep m)
  keep-Falls k peer rep m h timely =
      let (le, t) =
        insert-Falls k peer false rep m (λ u. let (x, y) = h u in (omega arith, y)) timely in
      (omega arith, t)

  -- The time of an event, where it has one, is between the two times.
  abbrev pub InTime : Event → Type 0
  InTime (observed peer now) = (first ≤ now) × (now ≤ last)
  InTime (signature_failed peer now) = (first ≤ now) × (now ≤ last)
  InTime (payload_failed peer now) = (first ≤ now) × (now ≤ last)
  InTime (refused_by_user peer now) = (first ≤ now) × (now ≤ last)
  InTime (reinstated peer) = Unit {0}

  forgive-Falls :
      (k peer : Bytes) (m : Peers) (o : Option PeerReputation)
      → lookup peer m ≡ o
      → Timely (lookup k m)
      → Falls k false m (forgive peer o m)
  unfolding forgive
  forgive-Falls k peer m none e t = (omega arith, t)
  forgive-Falls k peer m (some rep) e t =
      keep-Falls k peer _ m (λ u. rw e (omega arith, rw e at u)) t

  step-Falls :
      (k : Bytes) (e : Event) (m : Peers)
      → InTime e
      → Timely (lookup k m)
      → Falls k (lets_through policy k e m) m (step policy e m)
  unfolding observe_envelope observe_entry count_seen record_sig_failure fail_signature
      record_malformed fail_payload refuse reinstate entry_of
  step-Falls k (observed peer now) m (h, j) t =
      insert-Falls k peer _ _ m
        (λ u.
          let (p, q) = or_fresh-potential now (lookup peer m) h j u in
          let (x, y) =
            admit-potential _ now (count_seen now (or_fresh policy now (lookup peer m))) j q in
          (omega arith, y))
        t
  step-Falls k (signature_failed peer now) m (h, j) t =
      keep-Falls k peer _ m (λ u. or_fresh-potential now (lookup peer m) h j u) t
  step-Falls k (payload_failed peer now) m (h, j) t =
      keep-Falls k peer _ m (λ u. or_fresh-potential now (lookup peer m) h j u) t
  step-Falls k (refused_by_user peer now) m (h, j) t =
      keep-Falls k peer _ m (λ u. or_fresh-potential now (lookup peer m) h j u) t
  step-Falls k (reinstated peer) m i t = forgive-Falls k peer m (lookup peer m) refl t

  passed-le :
      (k : Bytes) (es : List Event) (m : Peers)
      → All InTime es
      → Timely (lookup k m)
      → passed policy k es m ≤ potential_of (lookup k m)
  unfolding passed
  passed-le k [] m h t = omega arith
  passed-le k (e ∷ es) m h t =
      let (le, t') = step-Falls k e m h.0 t in
      let rest = passed-le k es (step policy e m) h.1 t' in
      elim (Bool-cases (lets_through policy k e m)) [
        | inl x ↦ rw x (let le' = rw x at le in omega arith)
        | inr x ↦ rw x (let le' = rw x at le in omega arith)
      ]

  -- In any run of calls between two times, by any peers, that starts with no entry for a peer, that
  -- peer's envelopes that are let through are at most a full bucket and the refill of the time between.
  pub rate_limit :
      (k : Bytes) (es : List Event) (m : Peers)
      → All InTime es
      → lookup k m ≡ none
      → passed policy k es m ≤ policy.bucket_capacity + (last - first) * policy.refill_per_sec
  rate_limit k es m h e = rw e at (passed-le k es m h (rw e tt))
