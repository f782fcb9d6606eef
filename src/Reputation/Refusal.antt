-- ===== src/Reputation/Refusal.antt =====
-- Refused peers in crates/sidevers-net/src/reputation.rs.
use sidevers_protocol.Cbor.Writer.{Bytes}
use sidevers_protocol.Common.{
  ℕ, ◌≡◌, refl, sym, ap, ◌∙◌, subst, inl, inr, Bool, true, false, Option, none, some, List, [], ◌∷◌,
  if◌then◌else◌, Bool-cases, All,
}
use sidevers_protocol.Common.Eq.{bytes_Eq}
use sidevers_protocol.Reputation.{
  ReputationPolicy, PeerReputation, Peers, or_fresh, count_seen, admit, observe_entry,
  observe_envelope, fail_signature, record_sig_failure, fail_payload, record_malformed, refuse,
  forgive, reinstate, Event, observed, signature_failed, payload_failed, refused_by_user,
  reinstated, step, lets_through, passed, entry_of, run,
}
use sidevers_protocol.Table.{lookup, insert}
use sidevers_protocol.Table.Laws.{lookup-insert}

-- The entry of `k` is refused.
abbrev pub IsRefused : Option PeerReputation → Type 0
IsRefused none = ⊥
IsRefused (some rep) = rep.refused ≡ true

-- No call of the run reinstates `k`.
abbrev pub NotReinstated : Bytes → Event → Type 0
NotReinstated k (reinstated peer) = bytes_Eq.beq peer k ≡ false
NotReinstated k _ = Unit {0}

or_true : (b : Bool) {x : Bool} → x ≡ true → (if b then true else x) ≡ true
or_true true h = refl
or_true false h = h

module _ (policy : ReputationPolicy) where
  insert-IsRefused :
      (k peer : Bytes) (rep : PeerReputation) (m : Peers)
      → (IsRefused (lookup peer m) → rep.refused ≡ true)
      → IsRefused (lookup k m)
      → IsRefused (lookup k (insert peer rep m))
  insert-IsRefused k peer rep m h r = elim (Bool-cases (bytes_Eq.beq peer k)) [
    | inl x ↦
        let same : k ≡ peer = sym ((bytes_Eq.beq_iff peer k).0 x) in
        rw (lookup-insert peer k rep m)
          (rw x (h (subst (λ (y : Bytes). IsRefused (lookup y m)) same r)))
    | inr x ↦ rw (lookup-insert peer k rep m) (rw x r)
  ]

  or_fresh-refused :
      (now : ℕ) (o : Option PeerReputation) → IsRefused o → (or_fresh policy now o).refused ≡ true
  unfolding or_fresh
  or_fresh-refused now none h = elim h [ ]
  or_fresh-refused now (some rep) h = h

  admit-refused :
      (b : Bool) (now : ℕ) (rep : PeerReputation)
      → b ≡ true
      → ((admit b policy now rep).0 ≡ rep) × ((admit b policy now rep).1 ≡ false)
  unfolding admit
  admit-refused true now rep h = (refl, refl)
  admit-refused false now rep h = cc

  step-IsRefused :
      (k : Bytes) (e : Event) (m : Peers)
      → NotReinstated k e
      → IsRefused (lookup k m)
      → IsRefused (lookup k (step policy e m))
  unfolding observe_envelope observe_entry count_seen record_sig_failure fail_signature
      record_malformed fail_payload refuse reinstate entry_of
  step-IsRefused k (observed peer now) m n r =
      insert-IsRefused k peer _ m
        (λ h.
          let f = or_fresh-refused now (lookup peer m) h in
          ap (λ (x : PeerReputation). x.refused)
            (admit-refused _ now (count_seen now (or_fresh policy now (lookup peer m))) f).0
          ∙ f)
        r
  step-IsRefused k (signature_failed peer now) m n r =
      insert-IsRefused k peer _ m (λ h. or_true _ (or_fresh-refused now (lookup peer m) h)) r
  step-IsRefused k (payload_failed peer now) m n r =
      insert-IsRefused k peer _ m (λ h. or_true _ (or_fresh-refused now (lookup peer m) h)) r
  step-IsRefused k (refused_by_user peer now) m n r = insert-IsRefused k peer _ m (λ h. refl) r
  step-IsRefused k (reinstated peer) m n r = other (lookup peer m)
    where
      other : (o : Option PeerReputation) → IsRefused (lookup k (forgive peer o m))
      other none = unfold forgive in r
      other (some rep) = unfold forgive in rw (lookup-insert peer k _ m) (rw n r)

  refused-spends :
      (k : Bytes) (e : Event) (m : Peers)
      → IsRefused (lookup k m)
      → lets_through policy k e m ≡ false
  unfolding observe_envelope observe_entry entry_of count_seen
  refused-spends k (observed peer now) m r = elim (Bool-cases (bytes_Eq.beq peer k)) [
    | inl x ↦
        let same : k ≡ peer = sym ((bytes_Eq.beq_iff peer k).0 x) in
        let f =
          or_fresh-refused now (lookup peer m)
            (subst (λ (y : Bytes). IsRefused (lookup y m)) same r) in
        rw x (admit-refused _ now _ f).1
    | inr x ↦ rw x refl
  ]
  refused-spends k (signature_failed peer now) m r = refl
  refused-spends k (payload_failed peer now) m r = refl
  refused-spends k (refused_by_user peer now) m r = refl
  refused-spends k (reinstated peer) m r = refl

  pub refused-passed :
      (k : Bytes) (es : List Event) (m : Peers)
      → All (NotReinstated k) es
      → IsRefused (lookup k m)
      → passed policy k es m ≡ 0
  unfolding passed
  refused-passed k [] m n r = refl
  refused-passed k (e ∷ es) m n r =
      rw (refused-spends k e m r)
        (refused-passed k es (step policy e m) n.1 (step-IsRefused k e m n.0 r))

  pub run-IsRefused :
      (k : Bytes) (es : List Event) (m : Peers)
      → All (NotReinstated k) es
      → IsRefused (lookup k m)
      → IsRefused (lookup k (run policy es m))
  unfolding run
  run-IsRefused k [] m n r = r
  run-IsRefused k (e ∷ es) m n r =
      run-IsRefused k es (step policy e m) n.1 (step-IsRefused k e m n.0 r)
