-- ===== src/Reputation/Failures.antt =====
-- Repeated signature failures in crates/sidevers-net/src/reputation.rs.
use sidevers_protocol.Cbor.Writer.{Bytes}
use sidevers_protocol.Common.{
  ℕ, suc, ◌+◌, ◌-◌, ◌^◌, ◌≤◌, ◌<◌, min, ◌≡◌, refl, ap, ◌∙◌, ◌⊎◌, inl, inr, Bool, true, false,
  Option, none, some, List, [], ◌∷◌, arith, leb, Bool-cases, All,
}
use sidevers_protocol.Common.Eq.{bytes_Eq}
use sidevers_protocol.Reputation.{
  ReputationPolicy, PeerReputation, Peers, or_fresh, fresh, count_seen, refill, take_token, admit,
  observe_entry, observe_envelope, fail_signature, record_sig_failure, fail_payload,
  record_malformed, refuse, forgive, reinstate, Event, observed, signature_failed, payload_failed,
  refused_by_user, reinstated, step, passed, entry_of, run, is_failure, failures, saturating_suc,
}
use sidevers_protocol.Reputation.Refusal.{IsRefused, NotReinstated, run-IsRefused, refused-passed}
use sidevers_protocol.Table.{lookup, insert}
use sidevers_protocol.Table.Laws.{lookup-insert}

-- The signature failures that an entry counts.
abbrev failures_of : Option PeerReputation → ℕ
failures_of none = 0
failures_of (some rep) = rep.sig_failures

module _ (policy : ReputationPolicy) where
  or_fresh-failures :
      (now : ℕ) (o : Option PeerReputation) → (or_fresh policy now o).sig_failures ≡ failures_of o
  unfolding or_fresh fresh
  or_fresh-failures now none = refl
  or_fresh-failures now (some rep) = refl

  admit-failures :
      (b : Bool) (now : ℕ) (rep : PeerReputation)
      → (admit b policy now rep).0.sig_failures ≡ rep.sig_failures
  unfolding admit take_token refill
  admit-failures true now rep = refl
  admit-failures false now rep = ground arith

  insert-failures :
      (k peer : Bytes) (rep : PeerReputation) (m : Peers)
      → rep.sig_failures ≡ failures_of (lookup peer m)
      → failures_of (lookup k (insert peer rep m)) ≡ failures_of (lookup k m)
  insert-failures k peer rep m h = elim (Bool-cases (bytes_Eq.beq peer k)) [
    | inl x ↦
        rw (lookup-insert peer k rep m)
          (rw x (h ∙ ap (λ (y : Bytes). failures_of (lookup y m)) ((bytes_Eq.beq_iff peer k).0 x)))
    | inr x ↦ rw (lookup-insert peer k rep m) (rw x refl)
  ]

  -- Any other call leaves the count.
  step-failures :
      (k : Bytes) (e : Event) (m : Peers)
      → NotReinstated k e
      → is_failure k e ≡ false
      → failures_of (lookup k (step policy e m)) ≡ failures_of (lookup k m)
  unfolding observe_envelope observe_entry count_seen record_sig_failure record_malformed
      fail_payload refuse reinstate entry_of
  step-failures k (observed peer now) m n h = insert-failures k peer _ m (
      admit-failures _ now (count_seen now (or_fresh policy now (lookup peer m)))
      ∙ or_fresh-failures now (lookup peer m))
  step-failures k (signature_failed peer now) m n h = rw (lookup-insert peer k _ m) (rw h refl)
  step-failures k (payload_failed peer now) m n h =
      insert-failures k peer _ m (or_fresh-failures now (lookup peer m))
  step-failures k (refused_by_user peer now) m n h =
      insert-failures k peer _ m (or_fresh-failures now (lookup peer m))
  step-failures k (reinstated peer) m n h = other (lookup peer m)
    where
      other :
          (o : Option PeerReputation)
          → failures_of (lookup k (forgive peer o m)) ≡ failures_of (lookup k m)
      other none = unfold forgive in refl
      other (some rep) = unfold forgive in rw (lookup-insert peer k _ m) (rw n refl)

  fail_signature_lem :
      (now : ℕ) (rep : PeerReputation)
      → policy.max_sig_failures < 2 ^ 32
      → ((fail_signature policy now rep).refused ≡ true)
        ⊎ (((fail_signature policy now rep).sig_failures ≡ rep.sig_failures + 1)
            × (rep.sig_failures + 1 < policy.max_sig_failures))
  unfolding fail_signature saturating_suc
  fail_signature_lem now rep h =
      elim (Bool-cases (leb policy.max_sig_failures (min (rep.sig_failures + 1) (2 ^ 32 - 1)))) [
        | inl x ↦ inl (rw x refl)
        | inr x ↦ inr (ground arith)
      ]

  failure_step :
      (k : Bytes) (e : Event) (m : Peers)
      → policy.max_sig_failures < 2 ^ 32
      → is_failure k e ≡ true
      → IsRefused (lookup k (step policy e m))
        ⊎ ((failures_of (lookup k (step policy e m)) ≡ failures_of (lookup k m) + 1)
            × (failures_of (lookup k m) + 1 < policy.max_sig_failures))
  unfolding record_sig_failure entry_of
  failure_step k (signature_failed peer now) m h x =
      let rep = or_fresh policy now (lookup peer m) in
      let same : failures_of (lookup peer m) ≡ failures_of (lookup k m) =
        ap (λ (y : Bytes). failures_of (lookup y m)) ((bytes_Eq.beq_iff peer k).0 x) in
      let count = or_fresh-failures now (lookup peer m) in
      rw (lookup-insert peer k (fail_signature policy now rep) m) (
        rw x (elim (fail_signature_lem now rep h) [
          | inl r ↦ inl r
          | inr (p, q) ↦ inr (omega arith, omega arith)
        ]))
  failure_step k (observed peer now) m h x = cc
  failure_step k (payload_failed peer now) m h x = cc
  failure_step k (refused_by_user peer now) m h x = cc
  failure_step k (reinstated peer) m h x = cc

  failures-IsRefused :
      (k : Bytes) (es : List Event) (m : Peers)
      → policy.max_sig_failures < 2 ^ 32
      → All (NotReinstated k) es
      → 0 < failures k es
      → policy.max_sig_failures ≤ failures_of (lookup k m) + failures k es
      → IsRefused (lookup k (run policy es m))
  unfolding failures run
  failures-IsRefused k [] m h n enough le = absurd (omega arith)
  failures-IsRefused k (e ∷ es) m h n enough le = elim (Bool-cases (is_failure k e)) [
    | inl x ↦ elim (failure_step k e m h x) [
      | inl r ↦ run-IsRefused policy k es (step policy e m) n.1 r
      | inr (p, q) ↦
          let le' : policy.max_sig_failures ≤ failures_of (lookup k m) + suc (failures k es) =
            rw x at le in
          failures-IsRefused k es (step policy e m) h n.1 (omega arith) (omega arith)
    ]
    | inr x ↦
        let same = step-failures k e m n.0 x in
        let le' : policy.max_sig_failures ≤ failures_of (lookup k m) + failures k es = rw x at le in
        failures-IsRefused k es (step policy e m) h n.1 (rw x at enough) (omega arith)
  ]

  -- With a threshold from 1 to 2^32 - 1: once the calls of a run that does not reinstate a peer record
  -- as many signature failures of it as the threshold, whatever the other calls are, no envelope of
  -- that peer is let through in any later run that does not reinstate it.
  pub failures_refuse :
      (k : Bytes) (before later : List Event) (m : Peers)
      → 0 < policy.max_sig_failures
      → policy.max_sig_failures < 2 ^ 32
      → policy.max_sig_failures ≤ failures k before
      → All (NotReinstated k) before
      → All (NotReinstated k) later
      → passed policy k later (run policy before m) ≡ 0
  failures_refuse k before later m positive small many n n' =
      refused-passed policy k later (run policy before m) n'
        (failures-IsRefused k before m small n (omega arith) (omega arith))
