-- ===== src/Reputation.antt =====
-- crates/sidevers-net/src/reputation.rs: the reputation of peers, with a token bucket for each. The
-- tokens are whole numbers: the buckets start full, the refill is a whole number for each second, and
-- what exceeds the capacity, which is below 2^32, is cut off, so that no sum in the floating-point
-- numbers of the code is rounded. Each method holds the mutex from start to end.
pub mod Failures
pub mod Rate
pub mod Refusal
pub mod Sybil
use sidevers_protocol.Cbor.Writer.{Bytes}
use sidevers_protocol.Common.{
  ℕ, suc, ◌+◌, ◌-◌, ◌*◌, ◌^◌, min, Bool, true, false, Option, none, some, List, [], ◌∷◌, ltb, leb,
  if◌then◌else◌,
}
use sidevers_protocol.Common.Eq.{bytes_Eq}
use sidevers_protocol.Table.{Table, lookup, insert}

pub record ReputationPolicy : Type 0 where
  pub bucket_capacity : ℕ
  pub refill_per_sec : ℕ
  pub max_sig_failures : ℕ
  pub max_malformed : ℕ

abbrev pub default_policy : ReputationPolicy
default_policy = record {
  bucket_capacity = 100;
  refill_per_sec = 10;
  max_sig_failures = 10;
  max_malformed = 25;
}

pub record PeerReputation : Type 0 where
  pub envelopes_seen : ℕ
  pub sig_failures : ℕ
  pub malformed_payloads : ℕ
  pub rate_limit_hits : ℕ
  pub last_seen_at : ℕ
  pub last_misbehavior_at : Option ℕ
  pub tokens : ℕ
  pub last_refill_at : ℕ
  pub refused : Bool

abbrev pub Peers : Type 0
Peers = Table Bytes PeerReputation

-- `PeerReputation::fresh`
unfoldable pub fresh : ℕ → ℕ → PeerReputation
fresh now capacity = record {
  envelopes_seen = 0;
  sig_failures = 0;
  malformed_payloads = 0;
  rate_limit_hits = 0;
  last_seen_at = now;
  last_misbehavior_at = none;
  tokens = capacity;
  last_refill_at = now;
  refused = false;
}

-- `saturating_add(1)` on a `u32`.
unfoldable pub saturating_suc : ℕ → ℕ
saturating_suc n = min (n + 1) (2 ^ 32 - 1)

unfoldable pub or_fresh : ReputationPolicy → ℕ → Option PeerReputation → PeerReputation
or_fresh policy now none = fresh now policy.bucket_capacity
or_fresh policy now (some rep) = rep

-- `entry(*peer).or_insert_with(..)`
unfoldable pub entry_of : ReputationPolicy → Bytes → ℕ → Peers → PeerReputation
entry_of policy peer now m = or_fresh policy now (lookup peer m)

unfoldable pub count_seen : ℕ → PeerReputation → PeerReputation
count_seen now rep = record rep {
  envelopes_seen = saturating_suc rep.envelopes_seen;
  last_seen_at = now;
}

-- The refill since the last observation.
unfoldable pub refill : ReputationPolicy → ℕ → PeerReputation → PeerReputation
refill policy now rep =
    if ltb rep.last_refill_at now
    then record rep {
      tokens =
          min (rep.tokens + (now - rep.last_refill_at) * policy.refill_per_sec)
            policy.bucket_capacity;
      last_refill_at = now;
    }
    else rep

unfoldable pub take_token : PeerReputation → PeerReputation × Bool
take_token rep =
    if leb 1 rep.tokens
    then (record rep { tokens = rep.tokens - 1 }, true)
    else (record rep { rate_limit_hits = saturating_suc rep.rate_limit_hits }, false)

-- `if rep.refused { return false; }`, then the refill and the token.
unfoldable pub admit : Bool → ReputationPolicy → ℕ → PeerReputation → PeerReputation × Bool
admit true policy now rep = (rep, false)
admit false policy now rep = take_token (refill policy now rep)

unfoldable pub observe_entry : ReputationPolicy → ℕ → PeerReputation → PeerReputation × Bool
observe_entry policy now rep = admit rep.refused policy now (count_seen now rep)

unfoldable pub observe_envelope : ReputationPolicy → Bytes → ℕ → Peers → Peers × Bool
observe_envelope policy peer now m =
    let (rep, accepted) = observe_entry policy now (entry_of policy peer now m) in
    (insert peer rep m, accepted)

unfoldable pub fail_signature : ReputationPolicy → ℕ → PeerReputation → PeerReputation
fail_signature policy now rep =
    let failures = saturating_suc rep.sig_failures in
    record rep {
      sig_failures = failures;
      last_misbehavior_at = some now;
      refused = if leb policy.max_sig_failures failures then true else rep.refused;
    }

unfoldable pub record_sig_failure : ReputationPolicy → Bytes → ℕ → Peers → Peers × Bool
record_sig_failure policy peer now m =
    let rep = fail_signature policy now (entry_of policy peer now m) in
    (insert peer rep m, rep.refused)

unfoldable pub fail_payload : ReputationPolicy → ℕ → PeerReputation → PeerReputation
fail_payload policy now rep =
    let failures = saturating_suc rep.malformed_payloads in
    record rep {
      malformed_payloads = failures;
      last_misbehavior_at = some now;
      refused = if leb policy.max_malformed failures then true else rep.refused;
    }

unfoldable pub record_malformed : ReputationPolicy → Bytes → ℕ → Peers → Peers × Bool
record_malformed policy peer now m =
    let rep = fail_payload policy now (entry_of policy peer now m) in
    (insert peer rep m, rep.refused)

unfoldable pub refuse : ReputationPolicy → Bytes → ℕ → Peers → Peers
refuse policy peer now m = insert peer (record (entry_of policy peer now m) { refused = true }) m

unfoldable pub forgive : Bytes → Option PeerReputation → Peers → Peers
forgive peer none m = m
forgive peer (some rep) m =
    insert peer
      (record rep {
        refused = false;
        sig_failures = 0;
        malformed_payloads = 0;
        last_misbehavior_at = none;
      })
      m

unfoldable pub reinstate : Bytes → Peers → Peers
reinstate peer m = forgive peer (lookup peer m) m

unfoldable pub is_refused : Bytes → Peers → Bool
is_refused peer m = elim (lookup peer m) [ none ↦ false | some rep ↦ rep.refused ]

-- A call on the table, by any task.
pub data Event : Type 0 where
  observed : Bytes → ℕ → Event
  signature_failed : Bytes → ℕ → Event
  payload_failed : Bytes → ℕ → Event
  refused_by_user : Bytes → ℕ → Event
  reinstated : Bytes → Event

abbrev pub step : ReputationPolicy → Event → Peers → Peers
step policy (observed peer now) m = (observe_envelope policy peer now m).0
step policy (signature_failed peer now) m = (record_sig_failure policy peer now m).0
step policy (payload_failed peer now) m = (record_malformed policy peer now m).0
step policy (refused_by_user peer now) m = refuse policy peer now m
step policy (reinstated peer) m = reinstate peer m

-- Whether the call is an envelope of `k` that is let through.
abbrev pub lets_through : ReputationPolicy → Bytes → Event → Peers → Bool
lets_through policy k (observed peer now) m =
    if bytes_Eq.beq peer k then (observe_envelope policy peer now m).1 else false
lets_through policy k _ m = false

-- How many envelopes of `k` a run of calls lets through.
unfoldable pub passed : ReputationPolicy → Bytes → List Event → Peers → ℕ
passed policy k [] m = 0
passed policy k (e ∷ es) m =
    let rest = passed policy k es (step policy e m) in
    if lets_through policy k e m then suc rest else rest

unfoldable pub run : ReputationPolicy → List Event → Peers → Peers
run policy [] m = m
run policy (e ∷ es) m = run policy es (step policy e m)

-- How many of the calls record a signature failure of `k`.
abbrev pub is_failure : Bytes → Event → Bool
is_failure k (signature_failed peer now) = bytes_Eq.beq peer k
is_failure k _ = false

unfoldable pub failures : Bytes → List Event → ℕ
failures k [] = 0
failures k (e ∷ es) = let rest = failures k es in if is_failure k e then suc rest else rest
