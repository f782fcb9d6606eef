-- ===== src/Tests/Network.antt =====
-- The theorems on gossip, fresh identities and contracts at samples.
use sidevers_protocol.Cbor.Writer.{Bytes}
use sidevers_protocol.Common.{
  ℕ, ◌≡◌, ◌≤◌, [], ◌∷◌, List, none, arith, refl, true, length, ◌↔◌, codes, All,
}
use sidevers_protocol.Gossip.{GossipState}
use sidevers_protocol.Gossip.Once.{firsts, first_once}
use sidevers_protocol.Replay.{Key}
use sidevers_protocol.Reputation.Sybil.{IpSybilPolicy}
use sidevers_protocol.Reputation.Sybil.Quota.{Sighting, allowed, Within, quota}
use sidevers_protocol.Table.{lookup}
use sidevers_protocol.Verse.{ContractObject, mixed, requires_reconsent, classify_amendment}
use sidevers_protocol.Verse.Amendment.{Tightens, Loosens, classify_amendment_iff}

abbrev post : Key
post = (1 ∷ [], 2 ∷ [])

abbrev other_post : Key
other_post = (1 ∷ [], 3 ∷ [])

abbrev broadcasts : List (Key × ℕ)
broadcasts = (post, 1000) ∷ (other_post, 1001) ∷ (post, 1002) ∷ (post, 1599) ∷ []

abbrev gossip : GossipState
gossip = record { subs = []; dedup = (other_post, 5) ∷ [] }

first_once_example : firsts post broadcasts gossip ≤ 1
first_once_example =
    first_once 1000 post broadcasts gossip
      (
        (omega arith, omega arith),
        (
          (omega arith, omega arith),
          ((omega arith, omega arith), ((omega arith, omega arith), tt)),
        ),
      )
      (tt, tt)

abbrev sybil_policy : IpSybilPolicy
sybil_policy = record { window_secs = 3600; max_new_pubkeys_per_ip = 1 }

abbrev host : Bytes
host = 10 ∷ 0 ∷ 0 ∷ 1 ∷ []

abbrev sightings : List Sighting
sightings =
    record { peer = 1 ∷ []; ip = host; now = 100 }
    ∷ record { peer = 2 ∷ []; ip = host; now = 101 }
    ∷ record { peer = 1 ∷ []; ip = host; now = 3699 }
    ∷ []

quota_example :
    (set : List Bytes) × (length set ≤ 1)
    × All (Within set) (allowed sybil_policy host sightings [])
quota_example =
    quota sybil_policy 100 host sightings []
      ((omega arith, omega arith), ((omega arith, omega arith), ((omega arith, omega arith), tt)))
      (unfold lookup in refl)

abbrev contract : ContractObject
contract = record {
  verse = 1 ∷ [];
  version = 1;
  title = codes "club";
  description = [];
  required =
      record { kind = codes "email"; label = codes "Email"; description = none; validator = none }
      ∷ [];
  optional = [];
  forbidden = codes "phone" ∷ [];
  scoped = [];
  policies = record { kind = codes "ephemeral"; params = (codes "ttl_secs", codes "60") ∷ [] } ∷ [];
  moderators = [];
  issued_at = 1700000000;
  signature = [];
}

-- Another version, which forbids nothing and does not archive.
abbrev contract_two : ContractObject
contract_two = record contract {
  version = 2;
  forbidden = [];
  policies = record { kind = codes "no-archive"; params = [] } ∷ [];
}

classify_amendment_iff_example :
    ((requires_reconsent (classify_amendment contract contract_two) ≡ true)
      ↔ Tightens contract contract_two)
    × ((classify_amendment contract contract_two ≡ mixed)
        ↔ Tightens contract contract_two × Loosens contract contract_two)
classify_amendment_iff_example = classify_amendment_iff contract contract_two
