-- ===== src/Tests/Policies.antt =====
-- The theorems on peers, publishers, reputation and framing at samples.
use sidevers_protocol.Common.Eq.{bytes_Eq}
use sidevers_protocol.Cbor.Writer.{
  Bytes, write_head, write_u64, write_bytes, write_text, write_map_header, key, uint, bytes,
  write_entries, encode_map,
}
use sidevers_protocol.Cbor.Optional.{bytes_or_null}
use sidevers_protocol.Common.{
  ℕ, ◌≡◌, ◌≤◌, ◌+◌, ◌-◌, ◌*◌, ◌%◌, [], ◌∷◌, List, none, some, arith, refl, true, false, ◌^◌, ◌++◌,
  to_be_bytes, length, bytes_eq, ◌&&◌, if◌then◌else◌, ◌↔◌, ◌⊎◌,
}
use sidevers_protocol.Envelope.{to_wire_bytes, encode_unsigned}
use sidevers_protocol.Envelope.Signed.{sign_with}
use sidevers_protocol.Errors.{ok}
use sidevers_protocol.Framing.{send_envelope}
use sidevers_protocol.Framing.RoundTrip.{send_all, recv_all, recv_all-send_all}
use sidevers_protocol.Messages.PeerInfo.{PeerInfo}
use sidevers_protocol.Peers.{
  PeerTable, insert_peer, make_room, drop_oldest, least_seen, contains_key, sample,
}
use sidevers_protocol.Peers.Bounds.{IsBounded, insert_peer-IsBounded, insert_peer-oldest}
use sidevers_protocol.Peers.Sample.{In, InTable, NoFresher, IsFreshFirst, IsWanted, sample_lem}
use sidevers_protocol.Publishers.{PublisherTable, has_publisher, drop_publisher}
use sidevers_protocol.Publishers.Members.{drop_publisher_lem}
use sidevers_protocol.Reputation.{
  ReputationPolicy, Event, observed, signature_failed, passed, run, failures,
}
use sidevers_protocol.Reputation.Failures.{failures_refuse}
use sidevers_protocol.Reputation.Rate.{rate_limit}
use sidevers_protocol.Table.{lookup, insert, remove}
use sidevers_protocol.Tests.Envelopes.{sample-parts}
use sidevers_protocol.Tests.Samples

abbrev policy : ReputationPolicy
policy = record { bucket_capacity = 2; refill_per_sec = 1; max_sig_failures = 2; max_malformed = 2 }

abbrev one_peer : Bytes
one_peer = 1 ∷ []

abbrev other_peer : Bytes
other_peer = 2 ∷ []

abbrev calls : List Event
calls =
    observed one_peer 100
    ∷ observed other_peer 101
    ∷ observed one_peer 101
    ∷ signature_failed one_peer 101
    ∷ observed one_peer 103
    ∷ []

rate_limit_example : passed policy one_peer calls [] ≤ 2 + (103 - 100) * 1
rate_limit_example =
    rate_limit policy 100 103 one_peer calls []
      (
        (omega arith, omega arith),
        (
          (omega arith, omega arith),
          (
            (omega arith, omega arith),
            ((omega arith, omega arith), ((omega arith, omega arith), tt)),
          ),
        ),
      )
      (unfold lookup in refl)

abbrev bad_calls : List Event
bad_calls =
    signature_failed one_peer 100 ∷ observed other_peer 100 ∷ signature_failed one_peer 101 ∷ []

bad_calls-count : failures one_peer bad_calls ≡ 2
unfolding failures bytes_eq
bad_calls-count = refl

failures_refuse_example : passed policy one_peer calls (run policy bad_calls []) ≡ 0
failures_refuse_example =
    failures_refuse policy one_peer bad_calls calls [] (omega arith) (omega arith)
      (omega (arith, bad_calls-count)) (tt, (tt, (tt, tt))) (tt, (tt, (tt, (tt, (tt, tt)))))

abbrev published : PublisherTable
published = (5 ∷ [], one_peer ∷ other_peer ∷ []) ∷ (6 ∷ [], one_peer ∷ []) ∷ []

drop_publisher_lem_example :
    ((h t : Bytes)
      → has_publisher h t (drop_publisher (6 ∷ []) one_peer published).1 ≡ (
          if bytes_Eq.beq (6 ∷ []) h && bytes_Eq.beq one_peer t
          then false
          else has_publisher h t published))
    × (((drop_publisher (6 ∷ []) one_peer published).0 ≡ true) ↔ (
        (u : Bytes) × (has_publisher (6 ∷ []) u (drop_publisher (6 ∷ []) one_peer published).1
          ≡ true)))
drop_publisher_lem_example = drop_publisher_lem (6 ∷ []) one_peer published

abbrev peer_at : ℕ → ℕ → PeerInfo
peer_at n seen = record { address = n ∷ []; intents = n ∷ []; endpoints = []; last_seen = seen }

abbrev peers : PeerTable
peers = record { peers = (1 ∷ [], peer_at 1 500) ∷ (2 ∷ [], peer_at 2 400) ∷ []; max = 2 }

peers-IsBounded : IsBounded peers
unfolding bytes_eq
peers-IsBounded = (((refl, tt), (tt, tt)), omega arith)

insert_peer-IsBounded_example : IsBounded (insert_peer (peer_at 3 600) peers)
insert_peer-IsBounded_example =
    insert_peer-IsBounded (peer_at 3 600) peers (omega arith) peers-IsBounded

second-there : lookup (2 ∷ []) peers.peers ≡ some (peer_at 2 400)
unfolding lookup bytes_eq
second-there = refl

second-gone : lookup (2 ∷ []) (insert_peer (peer_at 3 600) peers).peers ≡ none
unfolding lookup bytes_eq insert_peer make_room drop_oldest least_seen contains_key insert remove
second-gone = refl

first-left : lookup (1 ∷ []) (insert_peer (peer_at 3 600) peers).peers ≡ some (peer_at 1 500)
unfolding lookup bytes_eq insert_peer make_room drop_oldest least_seen contains_key insert remove
first-left = refl

other-address : bytes_Eq.beq (3 ∷ []) (1 ∷ []) ≡ false
unfolding bytes_eq
other-address = refl

insert_peer-oldest_example : 400 ≤ 500
insert_peer-oldest_example =
    insert_peer-oldest (peer_at 3 600) peers (2 ∷ []) (1 ∷ []) (peer_at 2 400) (peer_at 1 500)
      (omega arith) peers-IsBounded.0 second-there second-gone other-address first-left

sample_lem_example :
    (length (sample 1 (some 1) peers) ≤ 1)
    × IsFreshFirst (sample 1 (some 1) peers)
    × ((p : PeerInfo)
        → In p (sample 1 (some 1) peers)
        → InTable p peers.peers × IsWanted (some 1) p)
    × ((p : PeerInfo)
        → InTable p peers.peers × IsWanted (some 1) p
        → In p (sample 1 (some 1) peers)
          ⊎ ((length (sample 1 (some 1) peers) ≡ 1) × NoFresher p (sample 1 (some 1) peers)))
sample_lem_example = sample_lem 1 (some 1) peers

-- The bytes of one envelope, behind their length.
abbrev sent : Bytes
sent =
    []
    ++ (to_be_bytes 4 (length (to_wire_bytes Samples.sample) % 2 ^ 32)
        ++ to_wire_bytes Samples.sample)

send_all-sample : send_all (Samples.sample ∷ []) [] ≡ ok sent
unfolding send_all send_envelope to_wire_bytes encode_map write_entries write_map_header write_head
    key uint bytes write_text write_bytes write_u64 bytes_or_null Samples.fill sign_with
    encode_unsigned to_be_bytes Samples.sum_below
send_all-sample = refl

recv_all-send_all_example : recv_all Samples.toy 1 sent ≡ ok (Samples.sample ∷ [], [])
recv_all-send_all_example =
    recv_all-send_all Samples.toy (Samples.sample ∷ []) sent (sample-parts, tt) send_all-sample
