-- ===== src/Gossip.antt =====
-- crates/sidevers-net/src/gossip.rs: subscriptions, and the cache of broadcasts that were seen. An
-- envelope is its sender and its nonce; the clock's time is an argument. Each method holds the lock of
-- what it changes from start to end.
pub mod Once
use sidevers_protocol.Cbor.Writer.{Bytes}
use sidevers_protocol.Common.{
  ℕ, ◌-◌, Bool, true, false, Option, none, some, List, [], ltb, leb, if◌then◌else◌, length,
}
use sidevers_protocol.Publishers.{contains, add, discard}
use sidevers_protocol.Replay.{Key, key_Eq}
use sidevers_protocol.Table.{Table, lookup, insert, retain}

abbrev pub dedup_ttl_secs : ℕ
dedup_ttl_secs = 600

abbrev pub max_dedup_entries : ℕ
max_dedup_entries = 10000

-- `DedupKey` is the sender with the nonce.
pub record GossipState : Type 0 where
  pub subs : List Bytes
  pub dedup : Table Key ℕ

abbrev pub new_gossip : GossipState
new_gossip = record { subs = []; dedup = [] }

unfoldable pub subscribe : Bytes → GossipState → GossipState
subscribe publisher g = record g { subs = add publisher g.subs }

unfoldable pub unsubscribe : Bytes → GossipState → GossipState
unsubscribe publisher g = record g { subs = discard publisher g.subs }

unfoldable pub is_interesting : Bytes → GossipState → Bool
is_interesting publisher g = contains publisher g.subs

abbrev pub is_recent : ℕ → Key → ℕ → Bool
is_recent now k ts = ltb (now - ts) dedup_ttl_secs

unfoldable pub sweep_dedup : ℕ → Table Key ℕ → Table Key ℕ
sweep_dedup now m = if leb max_dedup_entries (length m) then retain (is_recent now) m else m

-- The two arms of the match on the entry of the key.
unfoldable pub enter_dedup : ℕ → Key → Option ℕ → Table Key ℕ → Table Key ℕ × Bool
enter_dedup now k none m = (insert k now m, true)
enter_dedup now k (some ts) m = (m, false)

unfoldable pub observe_broadcast : ℕ → Key → GossipState → GossipState × Bool
observe_broadcast now k g =
    let swept = sweep_dedup now g.dedup in
    let (m, first) = enter_dedup now k (lookup k swept) swept in (record g { dedup = m }, first)
