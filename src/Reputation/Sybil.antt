-- ===== src/Reputation/Sybil.antt =====
-- `IpSybilTracker` of crates/sidevers-net/src/reputation.rs: how many new identities an address of the
-- network may show within a window. A network address is its bytes. Each method holds the mutex from
-- start to end.
pub mod Quota
use sidevers_protocol.Cbor.Writer.{Bytes}
use sidevers_protocol.Common.{ℕ, ◌-◌, Option, none, some, List, [], leb, if◌then◌else◌, length}
use sidevers_protocol.Common.Eq.{bytes_Eq}
use sidevers_protocol.Publishers.{contains, add}
use sidevers_protocol.Reputation.{saturating_suc}
use sidevers_protocol.Table.{Table, lookup, insert}

pub record IpSybilPolicy : Type 0 where
  pub window_secs : ℕ
  pub max_new_pubkeys_per_ip : ℕ

abbrev pub default_sybil_policy : IpSybilPolicy
default_sybil_policy = record { window_secs = 3600; max_new_pubkeys_per_ip = 16 }

pub record IpSybilState : Type 0 where
  pub pubkeys : List Bytes
  pub window_start_at : ℕ
  pub over_quota_count : ℕ

pub data SybilDecision : Type 0 where
  allow over_quota : SybilDecision

abbrev pub IpSybilTracker : Type 0
IpSybilTracker = Table Bytes IpSybilState

-- `entry(ip).or_insert_with(|| IpSybilState::fresh(now))`
unfoldable pub state_of : ℕ → Option IpSybilState → IpSybilState
state_of now none = record { pubkeys = []; window_start_at = now; over_quota_count = 0 }
state_of now (some st) = st

-- A window that has expired starts again.
unfoldable pub roll : IpSybilPolicy → ℕ → IpSybilState → IpSybilState
roll policy now st =
    if leb policy.window_secs (now - st.window_start_at)
    then record st { pubkeys = []; window_start_at = now }
    else st

unfoldable pub decide : IpSybilPolicy → Bytes → IpSybilState → IpSybilState × SybilDecision
decide policy peer st =
    if contains peer st.pubkeys
    then (st, allow)
    else if leb policy.max_new_pubkeys_per_ip (length st.pubkeys)
    then (record st { over_quota_count = saturating_suc st.over_quota_count }, over_quota)
    else (record st { pubkeys = add peer st.pubkeys }, allow)

unfoldable pub observe :
    IpSybilPolicy → Bytes → Bytes → ℕ → IpSybilTracker → IpSybilTracker × SybilDecision
observe policy peer ip now m =
    let (st, d) = decide policy peer (roll policy now (state_of now (lookup ip m))) in
    (insert ip st m, d)
