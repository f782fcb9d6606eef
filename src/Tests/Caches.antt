-- ===== src/Tests/Caches.antt =====
-- The theorems on the replay cache at a small cache.
use sidevers_protocol.Common.{
  ◌≡◌, ◌↔◌, refl, true, some, [], ◌∷◌, arith, ◌≤◌, ◌<◌, ℕ, ◌+◌, ◌-◌, bytes_eq,
}
use sidevers_protocol.Common.Eq.{bytes_Eq}
use sidevers_protocol.Replay.{Key, ReplayCache, alive, observe, preload, key_Eq}
use sidevers_protocol.Replay.Bounds.{IsBounded, observe-IsBounded, preload-IsBounded}
use sidevers_protocol.Replay.Detect.{observe_all, replay_detected}
use sidevers_protocol.Replay.Journal.{apply_calls, IsMirrored, observe-IsMirrored}
use sidevers_protocol.Replay.Oldest.{count_since}
use sidevers_protocol.Replay.Reports.{observe-reports}
use sidevers_protocol.Table.{lookup}

abbrev key_of : ℕ → Key
key_of n = (n ∷ [], n ∷ n ∷ [])

-- Two entries, the bound is three.
abbrev cache : ReplayCache
cache = record {
  ttl = 600;
  max_entries = 3;
  entries = (key_of 1, 1000) ∷ (key_of 2, 900) ∷ [];
  journal = some [];
}

cache-IsBounded : IsBounded cache
unfolding bytes_eq
cache-IsBounded = (((refl, tt), (tt, tt)), omega arith, omega arith)

lookup-cache : lookup (key_of 1) cache.entries ≡ some 1000
unfolding lookup bytes_eq
lookup-cache = refl

observe-IsBounded_example : IsBounded (observe 1100 (key_of 5) cache).0
observe-IsBounded_example = observe-IsBounded 1100 (key_of 5) cache cache-IsBounded

preload-IsBounded_example :
    IsBounded (preload 1100 ((key_of 7, 1050) ∷ (key_of 8, 1060) ∷ []) cache)
preload-IsBounded_example =
    preload-IsBounded 1100 ((key_of 7, 1050) ∷ (key_of 8, 1060) ∷ []) cache cache-IsBounded.0
      (omega arith)

observe-reports_example : ((observe 1100 (key_of 1) cache).1 ≡ true) ↔ (
    (first_seen : ℕ) × (lookup (key_of 1) cache.entries ≡ some first_seen)
    × (1100 - first_seen < 600))
observe-reports_example = observe-reports 1100 (key_of 1) cache cache-IsBounded.0

few_since : count_since 1000 cache.entries + 2 ≤ 3
unfolding count_since
few_since = omega arith

alive_then :
    (alive 600 1100 1000 ≡ true) × (alive 600 1200 1000 ≡ true) × (alive 600 1599 1000 ≡ true)
unfolding alive
alive_then = (refl, refl, refl)

replay_detected_example :
    (observe 1599 (key_of 1) (observe_all ((1100, key_of 5) ∷ (1200, key_of 6) ∷ []) cache)).1
    ≡ true
replay_detected_example =
    replay_detected ((1100, key_of 5) ∷ (1200, key_of 6) ∷ []) 1599 (key_of 1) 1000 cache
      cache-IsBounded lookup-cache few_since (alive_then.0, (alive_then.1, tt)) alive_then.2

mirrored : IsMirrored cache.entries cache
unfolding apply_calls
mirrored = (refl, λ k. refl)

observe-IsMirrored_example : IsMirrored cache.entries (observe 1100 (key_of 5) cache).0
observe-IsMirrored_example =
    observe-IsMirrored cache.entries 1100 (key_of 5) cache cache-IsBounded.0 mirrored
