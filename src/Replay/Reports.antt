-- ===== src/Replay/Reports.antt =====
-- What an observation reports in crates/sidevers-core/src/replay.rs.
use sidevers_protocol.Common.{
  ℕ, ◌-◌, ◌<◌, ◌≡◌, ◌↔◌, refl, arith, Bool, true, false, Option, none, some, if◌then◌else◌, ap, ◌∙◌,
  inl, inr, Bool-cases,
}
use sidevers_protocol.Replay.{Key, key_Eq, ReplayCache, alive, sweep, enter, observe}
use sidevers_protocol.Table.{lookup, IsMap}
use sidevers_protocol.Table.Laws.{lookup-retain}

-- What is reported of an entry that was first seen at that time.
abbrev is_alive : ℕ → ℕ → Option ℕ → Bool
is_alive ttl now none = false
is_alive ttl now (some t) = alive ttl now t

-- The entry that a sweep leaves of one.
abbrev pub swept : ℕ → ℕ → Option ℕ → Option ℕ
swept ttl now none = none
swept ttl now (some t) = if alive ttl now t then some t else none

pub lookup-sweep :
    (now : ℕ) (k : Key) (s : ReplayCache)
    → IsMap s.entries
    → lookup k (sweep now s).entries ≡ swept s.ttl now (lookup k s.entries)
unfolding sweep
lookup-sweep now k s h =
    lookup-retain (λ (_ : Key) t. alive s.ttl now t) k s.entries h ∙ as_swept (lookup k s.entries)
  where
    as_swept :
        (f : Option ℕ)
        → elim f [ none ↦ none | some t ↦ if alive s.ttl now t then some t else none ]
          ≡ swept s.ttl now f
    as_swept none = refl
    as_swept (some t) = refl

-- A swept cache reports an entry that it has.
enter-reports :
    (now : ℕ) (k : Key) (s : ReplayCache) (f : Option ℕ)
    → (enter now k s (swept s.ttl now f)).1 ≡ is_alive s.ttl now f
unfolding enter
enter-reports now k s none = refl
enter-reports now k s (some t) = elim (Bool-cases (alive s.ttl now t)) [
  | inl x ↦ rw x refl
  | inr x ↦ rw x refl
]

pub alive-lt : (ttl now t : ℕ) → alive ttl now t ≡ true → now - t < ttl
unfolding alive
alive-lt ttl now t e = ground arith

is_alive_iff :
    (ttl now : ℕ) (f : Option ℕ)
    → (is_alive ttl now f ≡ true)
      ↔ ((first_seen : ℕ) × (f ≡ some first_seen) × (now - first_seen < ttl))
unfolding alive
is_alive_iff ttl now none = (λ e. cc, λ (t, e, l). cc)
is_alive_iff ttl now (some t) = (λ e. (t, refl, ground arith), λ (u, e, l). ground arith)

-- From a cache with distinct keys, an observation is reported as a replay exactly if the key has an
-- entry, and that entry has not expired: it was first seen less than `ttl` before.
pub observe-reports :
    (now : ℕ) (k : Key) (s : ReplayCache)
    → IsMap s.entries
    → ((observe now k s).1 ≡ true)
      ↔ ((first_seen : ℕ) × (lookup k s.entries ≡ some first_seen) × (now - first_seen < s.ttl))
unfolding observe sweep
observe-reports now k s h =
    let reported : (observe now k s).1 ≡ is_alive s.ttl now (lookup k s.entries) =
      ap (λ f. (enter now k (sweep now s) f).1) (lookup-sweep now k s h)
      ∙ enter-reports now k (sweep now s) (lookup k s.entries) in
    rw reported (is_alive_iff s.ttl now (lookup k s.entries))
