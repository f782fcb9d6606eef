-- ===== src/Replay/Detect.antt =====
-- Replays are detected by crates/sidevers-core/src/replay.rs.
use sidevers_protocol.Common.{
  ℕ, ◌≡◌, refl, Bool, false, Option, none, some, suc, ◌≤◌, ◌<◌, ◌∙◌, [], ◌∷◌, arith, length, inl,
  inr, Bool-cases, ◌+◌, true, leb, subst, List, map,
}
use sidevers_protocol.Replay.{
  Key, key_Eq, ReplayCache, alive, sweep, evict_key, find_oldest_in, make_room, insert_new, enter,
  observe, drop_oldest, oldest_of,
}
use sidevers_protocol.Replay.Bounds.{
  IsBounded, sweep-IsBounded, evict_key-entries, enter-IsBounded, make_room-fits,
}
use sidevers_protocol.Replay.Oldest.{lookup-oldest, oldest-lt_cons, oldest_time, count_since}
use sidevers_protocol.Replay.Reports.{lookup-sweep, observe-reports, alive-lt}
use sidevers_protocol.Table.{Table, lookup, insert, remove, IsMap, retain}
use sidevers_protocol.Table.Laws.{lookup-remove, lookup-insert}

count_since-insert :
    (t now : ℕ) (k : Key) (m : Table Key ℕ) → count_since t (insert k now m) ≤ suc (count_since t m)
unfolding count_since insert
count_since-insert t now k [] = ground arith
count_since-insert t now k ((j, u) ∷ m) = ground (arith, count_since-insert t now k m)

count_since-remove :
    (t : ℕ) (k : Key) (m : Table Key ℕ) → count_since t (remove k m) ≤ count_since t m
unfolding count_since remove
count_since-remove t k [] = omega arith
count_since-remove t k ((j, u) ∷ m) = ground (arith, count_since-remove t k m)

count_since-retain :
    (t : ℕ) (p : Key → ℕ → Bool) (m : Table Key ℕ) → count_since t (retain p m) ≤ count_since t m
unfolding count_since retain
count_since-retain t p [] = omega arith
count_since-retain t p ((j, u) ∷ m) = ground (arith, count_since-retain t p m)

-- A full map loses its oldest entry, which is not one that all others are older than.
drop_oldest-keeps :
    (k : Key) (t : ℕ) (m : Table Key ℕ)
    → IsMap m
    → lookup k m ≡ some t
    → count_since t m < length m
    → (lookup k (drop_oldest m) ≡ some t) × (count_since t (drop_oldest m) ≤ count_since t m)
unfolding drop_oldest
drop_oldest-keeps k t [] h e lt = absurd (omega arith)
drop_oldest-keeps k t ((j, u) ∷ m) h e lt =
    let old : oldest_time u m < t = oldest-lt_cons t u j m lt in
    let found : lookup (oldest_of j u m) ((j, u) ∷ m) ≡ some (oldest_time u m) =
      lookup-oldest j u m h in
    let apart : key_Eq.beq (oldest_of j u m) k ≡ false =
      elim (Bool-cases (key_Eq.beq (oldest_of j u m) k)) [
        | inl x ↦
            let same : oldest_of j u m ≡ k = (key_Eq.beq_iff _ _).0 x in
            let at_k : lookup k ((j, u) ∷ m) ≡ some (oldest_time u m) =
              subst (λ (y : Key). lookup y ((j, u) ∷ m) ≡ some (oldest_time u m)) same found in
            let same_time : oldest_time u m ≡ t = cc in absurd (omega arith)
        | inr x ↦ x
      ] in
    (
      rw (lookup-remove (oldest_of j u m) k ((j, u) ∷ m)) (rw apart e),
      count_since-remove t (oldest_of j u m) ((j, u) ∷ m),
    )

make_room-keeps :
    (k : Key) (t : ℕ) (s : ReplayCache)
    → IsMap s.entries
    → lookup k s.entries ≡ some t
    → count_since t s.entries < s.max_entries
    → (lookup k (make_room s).entries ≡ some t)
      × (count_since t (make_room s).entries ≤ count_since t s.entries)
unfolding make_room
make_room-keeps k t s h e lt = elim (Bool-cases (leb s.max_entries (length s.entries))) [
  | inl x ↦
      let full : s.max_entries ≤ length s.entries = ground arith in
      rw x (
        rw (evict_key-entries s s.entries refl) (drop_oldest-keeps k t s.entries h e (omega arith)))
  | inr x ↦ rw x (e, omega arith)
]

-- The entry of `k` with the time `t` is there, and `n` more observations leave it in the cache.
abbrev pub IsSafe : Key → ℕ → ℕ → ReplayCache → Type 0
IsSafe k t n s =
    IsBounded s × (lookup k s.entries ≡ some t) × (count_since t s.entries + n ≤ s.max_entries)

sweep-IsSafe :
    (now n : ℕ) (k : Key) (t : ℕ) (s : ReplayCache)
    → alive s.ttl now t ≡ true
    → IsSafe k t n s
    → IsSafe k t n (sweep now s)
unfolding sweep
sweep-IsSafe now n k t s a (h, e, c) =
    let le = count_since-retain t (λ (_ : Key) u. alive s.ttl now u) s.entries in
    (sweep-IsBounded now s h, lookup-sweep now k s h.0 ∙ rw e (rw a refl), omega arith)

enter-IsSafe :
    (now n : ℕ) (j k : Key) (t : ℕ) (s : ReplayCache) (f : Option ℕ)
    → lookup j s.entries ≡ f
    → IsSafe k t (suc n) s
    → IsSafe k t n (enter now j s f).0
unfolding enter insert_new
enter-IsSafe now n j k t s (some u) q (h, e, c) = (h, e, omega arith)
enter-IsSafe now n j k t s none q (h, e, c) =
    let apart : key_Eq.beq j k ≡ false = elim (Bool-cases (key_Eq.beq j k)) [
      | inl x ↦
          let missing : lookup k s.entries ≡ none =
            subst (λ (y : Key). lookup y s.entries ≡ none) ((key_Eq.beq_iff j k).0 x) q in
          cc
      | inr x ↦ x
    ] in
    let (same, map, fits) = make_room-fits s h in
    let (kept, le) = make_room-keeps k t s h.0 e (omega arith) in
    let more = count_since-insert t now j (make_room s).entries in
    (
      enter-IsBounded now j s none h,
      lookup-insert j k now (make_room s).entries ∙ rw apart kept,
      rw same (omega arith),
    )

-- A run of observations, each with its time and its key.
unfoldable pub observe_all : List (ℕ × Key) → ReplayCache → ReplayCache
observe_all [] s = s
observe_all ((now, k) ∷ os) s = observe_all os (observe now k s).0

-- The entry with the time `t` has not expired at any of them.
abbrev pub AllAlive : ℕ → ℕ → List (ℕ × Key) → Type 0
AllAlive ttl t [] = Unit {0}
AllAlive ttl t ((now, k) ∷ os) = (alive ttl now t ≡ true) × AllAlive ttl t os

evict_key-ttl : (s : ReplayCache) (k : Option Key) → (evict_key k s).ttl ≡ s.ttl
unfolding evict_key
evict_key-ttl s none = refl
evict_key-ttl s (some k) = refl

make_room-ttl : (s : ReplayCache) → (make_room s).ttl ≡ s.ttl
unfolding make_room
make_room-ttl s = elim (Bool-cases (leb s.max_entries (length s.entries))) [
  | inl x ↦ rw x (evict_key-ttl s (find_oldest_in s.entries))
  | inr x ↦ rw x refl
]

enter-ttl : (now : ℕ) (k : Key) (s : ReplayCache) (f : Option ℕ) → (enter now k s f).0.ttl ≡ s.ttl
unfolding enter insert_new
enter-ttl now k s none = make_room-ttl s
enter-ttl now k s (some t) = refl

observe-ttl : (now : ℕ) (k : Key) (s : ReplayCache) → (observe now k s).0.ttl ≡ s.ttl
unfolding observe sweep
observe-ttl now k s = enter-ttl now k (sweep now s) _

observe-IsSafe :
    (now n : ℕ) (j k : Key) (t : ℕ) (s : ReplayCache)
    → alive s.ttl now t ≡ true
    → IsSafe k t (suc n) s
    → IsSafe k t n (observe now j s).0
unfolding observe
observe-IsSafe now n j k t s a h =
    enter-IsSafe now n j k t (sweep now s) _ refl (sweep-IsSafe now (suc n) k t s a h)

observe_all-IsSafe :
    (os : List (ℕ × Key)) (k : Key) (t : ℕ) (s : ReplayCache)
    → AllAlive s.ttl t os
    → IsSafe k t (length os) s
    → IsSafe k t 0 (observe_all os s) × ((observe_all os s).ttl ≡ s.ttl)
unfolding observe_all
observe_all-IsSafe [] k t s a h = (h, refl)
observe_all-IsSafe ((now, j) ∷ os) k t s (a, later) h =
    let kept : IsSafe k t (length os) (observe now j s).0 =
      observe-IsSafe now (length os) j k t s a h in
    let (x, y) =
      observe_all-IsSafe os k t (observe now j s).0 (rw (observe-ttl now j s) later) kept in
    (x, y ∙ observe-ttl now j s)

-- In a cache of distinct keys within a bound of at least one, a key with the time `t` is reported as
-- a replay while that entry has not expired, after any run of observations during its life that is
-- too short to push it out: with one for each observation, the entries that are no older than `t` do
-- not exceed `max_entries`.
pub replay_detected :
    (os : List (ℕ × Key)) (now : ℕ) (k : Key) (t : ℕ) (s : ReplayCache)
    → IsBounded s
    → lookup k s.entries ≡ some t
    → count_since t s.entries + length os ≤ s.max_entries
    → AllAlive s.ttl t os
    → alive s.ttl now t ≡ true
    → (observe now k (observe_all os s)).1 ≡ true
replay_detected os now k t s h e c run a =
    let ((h', e', _), ttl) = observe_all-IsSafe os k t s run (h, e, c) in
    (observe-reports now k (observe_all os s) h'.0).1 (t, e', rw ttl (alive-lt s.ttl now t a))
