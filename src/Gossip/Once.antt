-- ===== src/Gossip/Once.antt =====
-- How often crates/sidevers-net/src/gossip.rs reports a broadcast as the first.
use sidevers_protocol.Common.{
  ℕ, suc, ◌+◌, ◌≤◌, ◌<◌, ◌≡◌, refl, sym, subst, inl, inr, true, false, ◌&&◌, Option, none, some,
  List, [], ◌∷◌, arith, leb, if◌then◌else◌, Bool-cases, length, All,
}
use sidevers_protocol.Gossip.{
  GossipState, dedup_ttl_secs, max_dedup_entries, is_recent, sweep_dedup, enter_dedup,
  observe_broadcast,
}
use sidevers_protocol.Replay.{Key, key_Eq}
use sidevers_protocol.Table.{Table, lookup, IsMap}
use sidevers_protocol.Table.Laws.{lookup-insert, lookup-retain, IsMap-insert, IsMap-retain}

-- How many observations of a run, each of a key at a time, report `k` as the first.
unfoldable pub firsts : Key → List (Key × ℕ) → GossipState → ℕ
firsts k [] g = 0
firsts k ((j, now) ∷ es) g =
    let (g', first) = observe_broadcast now j g in
    let rest = firsts k es g' in if key_Eq.beq j k && first then suc rest else rest

-- The entry is no older than `t`.
abbrev Since : ℕ → Option ℕ → Type 0
Since t none = ⊥
Since t (some u) = t ≤ u

sweep-IsMap : (now : ℕ) (m : Table Key ℕ) → IsMap m → IsMap (sweep_dedup now m)
unfolding sweep_dedup
sweep-IsMap now m d = elim (Bool-cases (leb max_dedup_entries (length m))) [
  | inl x ↦ rw x (IsMap-retain (is_recent now) m d)
  | inr x ↦ rw x d
]

module _ (t : ℕ) where
  abbrev pub InTime : Key × ℕ → Type 0
  InTime e = (t ≤ e.1) × (e.1 < t + dedup_ttl_secs)

  kept :
      (now : ℕ) (k : Key) (o : Option ℕ)
      → now < t + dedup_ttl_secs
      → Since t o
      → Since t (elim o [ none ↦ none | some u ↦ if is_recent now k u then some u else none ])
  kept now k none h s = elim s [ ]
  kept now k (some u) h s = let recent : is_recent now k u ≡ true = ground arith in rw recent s

  sweep-Since :
      (now : ℕ) (k : Key) (m : Table Key ℕ)
      → IsMap m
      → now < t + dedup_ttl_secs
      → Since t (lookup k m)
      → Since t (lookup k (sweep_dedup now m))
  unfolding sweep_dedup
  sweep-Since now k m d h s = elim (Bool-cases (leb max_dedup_entries (length m))) [
    | inl x ↦
        rw x (
          subst (Since t) (sym (lookup-retain (is_recent now) k m d)) (kept now k (lookup k m) h s))
    | inr x ↦ rw x s
  ]

  enter-Since :
      (now : ℕ) (j k : Key) (o : Option ℕ) (m : Table Key ℕ)
      → t ≤ now
      → Since t (lookup k m)
      → Since t (lookup k (enter_dedup now j o m).0)
  unfolding enter_dedup
  enter-Since now j k (some u) m h s = s
  enter-Since now j k none m h s = elim (Bool-cases (key_Eq.beq j k)) [
    | inl x ↦ rw (lookup-insert j k now m) (rw x h)
    | inr x ↦ rw (lookup-insert j k now m) (rw x s)
  ]

  enter-IsMap :
      (now : ℕ) (j : Key) (o : Option ℕ) (m : Table Key ℕ)
      → IsMap m
      → IsMap (enter_dedup now j o m).0
  unfolding enter_dedup
  enter-IsMap now j none m d = IsMap-insert j now m d
  enter-IsMap now j (some u) m d = d

  -- A key that is in the cache is not reported as the first.
  enter-seen :
      (now : ℕ) (j : Key) (o : Option ℕ) (m : Table Key ℕ)
      → Since t o
      → (enter_dedup now j o m).1 ≡ false
  unfolding enter_dedup
  enter-seen now j none m s = elim s [ ]
  enter-seen now j (some u) m s = refl

  -- A key that is reported as the first is in the cache.
  enter-first :
      (now : ℕ) (j : Key) (o : Option ℕ) (m : Table Key ℕ)
      → t ≤ now
      → (enter_dedup now j o m).1 ≡ true
      → Since t (lookup j (enter_dedup now j o m).0)
  unfolding enter_dedup
  enter-first now j none m h e = rw (lookup-insert j j now m) (rw ((key_Eq.beq_iff j j).1 refl) h)
  enter-first now j (some u) m h e = cc

  -- Once a key is in the cache since `t`, no observation in time reports it as the first.
  firsts-seen :
      (k : Key) (es : List (Key × ℕ)) (g : GossipState)
      → All InTime es
      → IsMap g.dedup
      → Since t (lookup k g.dedup)
      → firsts k es g ≡ 0
  unfolding firsts observe_broadcast
  firsts-seen k [] g ws d s = refl
  firsts-seen k ((j, now) ∷ es) g ws d s =
      let m = sweep_dedup now g.dedup in
      let d' = sweep-IsMap now g.dedup d in
      let s' = sweep-Since now k g.dedup d ws.0.1 s in
      let later : firsts k es (record g { dedup = (enter_dedup now j (lookup j m) m).0 }) ≡ 0 =
        firsts-seen k es (record g { dedup = (enter_dedup now j (lookup j m) m).0 }) ws.1
          (enter-IsMap now j (lookup j m) m d') (enter-Since now j k (lookup j m) m ws.0.0 s') in
      elim (Bool-cases (key_Eq.beq j k)) [
        | inl x ↦
            let there : Since t (lookup j m) =
              subst (λ (i : Key). Since t (lookup i m)) (sym ((key_Eq.beq_iff j k).0 x)) s' in
            rw (x, enter-seen now j (lookup j m) m there) later
        | inr x ↦ rw x later
      ]

  -- From a cache of distinct keys, a run of observations that takes less than the cache's time to live
  -- reports a broadcast as the first at most once.
  pub first_once :
      (k : Key) (es : List (Key × ℕ)) (g : GossipState)
      → All InTime es
      → IsMap g.dedup
      → firsts k es g ≤ 1
  unfolding firsts observe_broadcast
  first_once k [] g ws d = omega arith
  first_once k ((j, now) ∷ es) g ws d =
      let m = sweep_dedup now g.dedup in
      let d' = sweep-IsMap now g.dedup d in
      let g' : GossipState = record g { dedup = (enter_dedup now j (lookup j m) m).0 } in
      let d'' = enter-IsMap now j (lookup j m) m d' in
      elim (Bool-cases (key_Eq.beq j k)) [
        | inl x ↦ elim (Bool-cases (enter_dedup now j (lookup j m) m).1) [
          | inl y ↦
              let there : Since t (lookup k g'.dedup) =
                subst (λ (i : Key). Since t (lookup i g'.dedup)) ((key_Eq.beq_iff j k).0 x)
                  (enter-first now j (lookup j m) m ws.0.0 y) in
              let none_later : firsts k es g' ≡ 0 = firsts-seen k es g' ws.1 d'' there in
              rw (x, y) (omega arith)
          | inr y ↦ rw (x, y) (first_once k es g' ws.1 d'')
        ]
        | inr x ↦ rw x (first_once k es g' ws.1 d'')
      ]
