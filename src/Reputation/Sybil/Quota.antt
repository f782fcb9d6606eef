-- ===== src/Reputation/Sybil/Quota.antt =====
-- The quota of `IpSybilTracker` in crates/sidevers-net/src/reputation.rs.
use sidevers_protocol.Cbor.Writer.{Bytes}
use sidevers_protocol.Common.{
  ℕ, suc, ◌+◌, ◌-◌, ◌≤◌, ◌<◌, ◌≡◌, refl, sym, ◌∙◌, subst, inl, inr, Bool, true, false, Option, none,
  some, List, [], ◌∷◌, arith, leb, Bool-cases, length, All,
}
use sidevers_protocol.Common.Eq.{bytes_Eq}
use sidevers_protocol.Publishers.{contains, add}
use sidevers_protocol.Publishers.Members.{contains-add}
use sidevers_protocol.Reputation.Sybil.{
  IpSybilPolicy, IpSybilState, SybilDecision, allow, over_quota, IpSybilTracker, state_of, roll,
  decide, observe,
}
use sidevers_protocol.Table.{lookup}
use sidevers_protocol.Table.Laws.{lookup-insert}

-- A peer that is observed from an address at a time.
pub record Sighting : Type 0 where
  pub peer : Bytes
  pub ip : Bytes
  pub now : ℕ

-- The peers that a run of observations lets through from `ip`.
abbrev pub peer_if : Bool → Bytes → SybilDecision → List Bytes → List Bytes
peer_if true peer allow rest = peer ∷ rest
peer_if _ peer _ rest = rest

unfoldable pub allowed : IpSybilPolicy → Bytes → List Sighting → IpSybilTracker → List Bytes
allowed policy ip [] m = []
allowed policy ip (s ∷ ss) m =
    let (m', d) = observe policy s.peer s.ip s.now m in
    peer_if (bytes_Eq.beq s.ip ip) s.peer d (allowed policy ip ss m')

-- The peer is in the set.
abbrev pub Within : List Bytes → Bytes → Type 0
Within set p = contains p set ≡ true

module _ (policy : IpSybilPolicy) (first : ℕ) where
  abbrev pub InWindow : Sighting → Type 0
  InWindow s = (first ≤ s.now) × (s.now < first + policy.window_secs)

  -- The state holds no more keys than the quota, in a window that began no earlier than `first`.
  abbrev Fine : IpSybilState → Type 0
  Fine st = (first ≤ st.window_start_at) × (length st.pubkeys ≤ policy.max_new_pubkeys_per_ip)

  abbrev FineOf : Option IpSybilState → Type 0
  FineOf none = Unit {0}
  FineOf (some st) = Fine st

  state_of-Fine :
      (now : ℕ) (o : Option IpSybilState) → first ≤ now → FineOf o → Fine (state_of now o)
  unfolding state_of
  state_of-Fine now none h f = (h, omega arith)
  state_of-Fine now (some st) h f = f

  roll-same :
      (now : ℕ) (st : IpSybilState)
      → now < first + policy.window_secs
      → first ≤ st.window_start_at
      → 0 < policy.window_secs
      → roll policy now st ≡ st
  unfolding roll
  roll-same now st h f p =
      let in_window : leb policy.window_secs (now - st.window_start_at) ≡ false = ground arith in
      rw in_window refl

  length-add : (p : Bytes) (set : List Bytes) → length (add p set) ≤ suc (length set)
  unfolding add
  length-add p set = ground arith

  decide-Fine :
      (peer : Bytes) (st : IpSybilState)
      → Fine st
      → Fine (decide policy peer st).0
        × ((p : Bytes) → Within st.pubkeys p → Within (decide policy peer st).0.pubkeys p)
        × ((decide policy peer st).1 ≡ allow → Within (decide policy peer st).0.pubkeys peer)
  unfolding decide
  decide-Fine peer st f = elim (Bool-cases (contains peer st.pubkeys)) [
    | inl x ↦ rw x (f, λ p w. w, λ e. x)
    | inr x ↦ elim (Bool-cases (leb policy.max_new_pubkeys_per_ip (length st.pubkeys))) [
      | inl y ↦ rw (x, y) (f, λ p w. w, λ e. cc)
      | inr y ↦
          let room : length st.pubkeys < policy.max_new_pubkeys_per_ip = ground arith in
          rw (x, y)
            (
              (f.0, omega (arith, length-add peer st.pubkeys)),
              λ p w. contains-add p peer st.pubkeys ∙ ground (arith, w),
              λ e.
                  contains-add peer peer st.pubkeys ∙ rw ((bytes_Eq.beq_iff peer peer).1 refl) refl,
            )
    ]
  ]

  -- The keys that the tracker holds for an address.
  abbrev keys_of : Option IpSybilState → List Bytes
  keys_of none = []
  keys_of (some st) = st.pubkeys

  state_of-keys :
      (now : ℕ) (o : Option IpSybilState) (p : Bytes)
      → Within (keys_of o) p
      → Within (state_of now o).pubkeys p
  unfolding state_of
  state_of-keys now none p w = w
  state_of-keys now (some st) p w = w

  -- An observation from `ip`.
  observe-same :
      (ip : Bytes) (s : Sighting) (m : IpSybilTracker)
      → bytes_Eq.beq s.ip ip ≡ true
      → InWindow s
      → FineOf (lookup ip m)
      → (st : IpSybilState) × (lookup ip (observe policy s.peer s.ip s.now m).0 ≡ some st)
        × Fine st
        × ((p : Bytes) → Within (keys_of (lookup ip m)) p → Within st.pubkeys p)
        × ((observe policy s.peer s.ip s.now m).1 ≡ allow → Within st.pubkeys s.peer)
  unfolding observe
  observe-same ip s m x w f =
      let same : ip ≡ s.ip = sym ((bytes_Eq.beq_iff s.ip ip).0 x) in
      let f' : FineOf (lookup s.ip m) = subst (λ (k : Bytes). FineOf (lookup k m)) same f in
      let st = state_of s.now (lookup s.ip m) in
      let fine = state_of-Fine s.now (lookup s.ip m) w.0 f' in
      let r = roll-same s.now st w.1 fine.0 (omega arith) in
      let (fine', kept, let_in) = decide-Fine s.peer st fine in
      (
        (decide policy s.peer (roll policy s.now st)).0,
        lookup-insert s.ip ip _ m ∙ rw x refl,
        rw r fine',
        λ p h. rw r (
            kept p (
              state_of-keys s.now (lookup s.ip m) p
                (subst (λ (k : Bytes). Within (keys_of (lookup k m)) p) same h))),
        λ e. rw r (let_in (rw r at e)),
      )

  -- An observation from another address.
  observe-other :
      (ip : Bytes) (s : Sighting) (m : IpSybilTracker)
      → bytes_Eq.beq s.ip ip ≡ false
      → lookup ip (observe policy s.peer s.ip s.now m).0 ≡ lookup ip m
  unfolding observe
  observe-other ip s m x = lookup-insert s.ip ip _ m ∙ rw x refl

  All-peer_if :
      (set : List Bytes) (b : Bool) (peer : Bytes) (d : SybilDecision) (rest : List Bytes)
      → (d ≡ allow → Within set peer)
      → All (Within set) rest
      → All (Within set) (peer_if b peer d rest)
  All-peer_if set true peer allow rest h r = (h refl, r)
  All-peer_if set true peer over_quota rest h r = r
  All-peer_if set false peer d rest h r = r

  keys-Fine :
      (o : Option IpSybilState) → FineOf o → length (keys_of o) ≤ policy.max_new_pubkeys_per_ip
  keys-Fine none f = omega arith
  keys-Fine (some st) f = f.1

  allowed_lem :
      (ip : Bytes) (ss : List Sighting) (m : IpSybilTracker)
      → All InWindow ss
      → FineOf (lookup ip m)
      → (set : List Bytes) × (length set ≤ policy.max_new_pubkeys_per_ip)
        × ((p : Bytes) → Within (keys_of (lookup ip m)) p → Within set p)
        × All (Within set) (allowed policy ip ss m)
  unfolding allowed
  allowed_lem ip [] m ws f = (keys_of (lookup ip m), keys-Fine (lookup ip m) f, λ p h. h, tt)
  allowed_lem ip (s ∷ ss) m ws f = elim (Bool-cases (bytes_Eq.beq s.ip ip)) [
    | inl x ↦
        let (st, e, fine, kept, let_in) = observe-same ip s m x ws.0 f in
        let m' = (observe policy s.peer s.ip s.now m).0 in
        let (set, size, more, all) = allowed_lem ip ss m' ws.1 (subst FineOf (sym e) fine) in
        let later : (p : Bytes) → Within st.pubkeys p → Within set p =
          λ p h. more p (subst (λ (o : Option IpSybilState). Within (keys_of o) p) (sym e) h) in
        (
          set,
          size,
          λ p h. later p (kept p h),
          All-peer_if set (bytes_Eq.beq s.ip ip) s.peer _ _ (λ d. later s.peer (let_in d)) all,
        )
    | inr x ↦
        let e = observe-other ip s m x in
        let m' = (observe policy s.peer s.ip s.now m).0 in
        let (set, size, more, all) = allowed_lem ip ss m' ws.1 (subst FineOf (sym e) f) in
        (
          set,
          size,
          λ p h. more p (subst (λ (o : Option IpSybilState). Within (keys_of o) p) (sym e) h),
          rw x all,
        )
  ]

  -- From a tracker without an entry for `ip`, and at times within one window: the peers that a run of
  -- observations lets through from `ip` are all in one set of at most the quota's size.
  pub quota :
      (ip : Bytes) (ss : List Sighting) (m : IpSybilTracker)
      → All InWindow ss
      → lookup ip m ≡ none
      → (set : List Bytes) × (length set ≤ policy.max_new_pubkeys_per_ip)
        × All (Within set) (allowed policy ip ss m)
  quota ip ss m ws e =
      let (set, size, more, all) = allowed_lem ip ss m ws (subst FineOf (sym e) tt) in
      (set, size, all)
