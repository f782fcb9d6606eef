-- ===== src/Replay/Journal.antt =====
-- The calls to the journal of crates/sidevers-core/src/replay.rs keep a store that applies them equal
-- to the cache.
use sidevers_protocol.Common.{
  ℕ, ◌≡◌, refl, ap, ◌∙◌, Bool, true, false, not, Option, none, some, List, [], ◌∷◌, ◌++◌,
  if◌then◌else◌, subst, inl, inr, Bool-cases, sym, leb, length,
}
use sidevers_protocol.Replay.{
  Key, key_Eq, ReplayCache, JournalCall, record_call, evict_call, call, alive, sweep, sweep_journal,
  evict_key, find_oldest_in, make_room, insert_new, enter, observe,
}
use sidevers_protocol.Replay.Reports.{lookup-sweep, swept}
use sidevers_protocol.Table.{Table, lookup, insert, remove, IsMap, Absent}
use sidevers_protocol.Table.Laws.{lookup-insert, lookup-remove, lookup-Absent}

-- A store that the journal writes to: `record` sets an entry, `evict` removes it.
abbrev pub apply_call : JournalCall → Table Key ℕ → Table Key ℕ
apply_call (record_call k t) m = insert k t m
apply_call (evict_call k) m = remove k m

unfoldable pub apply_calls : List JournalCall → Table Key ℕ → Table Key ℕ
apply_calls [] m = m
apply_calls (c ∷ cs) m = apply_calls cs (apply_call c m)

-- The time that such a store has for a key, where a journal is attached.
abbrev pub persisted : Table Key ℕ → Option (List JournalCall) → Key → Option ℕ
persisted base none k = none
persisted base (some log) k = lookup k (apply_calls log base)

abbrev pub attached : Option (List JournalCall) → Bool
attached none = false
attached (some log) = true

abbrev pub IsAttached : Option (List JournalCall) → Type 0
IsAttached j = attached j ≡ true

apply_calls-append :
    (cs : List JournalCall) (c : JournalCall) (m : Table Key ℕ)
    → apply_calls (cs ++ (c ∷ [])) m ≡ apply_call c (apply_calls cs m)
unfolding apply_calls
apply_calls-append [] c m = refl
apply_calls-append (d ∷ cs) c m = apply_calls-append cs c (apply_call d m)

call-IsAttached :
    (c : JournalCall) (j : Option (List JournalCall)) → IsAttached j → IsAttached (call c j)
unfolding call
call-IsAttached c none h = cc
call-IsAttached c (some log) h = refl

-- An entry that a sweep drops.
abbrev is_expired : ℕ → ℕ → Option ℕ → Bool
is_expired ttl now none = false
is_expired ttl now (some t) = not (alive ttl now t)

Absent-below :
    (i k : Key) (m : Table Key ℕ) → Absent i m → key_Eq.beq i k ≡ true → lookup k m ≡ none
Absent-below i k m h y =
    subst (λ (x : Key). lookup x m ≡ none) ((key_Eq.beq_iff i k).0 y) (lookup-Absent i m h)

module _ (base : Table Key ℕ) where
  persisted-record :
      (i : Key) (t : ℕ) (j : Option (List JournalCall)) (k : Key)
      → IsAttached j
      → persisted base (call (record_call i t) j) k
        ≡ (if key_Eq.beq i k then some t else persisted base j k)
  unfolding call
  persisted-record i t none k h = cc
  persisted-record i t (some log) k h =
      ap (lookup k) (apply_calls-append log (record_call i t) base)
      ∙ lookup-insert i k t (apply_calls log base)

  persisted-evict :
      (i : Key) (j : Option (List JournalCall)) (k : Key)
      → IsAttached j
      → persisted base (call (evict_call i) j) k
        ≡ (if key_Eq.beq i k then none else persisted base j k)
  unfolding call
  persisted-evict i none k h = cc
  persisted-evict i (some log) k h =
      ap (lookup k) (apply_calls-append log (evict_call i) base)
      ∙ lookup-remove i k (apply_calls log base)

  -- The store and the cache agree on every key.
  abbrev pub IsMirrored : ReplayCache → Type 0
  IsMirrored s =
      IsAttached s.journal × ((k : Key) → persisted base s.journal k ≡ lookup k s.entries)

  -- A sweep reports exactly the entries that it drops.
  persisted-sweep_journal :
      (ttl now : ℕ) (m : Table Key ℕ) (j : Option (List JournalCall)) (k : Key)
      → IsMap m
      → IsAttached j
      → IsAttached (sweep_journal ttl now m j)
        × (persisted base (sweep_journal ttl now m j) k
            ≡ (if is_expired ttl now (lookup k m) then none else persisted base j k))
  unfolding sweep_journal lookup
  persisted-sweep_journal ttl now [] j k h a = (a, refl)
  persisted-sweep_journal ttl now ((i, t) ∷ m) j k h a = elim (Bool-cases (alive ttl now t)) [
    | inl x ↦
        let (b, e) = persisted-sweep_journal ttl now m j k h.1 a in
        rw x (
          b,
          elim (Bool-cases (key_Eq.beq i k)) [
            | inl y ↦ rw y (rw x (rw (Absent-below i k m h.0 y) at e))
            | inr y ↦ rw y e
          ],
        )
    | inr x ↦
        let c = call-IsAttached (evict_call i) j a in
        let (b, e) = persisted-sweep_journal ttl now m (call (evict_call i) j) k h.1 c in
        let f = persisted-evict i j k a in
        rw x (
          b,
          elim (Bool-cases (key_Eq.beq i k)) [
            | inl y ↦ rw y (rw x ((rw (Absent-below i k m h.0 y) at e) ∙ (rw y at f)))
            | inr y ↦
                rw y (e ∙ ap (λ z. if is_expired ttl now (lookup k m) then none else z) (rw y at f))
          ],
        )
  ]

  sweep-IsMirrored :
      (now : ℕ) (s : ReplayCache) → IsMap s.entries → IsMirrored s → IsMirrored (sweep now s)
  unfolding sweep
  sweep-IsMirrored now s h (a, e) = (
    (persisted-sweep_journal s.ttl now s.entries s.journal (([], [])) h a).0,
    λ k.
        (persisted-sweep_journal s.ttl now s.entries s.journal k h a).1
        ∙ ap (λ z. if is_expired s.ttl now (lookup k s.entries) then none else z) (e k)
        ∙ kept k (lookup k s.entries)
        ∙ sym (lookup-sweep now k s h),
  )
    where
      kept :
          (k : Key) (f : Option ℕ)
          → (if is_expired s.ttl now f then none else f) ≡ swept s.ttl now f
      kept k none = refl
      kept k (some t) = elim (Bool-cases (alive s.ttl now t)) [
        | inl x ↦ rw x refl
        | inr x ↦ rw x refl
      ]

  evict_key-IsMirrored :
      (s : ReplayCache) (o : Option Key) → IsMirrored s → IsMirrored (evict_key o s)
  unfolding evict_key
  evict_key-IsMirrored s none h = h
  evict_key-IsMirrored s (some i) (a, e) = (
    call-IsAttached (evict_call i) s.journal a,
    λ k.
        persisted-evict i s.journal k a
        ∙ ap (λ z. if key_Eq.beq i k then none else z) (e k)
        ∙ sym (lookup-remove i k s.entries),
  )

  make_room-IsMirrored : (s : ReplayCache) → IsMirrored s → IsMirrored (make_room s)
  unfolding make_room
  make_room-IsMirrored s h = elim (Bool-cases (leb s.max_entries (length s.entries))) [
    | inl x ↦ rw x (evict_key-IsMirrored s (find_oldest_in s.entries) h)
    | inr x ↦ rw x h
  ]

  insert_new-IsMirrored :
      (now : ℕ) (i : Key) (s : ReplayCache) → IsMirrored s → IsMirrored (insert_new now i s)
  unfolding insert_new
  insert_new-IsMirrored now i s (a, e) = (
    call-IsAttached (record_call i now) s.journal a,
    λ k.
        persisted-record i now s.journal k a
        ∙ ap (λ z. if key_Eq.beq i k then some now else z) (e k)
        ∙ sym (lookup-insert i k now s.entries),
  )

  enter-IsMirrored :
      (now : ℕ) (i : Key) (s : ReplayCache) (f : Option ℕ)
      → IsMirrored s
      → IsMirrored (enter now i s f).0
  unfolding enter
  enter-IsMirrored now i s none h =
      insert_new-IsMirrored now i (make_room s) (make_room-IsMirrored s h)
  enter-IsMirrored now i s (some t) h = h

  -- If a store that applies the journal's calls agrees with a cache of distinct keys on every key, it
  -- still does after an observation.
  pub observe-IsMirrored :
      (now : ℕ) (i : Key) (s : ReplayCache)
      → IsMap s.entries
      → IsMirrored s
      → IsMirrored (observe now i s).0
  unfolding observe
  observe-IsMirrored now i s h e =
      enter-IsMirrored now i (sweep now s) _ (sweep-IsMirrored now s h e)
