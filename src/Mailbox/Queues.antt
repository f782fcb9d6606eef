-- ===== src/Mailbox/Queues.antt =====
-- What recipients get from the mailbox of crates/sidevers-net/src/forward.rs.
use sidevers_protocol.Cbor.Writer.{Bytes}
use sidevers_protocol.Common.{
  ℕ, ◌+◌, ◌≤◌, ◌≡◌, refl, ap, inl, inr, List, [], ◌∷◌, ◌++◌, arith, ltb, if◌then◌else◌, Bool-cases,
  length, sym, ◌∙◌, subst, false, none, append-nil,
}
use sidevers_protocol.Common.Eq.{bytes_Eq}
use sidevers_protocol.Mailbox.{
  HeldMessage, Mailbox, or_empty, unexpired, hold, store, drain, keep_queue, sweep_queues,
  count_dropped, sweep,
}
use sidevers_protocol.Table.{IsMap, Absent, lookup}
use sidevers_protocol.Table.Laws.{lookup-insert, lookup-Absent, IsMap-insert, IsMap-remove}

unexpired-append :
    (now : ℕ) (a b : List HeldMessage) → unexpired now (a ++ b) ≡ unexpired now a ++ unexpired now b
unfolding unexpired
unexpired-append now [] b = refl
unexpired-append now (h ∷ a) b = elim (Bool-cases (ltb now h.expires_at)) [
  | inl x ↦ rw x (ap (λ t. h ∷ t) (unexpired-append now a b))
  | inr x ↦ rw x (unexpired-append now a b)
]

-- After a message is stored for `r`, a recipient `q` drains what it would have drained, and behind it,
-- if `q` is `r`, that message unless it has expired.
pub drain-store :
    (now later : ℕ) (r q envelope : Bytes) (ttl : ℕ) (m : Mailbox)
    → (drain later q (store now r envelope ttl m)).0
      ≡ (drain later q m).0
        ++ (if bytes_Eq.beq r q then unexpired later (hold now envelope ttl ∷ []) else [])
unfolding drain store or_empty
drain-store now later r q envelope ttl m =
    ap (λ o. unexpired later (or_empty o)) (lookup-insert r q _ m)
    ∙ elim (Bool-cases (bytes_Eq.beq r q)) [
      | inl x ↦ rw x (
          unexpired-append later (or_empty (lookup r m)) _
          ∙ ap
              (λ (z : Bytes).
                unexpired later (or_empty (lookup z m))
                ++ unexpired later (hold now envelope ttl ∷ []))
              ((bytes_Eq.beq_iff r q).0 x))
      | inr x ↦ rw x (sym (append-nil _))
    ]

unexpired-later :
    (now later : ℕ) (a : List HeldMessage)
    → now ≤ later
    → unexpired later (unexpired now a) ≡ unexpired later a
unfolding unexpired
unexpired-later now later [] h = refl
unexpired-later now later (g ∷ a) h = ground (arith, unexpired-later now later a h)

length-unexpired : (now : ℕ) (a : List HeldMessage) → length (unexpired now a) ≤ length a
unfolding unexpired
length-unexpired now [] = omega arith
length-unexpired now (g ∷ a) = ground (arith, length-unexpired now a)

Absent-keep_queue :
    (q r : Bytes) (queue : List HeldMessage) (m : Mailbox)
    → bytes_Eq.beq r q ≡ false
    → Absent q m
    → Absent q (keep_queue r queue m)
unfolding keep_queue
Absent-keep_queue q r [] m e h = h
Absent-keep_queue q r (g ∷ queue) m e h = (e, h)

Absent-sweep_queues :
    (now : ℕ) (q : Bytes) (m : Mailbox) → Absent q m → Absent q (sweep_queues now m)
unfolding sweep_queues
Absent-sweep_queues now q [] h = tt
Absent-sweep_queues now q ((r, queue) ∷ m) h =
    Absent-keep_queue q r (unexpired now queue) _ h.0 (Absent-sweep_queues now q m h.1)

lookup-keep_queue :
    (q r : Bytes) (queue : List HeldMessage) (m : Mailbox)
    → Absent r m
    → or_empty (lookup q (keep_queue r queue m))
      ≡ (if bytes_Eq.beq r q then queue else or_empty (lookup q m))
unfolding keep_queue or_empty lookup
lookup-keep_queue q r [] m h = elim (Bool-cases (bytes_Eq.beq r q)) [
  | inl x ↦ rw x (
      ap or_empty (
        subst (λ (z : Bytes). lookup z m ≡ none) ((bytes_Eq.beq_iff r q).0 x)
          (lookup-Absent r m h)))
  | inr x ↦ rw x refl
]
lookup-keep_queue q r (g ∷ queue) m h = elim (Bool-cases (bytes_Eq.beq r q)) [
  | inl x ↦ rw x refl
  | inr x ↦ rw x refl
]

lookup-sweep_queues :
    (now : ℕ) (q : Bytes) (m : Mailbox)
    → IsMap m
    → or_empty (lookup q (sweep_queues now m)) ≡ unexpired now (or_empty (lookup q m))
unfolding sweep_queues lookup or_empty unexpired
lookup-sweep_queues now q [] h = refl
lookup-sweep_queues now q ((r, queue) ∷ m) h =
    lookup-keep_queue q r (unexpired now queue) (sweep_queues now m)
      (Absent-sweep_queues now r m h.0)
    ∙ elim (Bool-cases (bytes_Eq.beq r q)) [
      | inl x ↦ rw x refl
      | inr x ↦ rw x (lookup-sweep_queues now q m h.1)
    ]

-- With distinct recipients, a sweep does not change what a recipient drains then or later.
pub drain-sweep :
    (now later : ℕ) (q : Bytes) (m : Mailbox)
    → IsMap m
    → now ≤ later
    → (drain later q (sweep now m).1).0 ≡ (drain later q m).0
unfolding drain sweep
drain-sweep now later q m h le =
    ap (unexpired later) (lookup-sweep_queues now q m h) ∙ unexpired-later now later _ le

-- The number of messages in all queues.
unfoldable pub total : Mailbox → ℕ
total [] = 0
total ((r, queue) ∷ m) = length queue + total m

total-keep_queue :
    (r : Bytes) (queue : List HeldMessage) (m : Mailbox)
    → total (keep_queue r queue m) ≡ length queue + total m
unfolding keep_queue total
total-keep_queue r [] m = omega arith
total-keep_queue r (h ∷ queue) m = refl

-- A sweep reports how many messages it drops.
pub total-sweep : (now : ℕ) (m : Mailbox) → (sweep now m).0 + total (sweep now m).1 ≡ total m
unfolding sweep total sweep_queues count_dropped
total-sweep now [] = omega arith
total-sweep now ((r, queue) ∷ m) =
    let le = length-unexpired now queue in
    let rest = total-sweep now m in
    let kept = total-keep_queue r (unexpired now queue) (sweep_queues now m) in omega arith

IsMap-keep_queue :
    (r : Bytes) (queue : List HeldMessage) (m : Mailbox)
    → Absent r m
    → IsMap m
    → IsMap (keep_queue r queue m)
unfolding keep_queue
IsMap-keep_queue r [] m a h = h
IsMap-keep_queue r (g ∷ queue) m a h = (a, h)

IsMap-sweep_queues : (now : ℕ) (m : Mailbox) → IsMap m → IsMap (sweep_queues now m)
unfolding sweep_queues
IsMap-sweep_queues now [] h = tt
IsMap-sweep_queues now ((r, queue) ∷ m) h =
    IsMap-keep_queue r (unexpired now queue) _ (Absent-sweep_queues now r m h.0)
      (IsMap-sweep_queues now m h.1)

-- From a mailbox with distinct recipients, every operation gives one.
pub mailbox-IsMap :
    (now : ℕ) (r envelope : Bytes) (ttl : ℕ) (m : Mailbox)
    → IsMap m
    → IsMap (store now r envelope ttl m) × IsMap (drain now r m).1 × IsMap (sweep now m).1
unfolding store drain sweep
mailbox-IsMap now r envelope ttl m h =
    (IsMap-insert r _ m h, IsMap-remove r m h, IsMap-sweep_queues now m h)
