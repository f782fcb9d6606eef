-- ===== src/Storage/Objects/Pins.antt =====
-- What a pin in crates/sidevers-storage/src/object.rs keeps: the row and the bytes of its address.
use sidevers_protocol.Cbor.Writer.{Bytes}
use sidevers_protocol.Common.{
  ℕ, ◌-◌, ◌≡◌, refl, sym, ap, ◌∙◌, subst, inl, inr, true, false, some, List, [], ◌∷◌, ◌==◌,
  Bool-cases, All,
}
use sidevers_protocol.Common.Eq.{bytes_Eq}
use sidevers_protocol.Errors.{ok}
use sidevers_protocol.Storage.Objects.{
  Row, ObjectStore, pin, unpin, evict_one, evict_loop, evict_to_budget, candidates, total_bytes,
  get, get_range,
}
use sidevers_protocol.Storage.Objects.Budget.{evict_to_budget-cases}
use sidevers_protocol.Storage.Objects.Contents.{
  content, IsIntact, CollisionFree, IsIntact-evict_one, content-evict_one, content-Holds,
}
use sidevers_protocol.Storage.Objects.Eviction.{
  Covers, candidates-Covers, evict_one-Covers, head-row,
}
use sidevers_protocol.Storage.Objects.Keys.{perform-IsMap, evict_to_budget-IsMap}
use sidevers_protocol.Storage.Objects.PutGet.{get_lem}
use sidevers_protocol.Storage.Objects.Refinement.{
  Command, putting, getting, ranging, evicting, pinning, unpinning, perform, promise, Stores,
  perform_lem,
}
use sidevers_protocol.Storage.Objects.Rows.{Keeps, Keeps-update_row, put-Keeps, get-Keeps}
use sidevers_protocol.Table.{Table, lookup, IsMap}
use sidevers_protocol.Table.Laws.{lookup-remove}

-- What a client asks of the store, and the eviction that runs between.
pub data Action : Type 0 where
  performing : Command → Action
  evicting_to_budget : Action

-- The action neither evicts the address by name nor takes its pin.
abbrev pub Spares : Bytes → Action → Type 0
Spares h (performing (evicting k)) = bytes_Eq.beq k h ≡ false
Spares h (performing (unpinning k)) = bytes_Eq.beq k h ≡ false
Spares h _ = Unit {0}

-- The loop does not take a row with a pin.
spared :
    (k h : Bytes) (row r : Row) (cs : Table Bytes Row) (s : ObjectStore)
    → Covers ((k, row) ∷ cs) s
    → lookup h s.rows ≡ some r
    → r.pinned ≡ true
    → bytes_Eq.beq k h ≡ false
spared k h row r cs s c e p = elim (Bool-cases (bytes_Eq.beq k h)) [
  | inl x ↦
      let (there, unpinned) = head-row k row cs s c in
      let at_h : lookup h s.rows ≡ some row =
        subst (λ (y : Bytes). lookup y s.rows ≡ some row) ((bytes_Eq.beq_iff k h).0 x) there in
      let same : row ≡ r = cc in let pinned : row.pinned ≡ true = rw same p in cc
  | inr x ↦ x
]

evict_loop-pinned :
    (cs : Table Bytes Row) (n : ℕ) (h : Bytes) (r : Row) (s : ObjectStore)
    → Covers cs s
    → lookup h s.rows ≡ some r
    → r.pinned ≡ true
    → (lookup h (evict_loop cs n s).1.rows ≡ some r)
      × (content h (evict_loop cs n s).1 ≡ content h s)
unfolding evict_loop
evict_loop-pinned [] n h r s c e p = (e, refl)
evict_loop-pinned ((k, row) ∷ cs) n h r s c e p = elim (Bool-cases (n == 0)) [
  | inl x ↦ rw x (e, refl)
  | inr x ↦
      let other = spared k h row r cs s c e p in
      let there : lookup h (evict_one k s).rows ≡ some r =
        unfold evict_one in rw (lookup-remove k h s.rows) (rw other e) in
      let same : content h (evict_one k s) ≡ content h s =
        content-evict_one k h s ∙ rw other refl in
      let rest =
        evict_loop-pinned cs (n - row.size) h r (evict_one k s) (evict_one-Covers k row cs s c)
          there p in
      rw x (rest.0, rest.1 ∙ same)
]

evict_to_budget-pinned :
    (h : Bytes) (r : Row) (s : ObjectStore)
    → IsMap s.rows
    → lookup h s.rows ≡ some r
    → r.pinned ≡ true
    → (lookup h (evict_to_budget s).1.rows ≡ some r)
      × (content h (evict_to_budget s).1 ≡ content h s)
evict_to_budget-pinned h r s d e p = elim (evict_to_budget-cases s) [
  | inl q ↦ rw q (e, refl)
  | inr q ↦ rw q (
      evict_loop-pinned (candidates s) (total_bytes s - s.max_bytes) h r s (candidates-Covers s d) e
        p)
]

module _ (blake3 : Bytes → Bytes) where
  perform-Keeps :
      (c : Command) (h : Bytes) (row : Row) (s : ObjectStore)
      → Spares h (performing c)
      → row.pinned ≡ true
      → Keeps row (lookup h s.rows)
      → Keeps row (lookup h (perform blake3 c s).1.rows)
  unfolding pin unpin get_range evict_one
  perform-Keeps (putting now b) h row s u p there = put-Keeps blake3 now b h row s there
  perform-Keeps (getting now k) h row s u p there = get-Keeps blake3 now k h row s there
  perform-Keeps (ranging now k first stop) h row s u p there = get-Keeps blake3 now k h row s there
  perform-Keeps (evicting k) h row s u p (r, e, l) = (r, rw (lookup-remove k h s.rows) (rw u e), l)
  perform-Keeps (pinning k) h row s u p there =
      Keeps-update_row k h _ row s (λ x r l. (l.0, l.1, sym p, l.3)) there
  perform-Keeps (unpinning k) h row s u p there = Keeps-update_row k h _ row s (λ x r l. cc) there

  abbrev pub act : Action → ObjectStore → ObjectStore
  act (performing c) s = (perform blake3 c s).1
  act evicting_to_budget s = (evict_to_budget s).1

  unfoldable pub after : List Action → ObjectStore → ObjectStore
  after [] s = s
  after (a ∷ rest) s = after rest (act a s)

  -- What the action stores is known.
  abbrev pub Puts : (Bytes → Type 0) → Action → Type 0
  Puts Known (performing c) = Stores blake3 Known c
  Puts Known evicting_to_budget = Unit {0}

  module _ (Known : Bytes → Type 0) (free : CollisionFree blake3 Known) where
    evict_loop-IsIntact :
        (cs : Table Bytes Row) (n : ℕ) (s : ObjectStore)
        → IsIntact blake3 Known s
        → IsIntact blake3 Known (evict_loop cs n s).1
    unfolding evict_loop
    evict_loop-IsIntact [] n s i = i
    evict_loop-IsIntact ((k, row) ∷ cs) n s i = elim (Bool-cases (n == 0)) [
      | inl x ↦ rw x i
      | inr x ↦ rw x (
          evict_loop-IsIntact cs (n - row.size) (evict_one k s)
            (IsIntact-evict_one blake3 Known k s i))
    ]

    -- The promise of a command that spares the address says the same of it as before.
    promise-Spares :
        (c : Command) (h b : Bytes) (s : ObjectStore)
        → Stores blake3 Known c
        → Spares h (performing c)
        → IsIntact blake3 Known s
        → content h s ≡ some b
        → (promise blake3 c (λ k. content k s)).1 h ≡ some b
    promise-Spares (putting now b') h b s kb u i e =
        elim (Bool-cases (bytes_Eq.beq (blake3 b') h)) [
          | inl x ↦ rw x (elim (content-Holds blake3 Known h s i) [
            | inl p ↦ cc
            | inr (b'', p, q, r) ↦
                let same : b' ≡ b'' =
                  free b' b'' kb r ((bytes_Eq.beq_iff (blake3 b') h).0 x ∙ sym q) in
                ap some same ∙ sym p ∙ e
          ])
          | inr x ↦ rw x e
        ]
    promise-Spares (getting now k) h b s kb u i e = e
    promise-Spares (ranging now k first stop) h b s kb u i e = e
    promise-Spares (evicting k) h b s kb u i e = rw u e
    promise-Spares (pinning k) h b s kb u i e = e
    promise-Spares (unpinning k) h b s kb u i e = e

    -- The store is in order, and has the bytes `b` and a row like `row` at the address.
    abbrev Has : Bytes → Row → Bytes → ObjectStore → Type 0
    Has h row b s =
        IsMap s.rows
        × IsIntact blake3 Known s
        × Keeps row (lookup h s.rows)
        × (content h s ≡ some b)

    act-Has :
        (a : Action) (h : Bytes) (row : Row) (b : Bytes) (s : ObjectStore)
        → Puts Known a
        → Spares h a
        → row.pinned ≡ true
        → Has h row b s
        → Has h row b (act a s)
    act-Has (performing c) h row b s kb u p (d, i, there, e) =
        let (_, i', at) = perform_lem blake3 Known free c s (λ k. content k s) kb i (λ k. refl) in
        (
          perform-IsMap blake3 c s d,
          i',
          perform-Keeps c h row s u p there,
          at h ∙ promise-Spares c h b s kb u i e,
        )
    act-Has evicting_to_budget h row b s kb u p (d, i, (r, there, l), e) =
        let (there', same) = evict_to_budget-pinned h r s d there (l.2 ∙ p) in
        (evict_to_budget-IsMap s d, evict_to_budget-IsIntact, (r, there', l), same ∙ e)
      where
        evict_to_budget-IsIntact : IsIntact blake3 Known (evict_to_budget s).1
        evict_to_budget-IsIntact = elim (evict_to_budget-cases s) [
          | inl q ↦ subst (IsIntact blake3 Known) (sym q) i
          | inr q ↦
              subst (IsIntact blake3 Known) (sym q)
                (evict_loop-IsIntact (candidates s) (total_bytes s - s.max_bytes) s i)
        ]

    after-Has :
        (rest : List Action) (h : Bytes) (row : Row) (b : Bytes) (s : ObjectStore)
        → All (Puts Known) rest
        → All (Spares h) rest
        → row.pinned ≡ true
        → Has h row b s
        → Has h row b (after rest s)
    unfolding after
    after-Has [] h row b s kb u p has = has
    after-Has (a ∷ rest) h row b s kb u p has =
        after-Has rest h row b (act a s) kb.1 u.1 p (act-Has a h row b s kb.0 u.0 p has)

  -- Where the known contents do not collide, the store is intact with distinct addresses and what
  -- the actions store is known: after any run of commands and evictions to the budget that neither
  -- evicts a pinned address by name nor takes its pin, its row is as before but for the time of the
  -- last access, and a fetch of it at any time returns the same bytes.
  pub after-Keeps :
      (Known : Bytes → Type 0) (actions : List Action) (h : Bytes) (row : Row) (b : Bytes)
      (s : ObjectStore)
      → CollisionFree blake3 Known
      → All (Puts Known) actions
      → All (Spares h) actions
      → IsMap s.rows
      → IsIntact blake3 Known s
      → lookup h s.rows ≡ some row
      → row.pinned ≡ true
      → content h s ≡ some b
      → Keeps row (lookup h (after actions s).rows)
        × ((now : ℕ) → (get blake3 now h (after actions s)).0 ≡ ok (some b))
  after-Keeps Known actions h row b s free kb u d i e p c =
      let (_, i', there, c') =
        after-Has Known free actions h row b s kb u p
          (d, i, (row, e, (refl, refl, refl, refl)), c) in
      (there, λ now. (get_lem blake3 Known now h (after actions s) i').0 ∙ ap ok c')
