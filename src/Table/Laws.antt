-- ===== src/Table/Laws.antt =====
-- The laws of maps as the components use them.
use sidevers_protocol.Common.{
  subst, suc, ◌≤◌, ◌<◌, ◌≡◌, refl, Bool, true, false, none, some, [], ◌∷◌, arith, if◌then◌else◌,
  length, inl, inr, Bool-cases,
}
use sidevers_protocol.Common.Eq.{Eq}
use sidevers_protocol.Table.{Table, lookup, insert, remove, retain, Absent, IsMap}

module _ {K : Type 0} ⦃e : Eq K⦄ where
  pub beq_flip : (j k : K) → e.beq j k ≡ false → e.beq k j ≡ false
  beq_flip j k h = ground (arith, e.beq_iff j k, e.beq_iff k j)

  pub beq_self : (k : K) → e.beq k k ≡ true
  beq_self k = (e.beq_iff k k).1 refl

module _ {K V : Type 0} ⦃e : Eq K⦄ where
  pub lookup-insert :
      (k j : K) (v : V) (m : Table K V)
      → lookup j (insert k v m) ≡ (if e.beq k j then some v else lookup j m)
  unfolding lookup insert
  lookup-insert k j v [] = refl
  lookup-insert k j v ((i, w) ∷ m) =
      ground (arith, e.beq_iff i k, e.beq_iff i j, e.beq_iff k j, lookup-insert k j v m)

  pub lookup-remove :
      (k j : K) (m : Table K V) → lookup j (remove k m) ≡ (if e.beq k j then none else lookup j m)
  unfolding lookup remove
  lookup-remove k j [] = ground arith
  lookup-remove k j ((i, w) ∷ m) =
      ground (arith, e.beq_iff i k, e.beq_iff i j, e.beq_iff k j, lookup-remove k j m)

  pub lookup-Absent : (k : K) (m : Table K V) → Absent k m → lookup k m ≡ none
  unfolding lookup
  lookup-Absent k [] h = refl
  lookup-Absent k ((j, w) ∷ m) h = rw h.0 (lookup-Absent k m h.1)

  pub lookup-retain :
      (p : K → V → Bool) (k : K) (m : Table K V)
      → IsMap m
      → lookup k (retain p m)
        ≡ elim (lookup k m) [ none ↦ none | some v ↦ if p k v then some v else none ]
  unfolding lookup retain
  lookup-retain p k [] h = refl
  lookup-retain p k ((j, w) ∷ m) h =
      ground (arith, e.beq_iff j k, lookup-Absent j m h.0, lookup-retain p k m h.1)

  Absent-insert :
      (k j : K) (v : V) (m : Table K V) → e.beq k j ≡ false → Absent j m → Absent j (insert k v m)
  unfolding insert
  Absent-insert k j v [] h a = (h, tt)
  Absent-insert k j v ((i, w) ∷ m) h a = elim (Bool-cases (e.beq i k)) [
    | inl x ↦ rw x (h, a.1)
    | inr x ↦ rw x (a.0, Absent-insert k j v m h a.1)
  ]

  Absent-remove : (k j : K) (m : Table K V) → Absent j m → Absent j (remove k m)
  unfolding remove
  Absent-remove k j [] a = tt
  Absent-remove k j ((i, w) ∷ m) a = elim (Bool-cases (e.beq i k)) [
    | inl x ↦ rw x (Absent-remove k j m a.1)
    | inr x ↦ rw x (a.0, Absent-remove k j m a.1)
  ]

  Absent-retain : (p : K → V → Bool) (j : K) (m : Table K V) → Absent j m → Absent j (retain p m)
  unfolding retain
  Absent-retain p j [] a = tt
  Absent-retain p j ((i, w) ∷ m) a = elim (Bool-cases (p i w)) [
    | inl x ↦ rw x (a.0, Absent-retain p j m a.1)
    | inr x ↦ rw x (Absent-retain p j m a.1)
  ]

  pub IsMap-insert : (k : K) (v : V) (m : Table K V) → IsMap m → IsMap (insert k v m)
  unfolding insert
  IsMap-insert k v [] h = (tt, tt)
  IsMap-insert k v ((i, w) ∷ m) h = elim (Bool-cases (e.beq i k)) [
    | inl x ↦ rw x (rw (← (e.beq_iff i k).0 x) h)
    | inr x ↦ rw x (Absent-insert k i v m (beq_flip i k x) h.0, IsMap-insert k v m h.1)
  ]

  pub IsMap-remove : (k : K) (m : Table K V) → IsMap m → IsMap (remove k m)
  unfolding remove
  IsMap-remove k [] h = tt
  IsMap-remove k ((i, w) ∷ m) h = elim (Bool-cases (e.beq i k)) [
    | inl x ↦ rw x (IsMap-remove k m h.1)
    | inr x ↦ rw x (Absent-remove k i m h.0, IsMap-remove k m h.1)
  ]

  pub IsMap-retain : (p : K → V → Bool) (m : Table K V) → IsMap m → IsMap (retain p m)
  unfolding retain
  IsMap-retain p [] h = tt
  IsMap-retain p ((i, w) ∷ m) h = elim (Bool-cases (p i w)) [
    | inl x ↦ rw x (Absent-retain p i m h.0, IsMap-retain p m h.1)
    | inr x ↦ rw x (IsMap-retain p m h.1)
  ]

  pub length-insert-le : (k : K) (v : V) (m : Table K V) → length (insert k v m) ≤ suc (length m)
  unfolding insert
  length-insert-le k v [] = omega arith
  length-insert-le k v ((i, w) ∷ m) = ground (arith, length-insert-le k v m)

  length-remove-le : (k : K) (m : Table K V) → length (remove k m) ≤ length m
  unfolding remove
  length-remove-le k [] = omega arith
  length-remove-le k ((i, w) ∷ m) = ground (arith, length-remove-le k m)

  pub length-remove-lt :
      (k : K) {v : V} (m : Table K V) → lookup k m ≡ some v → length (remove k m) < length m
  unfolding remove lookup
  length-remove-lt k [] h = cc
  length-remove-lt k {v} ((i, w) ∷ m) h =
      ground (arith, length-remove-lt k {v = v} m, length-remove-le k m)

  pub length-retain-le : (p : K → V → Bool) (m : Table K V) → length (retain p m) ≤ length m
  unfolding retain
  length-retain-le p [] = omega arith
  length-retain-le p ((i, w) ∷ m) = ground (arith, length-retain-le p m)

  -- A key that is found behind an entry is found with that entry in front.
  pub lookup-cons :
      (x k : K) (w : V) {v : V} (m : Table K V)
      → Absent k m
      → lookup x m ≡ some v
      → lookup x ((k, w) ∷ m) ≡ some v
  unfolding lookup
  lookup-cons x k w {v} m a h = elim (Bool-cases (e.beq k x)) [
    | inl y ↦
        let same : k ≡ x = (e.beq_iff k x).0 y in
        let missing : lookup x m ≡ none =
          subst (λ (j : K). lookup j m ≡ none) same (lookup-Absent k m a) in
        cc
    | inr y ↦ rw y h
  ]

  pub lookup-front : (k : K) (w : V) (m : Table K V) → lookup k ((k, w) ∷ m) ≡ some w
  unfolding lookup
  lookup-front k w m = rw (beq_self k) refl

  pub lookup-skip :
      (x k j : K) (w u : V) {v : V} (m : Table K V)
      → IsMap ((k, w) ∷ (j, u) ∷ m)
      → lookup x ((k, w) ∷ m) ≡ some v
      → lookup x ((k, w) ∷ (j, u) ∷ m) ≡ some v
  unfolding lookup
  lookup-skip x k j w u {v} m h q = elim (Bool-cases (e.beq k x)) [
    | inl y ↦ rw y (rw y at q)
    | inr y ↦ rw y (lookup-cons x j u m h.1.0 (rw y at q))
  ]
