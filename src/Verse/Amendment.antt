-- ===== src/Verse/Amendment.antt =====
-- What `classify_amendment` of crates/sidevers-core/src/verse.rs finds.
use sidevers_protocol.Cbor.Writer.{Bytes}
use sidevers_protocol.Common.{
  ℕ, ◌≡◌, refl, ap, subst, ◌↔◌, ◌⊎◌, inl, inr, Bool, true, false, ◌||◌, Option, none, some, List,
  [], ◌∷◌, arith, ==_iff, Bool-cases,
}
use sidevers_protocol.Common.Eq.{bytes_Eq}
use sidevers_protocol.Verse.{
  ContractObject, KnownPolicyKind, no_archive, retention_max_days, require_real_name, ephemeral,
  moderation_required, mixed, policy_is_restrictive, requires_reconsent, same_number, same_policy,
  has_policy, has_kind, kinds_of, adds_kind, adds_restrictive, known_policies, amendment_kind,
  is_reductive, is_expansive, classify_amendment,
}

-- A kind that the first list has and the second has not; likewise a policy.
abbrev pub NewKind : List Bytes → List Bytes → Type 0
NewKind a b = (k : Bytes) × (has_kind k a ≡ true) × (has_kind k b ≡ false)

abbrev pub NewPolicy : List KnownPolicyKind → List KnownPolicyKind → Type 0
NewPolicy a b = (k : KnownPolicyKind) × (has_policy k a ≡ true) × (has_policy k b ≡ false)

-- The amendment asks for a field or forbids one that the contract did not, or adds a known policy.
abbrev pub Tightens : ContractObject → ContractObject → Type 0
Tightens c next =
    NewKind (kinds_of next.required) (kinds_of c.required)
    ⊎ (NewKind next.forbidden c.forbidden
        ⊎ NewPolicy (known_policies next.policies) (known_policies c.policies))

-- The amendment gives up one of these, or allows a field that the contract did not.
abbrev pub Loosens : ContractObject → ContractObject → Type 0
Loosens c next =
    NewKind (kinds_of c.required) (kinds_of next.required)
    ⊎ (NewKind c.forbidden next.forbidden
        ⊎ (NewKind (kinds_of next.optional) (kinds_of c.optional)
            ⊎ NewPolicy (known_policies c.policies) (known_policies next.policies)))

adds_kind_iff : (a b : List Bytes) → (adds_kind a b ≡ true) ↔ NewKind a b
unfolding adds_kind has_kind
adds_kind_iff [] b = (λ e. cc, λ (k, h, n). cc)
adds_kind_iff (j ∷ js) b = elim (Bool-cases (has_kind j b)) [
  | inl x ↦
      let (found, back) = adds_kind_iff js b in
      rw x (
        λ e. let (k, h, n) = found e in (k, ground (arith, h), n),
        λ (k, h, n). elim (Bool-cases (bytes_Eq.beq j k)) [
          | inl y ↦
              let same : j ≡ k = (bytes_Eq.beq_iff j k).0 y in
              let no : has_kind k b ≡ true = subst (λ (t : Bytes). has_kind t b ≡ true) same x in cc
          | inr y ↦ back (k, (rw y at h), n)
        ],
      )
  | inr x ↦ rw x (λ e. (j, rw ((bytes_Eq.beq_iff j j).1 refl) refl, x), λ p. refl)
]

same_number-eq : (m n : Option ℕ) → same_number m n ≡ true → m ≡ n
unfolding same_number
same_number-eq none none h = refl
same_number-eq none (some n) h = cc
same_number-eq (some m) none h = cc
same_number-eq (some m) (some n) h = ap some ((==_iff m n).0 h)

same_number_self : (m : Option ℕ) → same_number m m ≡ true
unfolding same_number
same_number_self none = refl
same_number_self (some m) = (==_iff m m).1 refl

same_policy-eq : (j k : KnownPolicyKind) → same_policy j k ≡ true → j ≡ k
unfolding same_policy
same_policy-eq no_archive no_archive h = refl
same_policy-eq (retention_max_days m) (retention_max_days n) h =
    ap retention_max_days (same_number-eq m n h)
same_policy-eq require_real_name require_real_name h = refl
same_policy-eq (ephemeral m) (ephemeral n) h = ap ephemeral (same_number-eq m n h)
same_policy-eq moderation_required moderation_required h = refl
same_policy-eq j k h = cc

same_policy_self : (k : KnownPolicyKind) → same_policy k k ≡ true
unfolding same_policy
same_policy_self no_archive = refl
same_policy_self (retention_max_days m) = same_number_self m
same_policy_self require_real_name = refl
same_policy_self (ephemeral m) = same_number_self m
same_policy_self moderation_required = refl

every_policy : (k : KnownPolicyKind) → policy_is_restrictive k ≡ true
unfolding policy_is_restrictive
every_policy no_archive = refl
every_policy (retention_max_days m) = refl
every_policy require_real_name = refl
every_policy (ephemeral m) = refl
every_policy moderation_required = refl

adds_restrictive_iff : (a b : List KnownPolicyKind) → (adds_restrictive a b ≡ true) ↔ NewPolicy a b
unfolding adds_restrictive has_policy
adds_restrictive_iff [] b = (λ e. cc, λ (k, h, n). cc)
adds_restrictive_iff (j ∷ js) b = elim (Bool-cases (has_policy j b)) [
  | inl x ↦
      let (found, back) = adds_restrictive_iff js b in
      rw x (
        λ e. let (k, h, n) = found e in (k, ground (arith, h), n),
        λ (k, h, n). elim (Bool-cases (same_policy j k)) [
          | inl y ↦
              let no : has_policy k b ≡ true =
                subst (λ (t : KnownPolicyKind). has_policy t b ≡ true) (same_policy-eq j k y) x in
              cc
          | inr y ↦ back (k, (rw y at h), n)
        ],
      )
  | inr x ↦ rw (x, every_policy j) (λ e. (j, rw (same_policy_self j) refl, x), λ p. refl)
]

either : {A B : Type 0} (a b : Bool) → (a ≡ true) ↔ A → (b ≡ true) ↔ B → ((a || b) ≡ true) ↔ A ⊎ B
either true b p q = (λ e. inl (p.0 refl), λ e. refl)
either false b p q =
    (λ e. inr (q.0 e), λ e. elim e [ inl x ↦ (let no = p.1 x in cc) | inr y ↦ q.1 y ])

is_reductive_iff : (c next : ContractObject) → (is_reductive c next ≡ true) ↔ Tightens c next
unfolding is_reductive
is_reductive_iff c next =
    either _ _ (adds_kind_iff _ _) (either _ _ (adds_kind_iff _ _) (adds_restrictive_iff _ _))

is_expansive_iff : (c next : ContractObject) → (is_expansive c next ≡ true) ↔ Loosens c next
unfolding is_expansive
is_expansive_iff c next =
    either _ _ (adds_kind_iff _ _)
      (either _ _ (adds_kind_iff _ _) (either _ _ (adds_kind_iff _ _) (adds_restrictive_iff _ _)))

-- An amendment requires consent again exactly if it tightens the rules, and is mixed exactly if it
-- loosens them too.
pub classify_amendment_iff :
    (c next : ContractObject)
    → ((requires_reconsent (classify_amendment c next) ≡ true) ↔ Tightens c next)
      × ((classify_amendment c next ≡ mixed) ↔ Tightens c next × Loosens c next)
unfolding classify_amendment requires_reconsent amendment_kind
classify_amendment_iff c next =
    go (is_reductive c next) (is_expansive c next) (is_reductive_iff c next)
      (is_expansive_iff c next)
  where
    go :
        (r x : Bool)
        → (r ≡ true) ↔ Tightens c next
        → (x ≡ true) ↔ Loosens c next
        → ((requires_reconsent (amendment_kind r x) ≡ true) ↔ Tightens c next)
          × ((amendment_kind r x ≡ mixed) ↔ Tightens c next × Loosens c next)
    go true true p q = ((λ e. p.0 refl, λ t. refl), (λ e. (p.0 refl, q.0 refl), λ t. refl))
    go true false p q = ((λ e. p.0 refl, λ t. refl), (λ e. cc, λ (t, l). let no = q.1 l in cc))
    go false x p q =
        ((λ e. cc, λ t. let no = p.1 t in cc), (λ e. cc, λ (t, l). let no = p.1 t in cc))
