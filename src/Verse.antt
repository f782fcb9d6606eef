-- ===== src/Verse.antt =====
-- crates/sidevers-core/src/verse.rs: the rules of a verse's contract, and how an amendment of them is
-- classified. A set is the list that it is collected from; a `BTreeMap` is an association list. The
-- child modules hold the encodings and the signatures; the encryption of posts is not modelled.
pub mod Contract
pub mod Policies
pub mod Fields
pub mod MembershipToken
pub mod Amendment
use sidevers_protocol.Cbor.Writer.{Bytes}
use sidevers_protocol.Common.{
  codes, ℕ, ◌+◌, ◌-◌, ◌*◌, ◌^◌, Bool, true, false, ◌&&◌, ◌||◌, Option, none, some, List, [], ◌∷◌,
  ltb, leb, ◌==◌, if◌then◌else◌,
}
use sidevers_protocol.Common.Eq.{bytes_Eq}
use sidevers_protocol.Table.{Table, lookup}

-- `FieldKind` is its text.
pub record FieldSpec : Type 0 where
  pub kind : Bytes
  pub label : Bytes
  pub description : Option Bytes
  pub validator : Option Bytes

pub record PolicyClause : Type 0 where
  pub kind : Bytes
  pub params : Table Bytes Bytes

pub data KnownPolicyKind : Type 0 where
  no_archive : KnownPolicyKind
  retention_max_days : Option ℕ → KnownPolicyKind
  require_real_name : KnownPolicyKind
  ephemeral : Option ℕ → KnownPolicyKind
  moderation_required : KnownPolicyKind

pub data AmendmentKind : Type 0 where
  reductive expansive mixed : AmendmentKind

pub record ContractObject : Type 0 where
  pub verse : Bytes
  pub version : ℕ
  pub title : Bytes
  pub description : Bytes
  pub required : List FieldSpec
  pub optional : List FieldSpec
  pub forbidden : List Bytes
  pub scoped : List Bytes
  pub policies : List PolicyClause
  pub moderators : List Bytes
  pub issued_at : ℕ
  pub signature : Bytes

pub record PolicyClassification : Type 0 where
  pub known : List KnownPolicyKind
  pub unknown : List Bytes

-- `str::parse::<u64>`: decimal digits, at least one, of a number below 2^64.
unfoldable pub parse_digits : ℕ → Bytes → Option ℕ
parse_digits acc [] = some acc
parse_digits acc (d ∷ ds) =
    let rest = parse_digits (acc * 10 + (d - 48)) ds in
    if leb 48 d && (leb d 57 && ltb (acc * 10 + (d - 48)) (2 ^ 64)) then rest else none

unfoldable pub parse_number : Bytes → Option ℕ
parse_number [] = none
parse_number (d ∷ ds) = parse_digits 0 (d ∷ ds)

-- The same with a sign `+` in front, which is let through.
unfoldable pub parse_u64 : Bytes → Option ℕ
parse_u64 [] = none
parse_u64 (d ∷ ds) = if d == 43 then parse_number ds else parse_number (d ∷ ds)

-- `and_then(|s| s.parse().ok())`
unfoldable pub parse_param : Option Bytes → Option ℕ
parse_param none = none
parse_param (some s) = parse_u64 s

unfoldable pub classify : PolicyClause → Option KnownPolicyKind
classify c =
    if bytes_Eq.beq c.kind (codes "no-archive")
    then some no_archive
    else if bytes_Eq.beq c.kind (codes "retention-max-days")
    then some (retention_max_days (parse_param (lookup (codes "days") c.params)))
    else if bytes_Eq.beq c.kind (codes "require-real-name")
    then some require_real_name
    else if bytes_Eq.beq c.kind (codes "ephemeral")
    then some (ephemeral (parse_param (lookup (codes "ttl_secs") c.params)))
    else if bytes_Eq.beq c.kind (codes "moderation-required")
    then some moderation_required
    else none

unfoldable pub is_known : PolicyClause → Bool
is_known c = elim (classify c) [ none ↦ false | some k ↦ true ]

unfoldable pub classified :
    PolicyClause → Option KnownPolicyKind → PolicyClassification → PolicyClassification
classified c none r = record r { unknown = c.kind ∷ r.unknown }
classified c (some k) r = record r { known = k ∷ r.known }

unfoldable pub classify_all : List PolicyClause → PolicyClassification
classify_all [] = record { known = []; unknown = [] }
classify_all (c ∷ cs) = classified c (classify c) (classify_all cs)

-- Every kind is listed in the code.
unfoldable pub policy_is_restrictive : KnownPolicyKind → Bool
policy_is_restrictive no_archive = true
policy_is_restrictive (retention_max_days days) = true
policy_is_restrictive require_real_name = true
policy_is_restrictive (ephemeral ttl_secs) = true
policy_is_restrictive moderation_required = true

unfoldable pub requires_reconsent : AmendmentKind → Bool
requires_reconsent reductive = true
requires_reconsent mixed = true
requires_reconsent expansive = false

unfoldable pub same_number : Option ℕ → Option ℕ → Bool
same_number none none = true
same_number none (some n) = false
same_number (some m) none = false
same_number (some m) (some n) = m == n

unfoldable pub same_policy : KnownPolicyKind → KnownPolicyKind → Bool
same_policy no_archive no_archive = true
same_policy (retention_max_days m) (retention_max_days n) = same_number m n
same_policy require_real_name require_real_name = true
same_policy (ephemeral m) (ephemeral n) = same_number m n
same_policy moderation_required moderation_required = true
same_policy _ _ = false

unfoldable pub has_policy : KnownPolicyKind → List KnownPolicyKind → Bool
has_policy k [] = false
has_policy k (j ∷ js) = if same_policy j k then true else has_policy k js

unfoldable pub has_kind : Bytes → List Bytes → Bool
has_kind k [] = false
has_kind k (j ∷ js) = if bytes_Eq.beq j k then true else has_kind k js

unfoldable pub kinds_of : List FieldSpec → List Bytes
kinds_of [] = []
kinds_of (s ∷ ss) = s.kind ∷ kinds_of ss

-- `a.difference(&b).next().is_some()`
unfoldable pub adds_kind : List Bytes → List Bytes → Bool
adds_kind [] b = false
adds_kind (k ∷ ks) b = if has_kind k b then adds_kind ks b else true

-- The loop over `a.difference(&b)`, which looks for a restrictive policy.
unfoldable pub adds_restrictive : List KnownPolicyKind → List KnownPolicyKind → Bool
adds_restrictive [] b = false
adds_restrictive (k ∷ ks) b =
    let rest = adds_restrictive ks b in
    if has_policy k b then rest else if policy_is_restrictive k then true else rest

unfoldable pub known_policies : List PolicyClause → List KnownPolicyKind
known_policies cs = (classify_all cs).known

unfoldable pub amendment_kind : Bool → Bool → AmendmentKind
amendment_kind true true = mixed
amendment_kind true false = reductive
amendment_kind false _ = expansive

unfoldable pub is_reductive : ContractObject → ContractObject → Bool
is_reductive c next =
    adds_kind (kinds_of next.required) (kinds_of c.required)
    || (adds_kind next.forbidden c.forbidden
        || adds_restrictive (known_policies next.policies) (known_policies c.policies))

unfoldable pub is_expansive : ContractObject → ContractObject → Bool
is_expansive c next =
    adds_kind (kinds_of c.required) (kinds_of next.required)
    || (adds_kind c.forbidden next.forbidden
        || (adds_kind (kinds_of next.optional) (kinds_of c.optional)
            || adds_restrictive (known_policies c.policies) (known_policies next.policies)))

unfoldable pub classify_amendment : ContractObject → ContractObject → AmendmentKind
classify_amendment c next = amendment_kind (is_reductive c next) (is_expansive c next)

unfoldable pub is_moderator : Bytes → ContractObject → Bool
is_moderator side c = bytes_Eq.beq side c.verse || has_kind side c.moderators

unfoldable pub is_forbidden : Bytes → ContractObject → Bool
is_forbidden kind c = has_kind kind c.forbidden
