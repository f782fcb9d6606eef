-- ===== src/Table.antt =====
-- `std::collections::HashMap` as the code uses it: an association list, whose order stands for the
-- order of iteration. An insertion overwrites in place or appends.
pub mod Laws
use sidevers_protocol.Common.{
  ◌≡◌, Bool, true, false, Option, none, some, List, [], ◌∷◌, if◌then◌else◌,
}
use sidevers_protocol.Common.Eq.{Eq}

abbrev pub Table : Type 0 → Type 0 → Type 0
Table K V = List (K × V)

module _ {K V : Type 0} ⦃e : Eq K⦄ where
  -- `get`
  unfoldable pub lookup : K → Table K V → Option V
  lookup k [] = none
  lookup k ((j, w) ∷ m) = if e.beq j k then some w else lookup k m

  -- `insert`
  unfoldable pub insert : K → V → Table K V → Table K V
  insert k v [] = (k, v) ∷ []
  insert k v ((j, w) ∷ m) = if e.beq j k then (k, v) ∷ m else (j, w) ∷ insert k v m

  -- `remove`
  unfoldable pub remove : K → Table K V → Table K V
  remove k [] = []
  remove k ((j, w) ∷ m) = let rest = remove k m in if e.beq j k then rest else (j, w) ∷ rest

  -- No entry has the key `k`.
  abbrev pub Absent : K → Table K V → Type 0
  Absent k [] = Unit {0}
  Absent k ((j, w) ∷ m) = (e.beq j k ≡ false) × Absent k m

  -- The keys of a map are distinct.
  abbrev pub IsMap : Table K V → Type 0
  IsMap [] = Unit {0}
  IsMap ((j, w) ∷ m) = Absent j m × IsMap m

module _ {K V : Type 0} where
  -- `retain`
  unfoldable pub retain : (K → V → Bool) → Table K V → Table K V
  retain p [] = []
  retain p ((j, w) ∷ m) = let rest = retain p m in if p j w then (j, w) ∷ rest else rest
