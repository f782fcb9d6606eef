-- ===== src/Tests/Pins.antt =====
-- A pinned object in crates/sidevers-storage/src/object.rs at a run of commands and evictions.
use sidevers_protocol.Cbor.Writer.{Bytes}
use sidevers_protocol.Common.{ℕ, ◌≡◌, [], ◌∷◌, List, some, refl, true, bytes_eq, inl, inr, All}
use sidevers_protocol.Common.Eq.{bytes_Eq}
use sidevers_protocol.Errors.{ok}
use sidevers_protocol.Storage.Objects.{
  Row, ObjectStore, new_store, put, get, new_row, insert_or_ignore, pin, update_row,
}
use sidevers_protocol.Storage.Objects.Contents.{
  IsIntact, CollisionFree, content, IsIntact-update_row,
}
use sidevers_protocol.Storage.Objects.Pins.{
  Action, performing, evicting_to_budget, Spares, after, after-Keeps,
}
use sidevers_protocol.Storage.Objects.PutGet.{put_lem}
use sidevers_protocol.Storage.Objects.Refinement.{putting, getting, evicting}
use sidevers_protocol.Storage.Objects.Rows.{Keeps}
use sidevers_protocol.Table.{lookup, insert, IsMap}
use sidevers_protocol.Tests.Stores.{photo, address, OneOf, Distinct-CollisionFree}
use sidevers_protocol.Tests.Samples.{fill, toy, sum_below}

abbrev letter : Bytes
letter = 5 ∷ 6 ∷ 7 ∷ 8 ∷ []

-- Room for five bytes, and a photo of three.
abbrev small_store : ObjectStore
small_store = record new_store { max_bytes = 5 }

abbrev with_photo : ObjectStore
with_photo = (put toy.blake3 5 photo small_store).1

abbrev pinned_row : Row
pinned_row = record (new_row 5 3 (some photo)) { pinned = true }

-- An eviction while a letter is there takes the letter; it may be evicted again, and the photo stored
-- again.
abbrev actions : List Action
actions =
    performing (putting 6 letter)
    ∷ evicting_to_budget
    ∷ performing (putting 8 photo)
    ∷ performing (evicting (toy.blake3 letter))
    ∷ performing (getting 9 address)
    ∷ []

two-CollisionFree : CollisionFree toy.blake3 (OneOf (photo ∷ letter ∷ []))
unfolding bytes_eq fill sum_below
two-CollisionFree = Distinct-CollisionFree (photo ∷ letter ∷ []) ((refl, tt), (tt, tt))

with_photo-IsIntact : IsIntact toy.blake3 (OneOf (photo ∷ letter ∷ [])) with_photo
unfolding lookup
with_photo-IsIntact =
    (put_lem toy.blake3 (OneOf (photo ∷ letter ∷ [])) 5 photo small_store two-CollisionFree
      (inl refl) (λ h. tt)).0

pinned_store-IsIntact : IsIntact toy.blake3 (OneOf (photo ∷ letter ∷ [])) (pin address with_photo)
unfolding pin
pinned_store-IsIntact =
    IsIntact-update_row toy.blake3 (OneOf (photo ∷ letter ∷ [])) address _ with_photo
      (λ w. (refl, refl)) with_photo-IsIntact

pinned_store-IsMap : IsMap (pin address with_photo).rows
unfolding pin update_row put insert_or_ignore lookup insert bytes_eq fill sum_below
pinned_store-IsMap = (tt, tt)

pinned_store-row : lookup address (pin address with_photo).rows ≡ some pinned_row
unfolding pin update_row put insert_or_ignore lookup insert bytes_eq fill sum_below new_row
pinned_store-row = refl

pinned_store-content : content address (pin address with_photo) ≡ some photo
unfolding pin update_row put insert_or_ignore lookup insert bytes_eq fill sum_below new_row
pinned_store-content = refl

pinned_row-pinned : pinned_row.pinned ≡ true
unfolding new_row
pinned_row-pinned = refl

actions-Spares : All (Spares address) actions
unfolding bytes_eq fill sum_below
actions-Spares = (tt, (tt, (tt, (refl, (tt, tt)))))

after-Keeps_example :
    Keeps pinned_row (lookup address (after toy.blake3 actions (pin address with_photo)).rows)
    × ((now : ℕ)
        → (get toy.blake3 now address (after toy.blake3 actions (pin address with_photo))).0
          ≡ ok (some photo))
after-Keeps_example =
    after-Keeps toy.blake3 (OneOf (photo ∷ letter ∷ [])) actions address pinned_row photo
      (pin address with_photo) two-CollisionFree (inr (inl refl), (tt, (inl refl, (tt, (tt, tt)))))
      actions-Spares pinned_store-IsMap pinned_store-IsIntact pinned_store-row pinned_row-pinned
      pinned_store-content
