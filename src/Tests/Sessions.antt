-- ===== src/Tests/Sessions.antt =====
-- The theorems on sessions and mailboxes at small inputs.
use sidevers_protocol.Common.{◌≡◌, refl, true, [], ◌∷◌, ◌++◌, arith, ◌↔◌, if◌then◌else◌, bytes_eq}
use sidevers_protocol.Common.Eq.{bytes_Eq}
use sidevers_protocol.Mailbox.{Mailbox, unexpired, hold, store, drain, sweep}
use sidevers_protocol.Mailbox.Queues.{drain-store, drain-sweep}
use sidevers_protocol.Session.{accepts, accepts_iff, InRange, for_gossip}
use sidevers_protocol.Table.{IsMap}

accepts_iff_example : (accepts for_gossip 0x42 ≡ true) ↔ InRange for_gossip 0x42
accepts_iff_example = accepts_iff for_gossip 0x42 (omega arith)

abbrev mailbox : Mailbox
mailbox =
    (1 ∷ [], record { envelope = 5 ∷ []; stored_at = 100; expires_at = 160 } ∷ [])
    ∷ (2 ∷ [], record { envelope = 6 ∷ []; stored_at = 100; expires_at = 500 } ∷ [])
    ∷ []

mailbox-distinct : IsMap mailbox
unfolding bytes_eq
mailbox-distinct = ((refl, tt), (tt, tt))

drain-store_example :
    (drain 300 (2 ∷ []) (store 200 (2 ∷ []) (7 ∷ []) 3600 mailbox)).0
    ≡ (drain 300 (2 ∷ []) mailbox).0
      ++ (if bytes_Eq.beq (2 ∷ []) (2 ∷ [])
          then unexpired 300 (hold 200 (7 ∷ []) 3600 ∷ [])
          else [])
drain-store_example = drain-store 200 300 (2 ∷ []) (2 ∷ []) (7 ∷ []) 3600 mailbox

drain-sweep_example : (drain 300 (2 ∷ []) (sweep 200 mailbox).1).0 ≡ (drain 300 (2 ∷ []) mailbox).0
drain-sweep_example = drain-sweep 200 300 (2 ∷ []) mailbox mailbox-distinct (omega arith)
