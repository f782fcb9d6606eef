-- ===== src/Mailbox.antt =====
-- crates/sidevers-net/src/forward.rs: the mailbox of a forwarder, a queue of held messages for each
-- recipient. The clock's time is an argument. Each method holds the mutex from start to end, so that
-- calls from several tasks are a sequence of calls.
pub mod Queues
use sidevers_protocol.Cbor.Writer.{Bytes}
use sidevers_protocol.Common.{
  ℕ, ◌+◌, ◌-◌, ◌*◌, ◌%◌, ◌^◌, min, Option, none, some, List, [], ◌∷◌, ◌++◌, ltb, if◌then◌else◌,
  length,
}
use sidevers_protocol.Common.Eq.{bytes_Eq}
use sidevers_protocol.Table.{Table, lookup, insert, remove}

abbrev pub week_secs : ℕ
week_secs = 7 * 24 * 60 * 60

pub record HeldMessage : Type 0 where
  pub envelope : Bytes
  pub stored_at : ℕ
  pub expires_at : ℕ

abbrev pub Mailbox : Type 0
Mailbox = Table Bytes (List HeldMessage)

unfoldable pub new_mailbox : Mailbox
new_mailbox = []

-- `unwrap_or_default` of what a map has for a recipient.
unfoldable pub or_empty : Option (List HeldMessage) → List HeldMessage
or_empty none = []
or_empty (some queue) = queue

-- `m.expires_at > now`, of a queue.
unfoldable pub unexpired : ℕ → List HeldMessage → List HeldMessage
unexpired now [] = []
unexpired now (h ∷ queue) =
    let rest = unexpired now queue in if ltb now h.expires_at then h ∷ rest else rest

-- `now + ttl` wraps at 64 bits.
unfoldable pub hold : ℕ → Bytes → ℕ → HeldMessage
hold now envelope ttl_secs = record {
  envelope = envelope;
  stored_at = now;
  expires_at = (now + min ttl_secs week_secs) % 2 ^ 64;
}

unfoldable pub store : ℕ → Bytes → Bytes → ℕ → Mailbox → Mailbox
store now recipient envelope ttl_secs m =
    insert recipient (or_empty (lookup recipient m) ++ (hold now envelope ttl_secs ∷ [])) m

unfoldable pub drain : ℕ → Bytes → Mailbox → List HeldMessage × Mailbox
drain now recipient m = (unexpired now (or_empty (lookup recipient m)), remove recipient m)

unfoldable pub len_for : Bytes → Mailbox → ℕ
len_for recipient m = length (or_empty (lookup recipient m))

-- The queues that `sweep` leaves, without the empty ones.
unfoldable pub keep_queue : Bytes → List HeldMessage → Mailbox → Mailbox
keep_queue r [] m = m
keep_queue r (h ∷ queue) m = (r, h ∷ queue) ∷ m

unfoldable pub sweep_queues : ℕ → Mailbox → Mailbox
sweep_queues now [] = []
sweep_queues now ((r, queue) ∷ m) = keep_queue r (unexpired now queue) (sweep_queues now m)

-- What `sweep` adds up in `dropped`.
unfoldable pub count_dropped : ℕ → Mailbox → ℕ
count_dropped now [] = 0
count_dropped now ((r, queue) ∷ m) =
    (length queue - length (unexpired now queue)) + count_dropped now m

unfoldable pub sweep : ℕ → Mailbox → ℕ × Mailbox
sweep now m = (count_dropped now m, sweep_queues now m)
