-- ===== src/Batcher/Batches.antt =====
-- internal/service/change_batcher.go: ChangeBatcher. Each method holds the mutex while it works on the batches. A timer
-- that has fired may flush a batch that was meanwhile prolonged, so a flush may come at any time. A batch is sent behind the
-- mutex; flushes of one key are far enough apart for that to be one step with its removal. Times count nanoseconds.
use flowra.Base.{
  ℕ, ◌-◌, Text, Uuid, same, Bool, ◌&&◌, not, Option, none, some, List, [], ◌∷◌, ◌++◌, ltb, ◌==◌,
  if◌then◌else◌, keep,
}
use flowra.Batcher.Formats.{Change, PendingBatch, format_batch_message}

-- batchKey, of a batch
abbrev pub has_key : PendingBatch → Uuid → Uuid → Bool
has_key b actor chat = same b.actor_id actor && same b.chat_id chat

-- A message that flushFunc was called with: the chat, the text and the actor.
pub record Sent : Type 0 where
  pub chat_id : Uuid
  pub content : Text
  pub actor_id : Uuid

-- ChangeBatcher: the batches by their keys, and the messages that were sent, oldest first.
pub record ChangeBatcher : Type 0 where
  pub batches : List PendingBatch
  pub sent : List Sent

abbrev pub default_batch_window : ℕ
default_batch_window = 2000000000

-- cleanupAbandonedBatches: the age at which a batch is dropped
abbrev pub abandoned_after : ℕ
abandoned_after = 10000000000

-- NewChangeBatcher: the window of a batcher
abbrev pub window_of : ℕ → ℕ
window_of w = if w == 0 then default_batch_window else w

abbrev pub new_batcher : ChangeBatcher
new_batcher = record { batches = []; sent = [] }

-- `cb.batches[key]` with its second result
unfoldable pub find : List PendingBatch → Uuid → Uuid → Option PendingBatch
find [] actor chat = none
find (b ∷ bs) actor chat = if has_key b actor chat then some b else find bs actor chat

-- `cb.batches[key] = b`, and a change of the batch that the map points to
unfoldable pub put : List PendingBatch → PendingBatch → List PendingBatch
put [] b = b ∷ []
put (c ∷ bs) b = if has_key c b.actor_id b.chat_id then b ∷ bs else c ∷ put bs b

-- `delete(cb.batches, key)`
unfoldable pub drop : List PendingBatch → Uuid → Uuid → List PendingBatch
drop bs actor chat = keep (λ b. not (has_key b actor chat)) bs

-- The batch with a change added, or a new one for it.
unfoldable pub extended : Uuid → Uuid → Text → Change → Option PendingBatch → PendingBatch
extended actor chat name c none = record {
  actor_id = actor;
  chat_id = chat;
  actor_name = name;
  changes = c ∷ [];
  first_time = c.timestamp;
  last_time = c.timestamp;
}
extended actor chat name c (some b) = record b {
  changes = b.changes ++ c ∷ [];
  last_time = c.timestamp;
}

-- AddChange
unfoldable pub add_change : Uuid → Uuid → Text → Change → ChangeBatcher → ChangeBatcher
add_change actor chat name c s = record s {
  batches = put s.batches (extended actor chat name c (find s.batches actor chat));
}

unfoldable pub message_of : PendingBatch → Sent
message_of b = record {
  chat_id = b.chat_id;
  content = format_batch_message b;
  actor_id = b.actor_id;
}

unfoldable pub flushed : ChangeBatcher → Uuid → Uuid → Option PendingBatch → ChangeBatcher
flushed s actor chat none = s
flushed s actor chat (some b) = record {
  batches = drop s.batches actor chat;
  sent = s.sent ++ message_of b ∷ [];
}

-- flushBatch
unfoldable pub flush_batch : Uuid → Uuid → ChangeBatcher → ChangeBatcher
unfolding flushed
flush_batch actor chat s = flushed s actor chat (find s.batches actor chat)

-- cleanupAbandonedBatches, at `now`
unfoldable pub cleanup_abandoned_batches : ℕ → ChangeBatcher → ChangeBatcher
cleanup_abandoned_batches now s = record s {
  batches = keep (λ b. not (ltb abandoned_after (now - b.last_time))) s.batches;
}

-- Close
unfoldable pub close_batcher : ChangeBatcher → ChangeBatcher
close_batcher s = record s { batches = [] }
