-- ===== src/Batcher/Examples.antt =====
-- The theorem on the batcher, and its messages, at concrete changes.
use flowra.Base.{text, same, List, [], ◌∷◌, ◌≡◌, refl}
use flowra.Batcher.Formats.{Change, status, assignee, format_batch_message}
use flowra.Batcher.Batches.{
  ChangeBatcher, new_batcher, find, put, extended, add_change, message_of, flush_batch,
}
use flowra.Batcher.Told.{Added, change}

abbrev to_done : Change
to_done = record { change_type = status; value = text "Done"; timestamp = 5 }

abbrev to_nobody : Change
to_nobody = record { change_type = assignee; value = []; timestamp = 7 }

abbrev added_once : ChangeBatcher
added_once = add_change (text "u1") (text "c1") (text "Ann") to_done new_batcher

abbrev added_twice : ChangeBatcher
added_twice = add_change (text "u1") (text "c1") (text "Ann") to_nobody added_once

abbrev both : List Added
both =
    record { actor = text "u1"; chat = text "c1"; change = to_done }
    ∷ record { actor = text "u1"; chat = text "c1"; change = to_nobody }
    ∷ []

one_message :
    (flush_batch (text "u1") (text "c1") added_twice).sent
    ≡ record {
      chat_id = text "c1";
      content = text "✅ Ann changed status to Done and removed the assignee";
      actor_id = text "u1";
    }
      ∷ []
unfolding flush_batch find add_change put same extended message_of format_batch_message
one_message = refl

-- Half a minute later bob's change, which no timer has told, is dropped.
abbrev bob_waits : ChangeBatcher
bob_waits =
    add_change (text "u2") (text "c1") (text "Bob") to_done
      (flush_batch (text "u1") (text "c1") added_twice)
