-- ===== src/Outbox/Examples.antt =====
-- The theorems on the outbox, at an outbox that is the list of its entries.
use flowra.Base.{
  Text, text, same, true, none, some, List, [], ◌∷◌, ◌≡◌, refl, arith, map, keep, inl,
}
use flowra.Outbox.Worker.{
  OutboxEntry, is_pending, take, change, processed, failed_once, Outbox, OutboxWorkerConfig,
  Answers, World, run,
}
use flowra.Outbox.Draining.{IsMarking, run-drained}
use flowra.Outbox.Published.{IsFair, run-IsFair}

abbrev listed : Outbox
listed = record {
  State = List OutboxEntry;
  entries = λ s. s;
  poll = λ s n. take n (keep is_pending s);
  mark_processed = λ now s id. map (change (processed now) id) s;
  mark_failed = λ s id why. map (change (failed_once why) id) s;
  poll-entries = λ s n. refl;
  entries-mark_processed = λ now s id. refl;
  entries-mark_failed = λ s id why. refl;
}

abbrev an_entry : Text → OutboxEntry
an_entry id = record {
  id = id;
  event_id = text "e1";
  event_type = text "chat.created";
  aggregate_id = text "c1";
  aggregate_type = text "Chat";
  payload = [];
  created_at = 1;
  processed_at = none;
  retry_count = 0;
  last_error = [];
}

abbrev a_config : OutboxWorkerConfig
a_config = record { batch_size = 1; max_retries = 1 }

-- A bus that takes nothing.
abbrev refusing : Answers
refusing = record {
  now = 9;
  polled = true;
  publish_error = λ e. some (text "down");
  processed_marked = λ e. true;
  failure_marked = λ e. true;
}

refusing-IsMarking : IsMarking listed refusing
refusing-IsMarking = record {
  polled = refl;
  processed_marked = λ e. refl;
  failure_marked = λ e. refl;
}

abbrev two_entries : World listed
two_entries = record { store = an_entry (text "o1") ∷ an_entry (text "o2") ∷ []; published = [] }

abbrev four_rounds : List Answers
four_rounds = refusing ∷ refusing ∷ refusing ∷ refusing ∷ []

run-drained_example :
    keep is_pending (listed.entries (run listed a_config four_rounds two_entries).store) ≡ []
run-drained_example =
    run-drained listed a_config four_rounds two_entries (omega arith)
      (refusing-IsMarking, (refusing-IsMarking, (refusing-IsMarking, (refusing-IsMarking, tt))))
      (omega arith)

two_entries-IsFair : IsFair listed 1 two_entries
unfolding same
two_entries-IsFair = ((refl, (refl, tt)), (inl refl, (inl refl, tt)))

run-IsFair_example : IsFair listed 1 (run listed a_config four_rounds two_entries)
run-IsFair_example = run-IsFair listed a_config four_rounds two_entries two_entries-IsFair
