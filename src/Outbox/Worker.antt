-- ===== src/Outbox/Worker.antt =====
-- internal/application/appcore/outbox.go, the interface of the outbox, and internal/worker/outbox_worker.go, the worker
-- that publishes its entries. Logs and metrics are left out.
use flowra.Base.{
  ℕ, zero, suc, ◌+◌, Text, same, Bool, true, false, Option, none, some, List, [], ◌∷◌, ◌≡◌, map,
  keep, leb, if◌then◌else◌,
}

-- OutboxEntry, its payload as text
pub record OutboxEntry : Type 0 where
  pub id : Text
  pub event_id : Text
  pub event_type : Text
  pub aggregate_id : Text
  pub aggregate_type : Text
  pub payload : Text
  pub created_at : ℕ
  pub processed_at : Option ℕ
  pub retry_count : ℕ
  pub last_error : Text

-- An entry that is not processed.
abbrev pub is_pending : OutboxEntry → Bool
is_pending e = elim e.processed_at [ none ↦ true | some at ↦ false ]

-- The first `n` members.
abbrev pub take {ℓ} : {A : Type ℓ} → ℕ → List A → List A
take zero xs = []
take (suc n) [] = []
take (suc n) (x ∷ xs) = x ∷ take n xs

-- A change of the entries with one identity.
abbrev pub change : (OutboxEntry → OutboxEntry) → Text → OutboxEntry → OutboxEntry
change f id e = if same e.id id then f e else e

abbrev pub processed : ℕ → OutboxEntry → OutboxEntry
processed now e = record e { processed_at = some now }

abbrev pub failed_once : Text → OutboxEntry → OutboxEntry
failed_once why e = record e { retry_count = e.retry_count + 1; last_error = why }

-- The operations of Outbox that the worker calls. `entries` is what the outbox holds, oldest first.
pub record Outbox : Type 1 where
  pub State : Type 0
  pub entries : State → List OutboxEntry
  pub poll : State → ℕ → List OutboxEntry
  pub mark_processed : ℕ → State → Text → State
  pub mark_failed : State → Text → Text → State
  pub poll-entries : (s : State) (n : ℕ) → poll s n ≡ take n (keep is_pending (entries s))
  pub entries-mark_processed :
      (now : ℕ) (s : State) (id : Text)
      → entries (mark_processed now s id) ≡ map (change (processed now) id) (entries s)
  pub entries-mark_failed :
      (s : State) (id why : Text)
      → entries (mark_failed s id why) ≡ map (change (failed_once why) id) (entries s)

-- OutboxWorkerConfig
pub record OutboxWorkerConfig : Type 0 where
  pub batch_size : ℕ
  pub max_retries : ℕ

-- The outboxEvent made from an entry, less its version and metadata, which stay zero.
pub record OutboxEvent : Type 0 where
  pub event_type : Text
  pub aggregate_id : Text
  pub aggregate_type : Text
  pub occurred_at : ℕ
  pub payload : Text

abbrev pub event_of : OutboxEntry → OutboxEvent
event_of e = record {
  event_type = e.event_type;
  aggregate_id = e.aggregate_id;
  aggregate_type = e.aggregate_type;
  occurred_at = e.created_at;
  payload = e.payload;
}

-- What the bus and the database answer during one batch: the error of Publish, if there is one, and which of the calls
-- succeed. `now` is the clock at MarkProcessed.
pub record Answers : Type 0 where
  pub now : ℕ
  pub polled : Bool
  pub publish_error : OutboxEntry → Option Text
  pub processed_marked : OutboxEntry → Bool
  pub failure_marked : OutboxEntry → Bool

module _ (outbox : Outbox) where
  open outbox use {State, entries, poll, mark_processed, mark_failed}

  -- The outbox, and what was published, newest first, by the entry's identity.
  pub record World : Type 0 where
    pub store : State
    pub published : List (Text × OutboxEvent)

  -- MarkProcessed, which may fail
  abbrev pub with_processed : Answers → OutboxEntry → World → World
  with_processed ans e w = record w {
    store = if ans.processed_marked e then mark_processed ans.now w.store e.id else w.store;
  }

  -- MarkFailed, which may fail
  abbrev pub with_failed : Answers → OutboxEntry → Text → World → World
  with_failed ans e why w = record w {
    store = if ans.failure_marked e then mark_failed w.store e.id why else w.store;
  }

  -- The rest of processEntry, behind Publish.
  abbrev pub after_publish : Answers → OutboxEntry → World → Option Text → World
  after_publish ans e w (some why) = with_failed ans e why w
  after_publish ans e w none =
      with_processed ans e (record w { published = (e.id, event_of e) ∷ w.published })

  -- processEntry
  unfoldable pub process_entry : OutboxWorkerConfig → Answers → OutboxEntry → World → World
  process_entry config ans e w =
      if leb config.max_retries e.retry_count
      then with_processed ans e w
      else after_publish ans e w (ans.publish_error e)

  -- The loop of processBatch, which goes on behind an entry that fails.
  unfoldable pub process_entries : OutboxWorkerConfig → Answers → List OutboxEntry → World → World
  process_entries config ans [] w = w
  process_entries config ans (e ∷ es) w =
      process_entries config ans es (process_entry config ans e w)

  -- processBatch
  unfoldable pub process_batch : OutboxWorkerConfig → Answers → World → World
  process_batch config ans w =
      process_entries config ans (if ans.polled then poll w.store config.batch_size else []) w

  -- The batches that Run processes, one for each tick of the clock for polls.
  unfoldable pub run : OutboxWorkerConfig → List Answers → World → World
  run config [] w = w
  run config (ans ∷ rest) w = run config rest (process_batch config ans w)
