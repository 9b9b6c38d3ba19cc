-- ===== src/Task/Projector.antt =====
-- internal/infrastructure/projector/chat_to_task_read_model_projector.go: ChatToTaskReadModelProjector, over any event
-- store and any collection of documents; and internal/infrastructure/eventbus/task_read_model_projection_handler.go.
use mathlib.Core.Option
use flowra.Base.{
  ℕ, suc, Text, Uuid, text, same, is_empty, Bool, true, false, not, Option, none, some, List, [],
  ◌∷◌, ◌≡◌, keep, if◌then◌else◌, Result, ok, err, ◌>>=◌, ◌>>◌, fail_if, contains,
}
use flowra.Text.{has_prefix}
use flowra.Chat.Types.{
  Payload, created, participant_added, participant_removed, type_changed, status_changed,
  user_assigned, assignee_removed, priority_set, due_date_set, due_date_removed, attachment_added,
  attachment_removed, renamed, severity_set, deleted, closed, reopened, unknown_event, Event, Chat,
}
use flowra.Chat.Apply.{replay}
use flowra.Store.Events.{EventStore, StoreError, concurrency_conflict, aggregate_not_found}
use flowra.Task.Document.{
  ProjectionError, missing, load_failed, database_failed, invalid_chat_id, Document,
  build_task_projection_document, compare_task_projection_documents,
}

-- The times of a document, as the database keeps them.
unfoldable pub rounded : (ℕ → ℕ) → Document → Document
rounded round d = record d {
  due_date = Option.map round d.due_date;
  created_at = round d.created_at;
}

-- The collection tasks_read_model, by the field task_id: FindOne, UpdateOne with $set and upsert, DeleteOne. A time is
-- kept at the precision of the database.
pub record TaskReadModel : Type 1 where
  pub State : Type 0
  pub round : ℕ → ℕ
  pub find : State → Text → Option Document
  pub put : State → Text → Document → State
  pub remove : State → Text → State
  pub find-put :
      (s : State) (k j : Text) (d : Document)
      → find (put s k d) j ≡ (if same k j then some (rounded round d) else find s j)
  pub find-remove :
      (s : State) (k j : Text) → find (remove s k) j ≡ (if same k j then none else find s j)

-- Which calls on the databases fail during one operation.
pub record Answers : Type 0 where
  pub load_fails : Bool
  pub update_fails : Bool
  pub delete_fails : Bool
  pub count_fails : Bool
  pub find_fails : Bool

-- EventType of each event, of internal/domain/chat/events.go
unfoldable pub event_type : Payload → Text
event_type (created _ _ _ _ _) = text "chat.created"
event_type (participant_added _ _ _) = text "chat.participant_added"
event_type (participant_removed _) = text "chat.participant_removed"
event_type (type_changed _ _ _) = text "chat.type_changed"
event_type (status_changed _ _ _) = text "chat.status_changed"
event_type (user_assigned _ _) = text "chat.user_assigned"
event_type (assignee_removed _ _) = text "chat.assignee_removed"
event_type (priority_set _ _ _) = text "chat.priority_set"
event_type (due_date_set _ _ _) = text "chat.due_date_set"
event_type (due_date_removed _ _) = text "chat.due_date_removed"
event_type (attachment_added _ _ _ _ _) = text "chat.attachment_added"
event_type (attachment_removed _ _) = text "chat.attachment_removed"
event_type (renamed _ _ _) = text "chat.renamed"
event_type (severity_set _ _ _) = text "chat.severity_set"
event_type (deleted _ _) = text "chat.deleted"
event_type (closed _ _ _) = text "chat.closed"
event_type (reopened _ _ _) = text "chat.reopened"
event_type (unknown_event name) = name

-- filterChatEvents
unfoldable pub is_chat_event : Event → Bool
unfolding event_type has_prefix
is_chat_event e = has_prefix (event_type e.payload) (text "chat.")

unfoldable pub filter_chat_events : List Event → List Event
filter_chat_events es = keep is_chat_event es

-- TaskReadModelProjectionEventTypes
abbrev pub task_read_model_projection_event_types : List Text
task_read_model_projection_event_types =
    text "chat.type_changed"
    ∷ text "chat.status_changed"
    ∷ text "chat.priority_set"
    ∷ text "chat.user_assigned"
    ∷ text "chat.assignee_removed"
    ∷ text "chat.due_date_set"
    ∷ text "chat.due_date_removed"
    ∷ text "chat.severity_set"
    ∷ text "chat.attachment_added"
    ∷ text "chat.attachment_removed"
    ∷ text "chat.closed"
    ∷ text "chat.reopened"
    ∷ text "chat.renamed"
    ∷ text "chat.deleted"
    ∷ []

-- shouldProcess: every event of a chat has the aggregate type that it asks for.
unfoldable pub should_process : Event → Bool
unfolding event_type
should_process e = contains task_read_model_projection_event_types (event_type e.payload)

-- replayChatEvents, and buildTaskProjectionDocument of what it gives; `clock` is read as participants join.
unfoldable pub replay_chat_events : (Event → ℕ) → List Event → Result ProjectionError Chat
replay_chat_events clock es = let c = replay clock es in if is_empty c.id then err missing else ok c

unfoldable pub expected_document :
    (Event → ℕ) → List Event → Result ProjectionError (Option Document)
unfolding replay_chat_events
expected_document clock [] = err missing
expected_document clock (e ∷ es) = do
  c ← replay_chat_events clock (e ∷ es)
  build_task_projection_document c

module _ (es : EventStore) (tasks : TaskReadModel) where
  open es use {load_events}
  open tasks use {State, find, put, remove}

  -- The result of LoadEvents, as RebuildOne reads it.
  unfoldable pub loaded :
      Bool → Result StoreError (List Event) → Result ProjectionError (List Event)
  loaded true r = err load_failed
  loaded false (ok evs) = ok evs
  loaded false (err e) = err load_failed

  -- syncReadModel, for the document of the chat `id`
  unfoldable pub sync_read_model :
      Answers → Uuid → Option Document → State → Result ProjectionError State
  sync_read_model ans id none t = do fail_if ans.delete_fails database_failed; ok (remove t id)
  sync_read_model ans id (some d) t = do fail_if ans.update_fails database_failed; ok (put t id d)

  -- RebuildOne
  unfoldable pub rebuild_one :
      Answers → (Event → ℕ) → es.State → Uuid → State → Result ProjectionError State
  unfolding loaded sync_read_model
  rebuild_one ans clock s id t = do
    evs ← loaded ans.load_fails (load_events s id)
    d ← expected_document clock (filter_chat_events evs)
    sync_read_model ans id d t

  -- RebuildAll, for the chats that it lists: how many rebuilds failed, and the collection after them.
  unfoldable pub rebuild_all :
      (Uuid → Answers) → (Event → ℕ) → es.State → List Uuid → State → ℕ × State
  rebuild_all ans clock s [] t = (0, t)
  rebuild_all ans clock s (id ∷ ids) t = elim (rebuild_one (ans id) clock s id t) [
    | ok t' ↦ rebuild_all ans clock s ids t'
    | err e ↦ (let r = rebuild_all ans clock s ids t in (suc r.0, r.1))
  ]

  -- readModelAbsent
  unfoldable pub read_model_absent : Answers → Uuid → State → Result ProjectionError Bool
  read_model_absent ans id t = do
    fail_if ans.count_fails database_failed
    elim (find t id) [ none ↦ ok true | some d ↦ ok false ]

  -- The end of VerifyConsistency, by the document expected and the one that is there.
  unfoldable pub verified : Answers → Uuid → Option Document → State → Result ProjectionError Bool
  unfolding read_model_absent
  verified ans id none t = read_model_absent ans id t
  verified ans id (some d) t = do
    fail_if ans.find_fails database_failed
    elim (find t id) [ none ↦ ok false | some f ↦ ok (compare_task_projection_documents d f) ]

  -- VerifyConsistency after LoadEvents, by the events of the chat.
  unfoldable pub verify_events :
      Answers → (Event → ℕ) → Uuid → List Event → State → Result ProjectionError Bool
  unfolding verified read_model_absent
  verify_events ans clock id [] t = read_model_absent ans id t
  verify_events ans clock id (e ∷ evs) t = do
    d ← expected_document clock (e ∷ evs)
    verified ans id d t

  -- VerifyConsistency, by the result of LoadEvents.
  unfoldable pub verify_loaded :
      Answers
      → (Event → ℕ)
      → Uuid
      → Result StoreError (List Event)
      → State
      → Result ProjectionError Bool
  unfolding verify_events read_model_absent
  verify_loaded ans clock id (ok evs) t = verify_events ans clock id (filter_chat_events evs) t
  verify_loaded ans clock id (err aggregate_not_found) t = read_model_absent ans id t
  verify_loaded ans clock id (err concurrency_conflict) t = err load_failed

  -- VerifyConsistency
  unfoldable pub verify_consistency :
      Answers → (Event → ℕ) → es.State → Uuid → State → Result ProjectionError Bool
  unfolding verify_loaded
  verify_consistency ans clock s id t =
      if ans.load_fails then err load_failed else verify_loaded ans clock id (load_events s id) t

  -- ProcessEvent
  unfoldable pub process_event :
      (Text → Bool)
      → Answers
      → (Event → ℕ)
      → es.State
      → Event
      → State
      → Result ProjectionError State
  process_event is_uuid ans clock s e t =
      if not (is_chat_event e)
      then ok t
      else if not (is_uuid e.aggregate_id)
      then err invalid_chat_id
      else rebuild_one ans clock s e.aggregate_id t

  -- Handle: `queued` where there is a repair queue that takes the task. The aggregates to be repaired are listed newest
  -- first.
  unfoldable pub handle :
      (Text → Bool)
      → Answers
      → Bool
      → (Event → ℕ)
      → es.State
      → Event
      → State × List Uuid
      → Result ProjectionError (Unit {0}) × (State × List Uuid)
  handle is_uuid ans queued clock s e (t, repairs) =
      if not (should_process e)
      then (ok tt, (t, repairs))
      else elim (process_event is_uuid ans clock s e t) [
        | ok t' ↦ (ok tt, (t', repairs))
        | err why ↦ (err why, (t, if queued then e.aggregate_id ∷ repairs else repairs))
      ]
