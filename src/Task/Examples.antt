-- ===== src/Task/Examples.antt =====
-- The theorems on the read model of the tasks, at the in-memory event store and a read model that is a function.
use mathlib.Core.Option
use mathlib.Core.Path.{subst}
use flowra.Base.{
  ℕ, ◌<◌, ◌/◌, ◌*◌, Text, Uuid, text, same, contains, Bool, true, false, Option, none, some, List,
  [], ◌∷◌, ◌++◌, ◌≡◌, ◌↔◌, refl, arith, if◌then◌else◌, ok,
}
use flowra.Chat.Types.{Event, task, member, participant_added, type_changed, no_metadata}
use flowra.Chat.Apply.{apply_event, replay, mark_events_as_committed}
use flowra.Chat.Methods.{new_chat, raise}
use flowra.Chat.Invariant.{IsValid, run-new_chat-IsValid}
use flowra.Chat.Lifecycle.{run}
use flowra.Chat.Examples.{an_env, a_chat, made-a_chat}
use flowra.Store.InMemory.{in_memory, put, save_events, load_events}
use flowra.Store.Repository.{Repo, save}
use flowra.Store.Examples.{
  a_config, all_well, empty_repo, one_chat, a_clock, a_chat-Tracks, a_chat-to_store,
}
use flowra.Task.Document.{
  Document, document_of, build_task_projection_document, map_chat_type, task_entity,
  compare_task_projection_documents, equal_entity_type, equal_status, normalize_task_status,
  equal_priority, normalize_task_priority, equal_string, equal_time, equal_attachments,
}
use flowra.Task.Projector.{
  rounded, TaskReadModel, Answers, is_chat_event, filter_chat_events, should_process,
  expected_document, event_type, rebuild_one, verify_consistency, handle,
}
use flowra.Task.Projecting.{IsWell, rebuild_one-verify_consistency}
use flowra.Task.Handling.{handle-save}
use flowra.Task.Skipping.{added, handle-participants}
use flowra.Task.Statuses.{IsFaithful, build-IsFaithful}

-- Times in microseconds, kept by the database in milliseconds.
abbrev to_millis : ℕ → ℕ
to_millis n = n / 1000 * 1000

abbrev a_read_model : TaskReadModel
a_read_model = record {
  State = Text → Option Document;
  round = to_millis;
  find = λ t k. t k;
  put = λ t k d j. if same k j then some (rounded to_millis d) else t j;
  remove = λ t k j. if same k j then none else t j;
  find-put = λ t k j d. refl;
  find-remove = λ t k j. refl;
}

abbrev well : Answers
well = record {
  load_fails = false;
  update_fails = false;
  delete_fails = false;
  count_fails = false;
  find_fails = false;
}

well-IsWell : IsWell well
well-IsWell = record { loads = refl; updates = refl; deletes = refl; counts = refl; finds = refl }

abbrev no_tasks : Text → Option Document
no_tasks k = none

abbrev a_document : Document
a_document = document_of task_entity a_chat

a_chat-document : build_task_projection_document a_chat ≡ ok (some a_document)
unfolding build_task_projection_document new_chat raise apply_event map_chat_type
a_chat-document = refl

build-IsFaithful_example : IsFaithful a_chat a_document
build-IsFaithful_example =
    build-IsFaithful a_chat a_document
      (subst IsValid ran
        (run-new_chat-IsValid an_env an_env (text "w1") task true (text "ann") [] made-a_chat))
      a_chat-document
  where
    ran : run [] a_chat ≡ a_chat
    ran = unfold run in refl

abbrev c1_events : List Event
c1_events = in_memory.history one_chat.store (text "c1")

-- The event that bob joined the chat "c1".
abbrev bob_joined : Event
bob_joined = record {
  aggregate_id = text "c1";
  version = 3;
  occurred_at = 20;
  metadata = no_metadata;
  payload = participant_added (text "bob") member 20;
}

abbrev with_bob : in_memory.State
with_bob = put one_chat.store (text "c1") (c1_events ++ bob_joined ∷ [])

abbrev c1_tasks : Text → Option Document
c1_tasks = a_read_model.put no_tasks (text "c1") a_document

c1_rebuilt :
    rebuild_one in_memory a_read_model well a_clock one_chat.store (text "c1") no_tasks
    ≡ ok c1_tasks
unfolding rebuild_one load_events save new_chat raise save_events same expected_document
    filter_chat_events is_chat_event replay build_task_projection_document map_chat_type document_of
c1_rebuilt = refl

rebuild_one-verify_consistency_example :
    (evs : List Event) × (d : Option Document) × (b : Bool) × (in_memory.load_events one_chat.store
        (text "c1")
      ≡ ok evs)
    × (expected_document a_clock (filter_chat_events evs) ≡ ok d)
    × ((j : Uuid)
        → c1_tasks j
          ≡ (if same (text "c1") j then Option.map (rounded to_millis) d else no_tasks j))
    × (verify_consistency in_memory a_read_model well a_clock one_chat.store (text "c1") c1_tasks
        ≡ ok b)
    × ((b ≡ true) ↔ (Option.map (rounded to_millis) d ≡ d))
rebuild_one-verify_consistency_example =
    rebuild_one-verify_consistency in_memory a_read_model well well a_clock a_clock one_chat.store
      (text "c1") no_tasks c1_tasks c1_rebuilt well-IsWell

-- The chat is a task now.
abbrev typed_event : Event
typed_event = record bob_joined { payload = type_changed task task (text "Plan") }

c1_known :
    let hist = in_memory.history empty_repo.store a_chat.id ++ a_chat.uncommitted_events in
    filter_chat_events hist ≡ hist
unfolding rebuild_one load_events save new_chat raise save_events same expected_document
    filter_chat_events is_chat_event replay build_task_projection_document map_chat_type document_of
c1_known = refl

a_chat-named : typed_event.aggregate_id ≡ a_chat.id
unfolding rebuild_one load_events save new_chat raise save_events same expected_document
    filter_chat_events is_chat_event replay build_task_projection_document map_chat_type document_of
a_chat-named = refl

typed_event-listed : should_process typed_event ≡ true
unfolding should_process contains same event_type
typed_event-listed = refl

handle-save_example :
    (r' : Repo in_memory) × (t' : Text → Option Document) × (save in_memory a_config all_well
        empty_repo a_chat
      ≡ ok (r', mark_events_as_committed a_chat))
    × (handle in_memory a_read_model
          (λ k. true)
          well
          true
          a_clock
          r'.store
          typed_event
          (no_tasks, [])
        ≡ (ok tt, (t', [])))
    × ((j : Uuid)
        → t' j ≡ (
            if same a_chat.id j
            then Option.map (rounded to_millis) (some a_document)
            else no_tasks j))
handle-save_example =
    handle-save in_memory a_read_model (λ k. true) a_config all_well empty_repo a_chat well true
      a_clock a_clock typed_event (some a_document) no_tasks [] a_chat-Tracks a_chat-to_store
      c1_known a_chat-document a_chat-named refl typed_event-listed well-IsWell

-- A read model that has the chat's document with its times in full.
abbrev exact_tasks : Text → Option Document
exact_tasks k = if same (text "c1") k then some a_document else none

c1_loaded : in_memory.load_events one_chat.store (text "c1") ≡ ok c1_events
unfolding rebuild_one load_events save new_chat raise save_events same expected_document
    filter_chat_events is_chat_event replay build_task_projection_document map_chat_type document_of
c1_loaded = refl

bob_loaded : in_memory.load_events with_bob (text "c1") ≡ ok (c1_events ++ bob_joined ∷ [])
unfolding rebuild_one load_events save new_chat raise save_events same expected_document
    filter_chat_events is_chat_event replay build_task_projection_document map_chat_type document_of
    put
bob_loaded = refl

c1_expected : expected_document a_clock (filter_chat_events c1_events) ≡ ok (some a_document)
unfolding rebuild_one load_events save new_chat raise save_events same expected_document
    filter_chat_events is_chat_event replay build_task_projection_document map_chat_type document_of
c1_expected = refl

c1_version : a_document.version < 3
unfolding rebuild_one load_events save new_chat raise save_events same expected_document
    filter_chat_events is_chat_event replay build_task_projection_document map_chat_type document_of
c1_version = omega arith

c1_verified :
    verify_consistency in_memory a_read_model well a_clock one_chat.store (text "c1") exact_tasks
    ≡ ok true
unfolding rebuild_one load_events save new_chat raise save_events same expected_document
    filter_chat_events is_chat_event replay build_task_projection_document map_chat_type document_of
    verify_consistency compare_task_projection_documents equal_entity_type equal_status
    normalize_task_status equal_priority normalize_task_priority equal_string equal_time
    equal_attachments
c1_verified = refl

handle-participants_example :
    (handle in_memory a_read_model
        (λ k. true)
        well
        true
        a_clock
        with_bob
        bob_joined
        (exact_tasks, [])
      ≡ (ok tt, (exact_tasks, [])))
    × (verify_consistency in_memory a_read_model well a_clock with_bob (text "c1") exact_tasks
        ≡ ok false)
handle-participants_example =
    handle-participants in_memory a_read_model (λ k. true) well true a_clock one_chat.store with_bob
      bob_joined c1_events a_document exact_tasks [] (added (text "bob") member 20) c1_loaded
      bob_loaded c1_expected c1_version well-IsWell c1_verified
