-- ===== src/Task/Handling.antt =====
-- Which changes of a chat reach its task (task_read_model_projection_handler.go).
use mathlib.Core.Option
use mathlib.Core.Path.{subst}
use flowra.Base.{
  ℕ, Text, Uuid, same, same_refl, is_empty, contains, contains-mem, Among, Bool, true, false,
  Option, none, some, List, [], ◌∷◌, ◌++◌, ◌≡◌, ◌≢◌, refl, sym, ap, ◌∙◌, arith, if◌then◌else◌, ok,
}
use flowra.Chat.Types.{Payload, unknown_event, Event, Chat}
use flowra.Chat.Apply.{mark_events_as_committed, replay}
use flowra.Store.Events.{EventStore}
use flowra.Store.Histories.{Tracks, Tracks-forget}
use flowra.Store.RoundTrip.{replay-clock}
use flowra.Store.Saving.{save_accepted}
use flowra.Store.Repository
use flowra.Store.Repository.{Config, Repo, save}
use flowra.Task.Document.{Document, build_task_projection_document}
use flowra.Task.Projector.{
  rounded, TaskReadModel, Answers, event_type, is_chat_event, filter_chat_events, should_process,
  expected_document, loaded, sync_read_model, rebuild_one, process_event, handle,
  task_read_model_projection_event_types,
}
use flowra.Task.Projecting.{IsWell, expected_some, build-forget, sync_read_model-find}

Among-is_chat_event :
    (e : Event) (name : Text)
    → e.payload ≡ unknown_event name
    → Among task_read_model_projection_event_types name
    → is_chat_event e ≡ true
unfolding is_chat_event
Among-is_chat_event e name h m = ground arith

should_process-chat :
    (e : Event) (p : Payload) → e.payload ≡ p → should_process e ≡ true → is_chat_event e ≡ true
unfolding should_process is_chat_event
should_process-chat e (unknown_event name) h k = Among-is_chat_event e name h (
    contains-mem task_read_model_projection_event_types name
      (subst (λ q. contains task_read_model_projection_event_types (event_type q) ≡ true) h k))
should_process-chat e p h k = rw (h, event_type) refl

built_id :
    (c : Chat) (d : Option Document)
    → build_task_projection_document c ≡ ok d
    → is_empty c.id ≡ false
unfolding build_task_projection_document
built_id c d h = ground arith

module _ (es : EventStore) (tasks : TaskReadModel) where
  open es use {history, load_events, load_some}
  open tasks use {State, find}

  handle-rebuilt :
      (is_uuid : Text → Bool) (ans : Answers) (queued : Bool) (clock : Event → ℕ) (s : es.State)
      (e : Event) (t t' : State) (repairs : List Uuid)
      → should_process e ≡ true
      → is_uuid e.aggregate_id ≡ true
      → rebuild_one es tasks ans clock s e.aggregate_id t ≡ ok t'
      → handle es tasks is_uuid ans queued clock s e (t, repairs) ≡ (ok tt, (t', repairs))
  unfolding handle process_event
  handle-rebuilt is_uuid ans queued clock s e t t' repairs p u h =
      rw (p, should_process-chat e e.payload refl p, u, h) refl

  rebuild_one-put :
      (ans : Answers) (clock : Event → ℕ) (s : es.State) (id : Uuid) (evs : List Event)
      (d : Option Document) (t : State)
      → IsWell ans
      → load_events s id ≡ ok evs
      → expected_document clock (filter_chat_events evs) ≡ ok d
      → (t' : State) × (rebuild_one es tasks ans clock s id t ≡ ok t')
        × (sync_read_model es tasks ans id d t ≡ ok t')
  unfolding rebuild_one sync_read_model loaded
  rebuild_one-put ans clock s id evs none t w l e = (tasks.remove t id, ground arith, ground arith)
  rebuild_one-put ans clock s id evs (some d) t w l e =
      (tasks.put t id d, ground arith, ground arith)

  loaded-expected :
      (clock : Event → ℕ) (s : es.State) (id : Uuid) (evs : List Event) (d : Option Document)
      → evs ≢ []
      → history s id ≡ evs
      → build_task_projection_document (replay clock evs) ≡ ok d
      → (load_events s id ≡ ok evs) × (expected_document clock evs ≡ ok d)
  loaded-expected clock s id [] d n h b = absurd (n refl)
  loaded-expected clock s id (x ∷ xs) d n h b =
      (load_some s id x xs h, expected_some clock x xs ∙ b)

  -- A saved change reaches the task: the save of a chat that tracks its history is accepted, and once one of the chat's
  -- events of the listed types is handled after it, tasks_read_model has for the chat what is built from the saved chat,
  -- at the precision of the database, or nothing where nothing is built (a discussion, a deleted chat), and all other
  -- documents as before; no repair is queued. The events of the history are of types that begin with "chat.", the
  -- identity is a UUID, and the calls on the databases succeed.
  pub handle-save :
      (is_uuid : Text → Bool) (cfg : Config) (saving : Repository.Answers) (r : Repo es) (c : Chat)
      (ans : Answers) (queued : Bool) (clock clock' : Event → ℕ) (e : Event) (d : Option Document)
      (t : State) (repairs : List Uuid)
      → Tracks clock (history r.store c.id) c
      → history r.store c.id ++ c.uncommitted_events ≢ []
      → filter_chat_events (history r.store c.id ++ c.uncommitted_events)
        ≡ history r.store c.id ++ c.uncommitted_events
      → build_task_projection_document c ≡ ok d
      → e.aggregate_id ≡ c.id
      → is_uuid c.id ≡ true
      → should_process e ≡ true
      → IsWell ans
      → (r' : Repo es) × (t' : State) × (save es cfg saving r c
          ≡ ok (r', mark_events_as_committed c))
        × (handle es tasks is_uuid ans queued clock' r'.store e (t, repairs)
            ≡ (ok tt, (t', repairs)))
        × ((j : Uuid)
            → find t' j ≡ (if same c.id j then Option.map (rounded tasks.round) d else find t j))
  handle-save is_uuid cfg saving r c ans queued clock clock' e d t repairs tr ne known b at u p w =
      let hist = history r.store c.id ++ c.uncommitted_events in
      let (r', sv, app) = save_accepted es cfg saving r c tr.numbering in
      let now : history r'.store c.id ≡ hist = ground (arith, app c.id, same_refl c.id) in
      let restored =
        sym (build-forget (replay clock' hist))
        ∙ ap build_task_projection_document
            (replay-clock clock' clock hist ∙ sym (Tracks-forget clock (history r.store c.id) c tr))
        ∙ build-forget c
        ∙ b in
      let (l, x) = loaded-expected clock' r'.store c.id hist d ne now restored in
      let docs = ap (expected_document clock') known ∙ x in
      let (t', rb, sy) = rebuild_one-put ans clock' r'.store c.id hist d t w l docs in
      (
        r',
        t',
        sv,
        handle-rebuilt is_uuid ans queued clock' r'.store e t t' repairs p (ap is_uuid at ∙ u)
            (ap (λ i. rebuild_one es tasks ans clock' r'.store i t) at ∙ rb),
        sync_read_model-find es tasks ans c.id d t t' sy,
      )
