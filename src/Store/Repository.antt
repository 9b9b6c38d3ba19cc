-- ===== src/Store/Repository.antt =====
-- internal/infrastructure/repository/mongodb/chat_repository.go, MongoChatRepository: Load and Save over
-- any event store, and saveAggregate of internal/application/chat/helpers.go.
use flowra.Base.{
  ℕ, Uuid, is_empty, Bool, true, false, ◌&&◌, not, List, [], ◌∷◌, ◌++◌, ◌≡◌, refl, ap, ◌∙◌, ◌⊎◌,
  inl, inr, arith, Result, ok, err, ◌>>◌, fail_if, length, pos, sub_ℕ, if◌then◌else◌, keep,
}
use flowra.Errs.{
  Error, not_found, invalid_input, concurrent_modification, concurrent_update, failed,
}
use flowra.Chat.Types.{Event, Chat}
use flowra.Chat.Apply.{mark_events_as_committed, replay}
use flowra.Store.Events.{EventStore, StoreError, concurrency_conflict, aggregate_not_found}
use flowra.Store.ReadModel.{Mutation, build_mutation}

-- Which of the optional collaborators the repository was made with.
pub record Config : Type 0 where
  pub has_outbox : Bool
  pub has_event_bus : Bool
  pub has_repair_queue : Bool

-- What the database and the queues answer during one Save.
pub record Answers : Type 0 where
  pub read_model_updated : Bool
  pub repair_added : Bool
  pub outbox_added : Bool
  pub published : Event → Bool

module _ (es : EventStore) where
  open es use {State, history, save_events, load_events, get_version}

  -- The stores that a Save writes to. The updates of the read
  -- model and the repair tasks are listed newest first.
  pub record Repo : Type 0 where
    pub store : State
    pub updates : List Mutation
    pub repairs : List Uuid
    pub outbox : List Event
    pub bus : List Event

  -- The read model after the events of `c` are stored, and the repair queue where that failed.
  unfoldable pub with_read_model : Config → Answers → Chat → Repo → Repo
  with_read_model cfg ans c r =
      if not (is_empty c.id) && ans.read_model_updated
      then record r { updates = build_mutation c ∷ r.updates }
      else if cfg.has_repair_queue && ans.repair_added
      then record r { repairs = c.id ∷ r.repairs }
      else r

  -- The events handed on: to the outbox, or else to the event bus.
  unfoldable pub with_delivery : Config → Answers → List Event → Repo → Repo
  with_delivery cfg ans evs r =
      if cfg.has_outbox
      then (if ans.outbox_added then record r { outbox = r.outbox ++ evs } else r)
      else if cfg.has_event_bus
      then record r { bus = r.bus ++ keep ans.published evs }
      else r

  unfoldable pub stored :
      Config → Answers → Repo → Chat → Result StoreError State → Result Error (Repo × Chat)
  unfolding with_read_model with_delivery
  stored cfg ans r c (err concurrency_conflict) = err concurrent_modification
  stored cfg ans r c (err aggregate_not_found) = err failed
  stored cfg ans r c (ok t) = ok (
    with_delivery cfg ans c.uncommitted_events (with_read_model cfg ans c (record r { store = t })),
    mark_events_as_committed c,
  )

  -- Save, by the events that are to be saved.
  save_new : Config → Answers → Repo → Chat → List Event → Result Error (Repo × Chat)
  unfolding stored
  save_new cfg ans r c [] = ok (r, c)
  save_new cfg ans r c (e ∷ evs) =
      let expected = sub_ℕ c.version (length (e ∷ evs)) in
      stored cfg ans r c (save_events r.store c.id (e ∷ evs) expected)

  -- Save
  unfoldable pub save : Config → Answers → Repo → Chat → Result Error (Repo × Chat)
  unfolding save_new
  save cfg ans r c = save_new cfg ans r c c.uncommitted_events

  -- saveAggregate, by the events that are to be saved and the result of SaveEvents.
  aggregate_stored : Chat → Result StoreError State → Result Error (State × Chat)
  aggregate_stored c (ok t) = ok (t, mark_events_as_committed c)
  aggregate_stored c (err concurrency_conflict) = err concurrent_update
  aggregate_stored c (err aggregate_not_found) = err failed

  save_aggregate_new : State → Chat → Uuid → List Event → Result Error (State × Chat)
  unfolding aggregate_stored
  save_aggregate_new s c id [] = ok (s, c)
  save_aggregate_new s c id (e ∷ evs) =
      aggregate_stored c (save_events s id (e ∷ evs) (pos (get_version s id)))

  -- saveAggregate: the expected version is read from the store itself.
  unfoldable pub save_aggregate : State → Chat → Uuid → Result Error (State × Chat)
  unfolding save_aggregate_new
  save_aggregate s c id = save_aggregate_new s c id c.uncommitted_events

  -- The result of LoadEvents as Load reads it.
  restored : (Event → ℕ) → Result StoreError (List Event) → Result Error Chat
  restored clock (ok []) = err not_found
  restored clock (ok (e ∷ evs)) = ok (mark_events_as_committed (replay clock (e ∷ evs)))
  restored clock (err aggregate_not_found) = err not_found
  restored clock (err concurrency_conflict) = err failed

  -- Load
  unfoldable pub load : (Event → ℕ) → State → Uuid → Result Error Chat
  unfolding restored
  load clock s id = do fail_if (is_empty id) invalid_input; restored clock (load_events s id)

  -- Save, by what there is to save.
  pub save_none_lem :
      (cfg : Config) (ans : Answers) (r : Repo) (c : Chat)
      → c.uncommitted_events ≡ []
      → save cfg ans r c ≡ ok (r, mark_events_as_committed c)
  unfolding save
  save_none_lem cfg ans r c e =
      ap (save_new cfg ans r c) e ∙ (λ i. ok (r, record c { uncommitted_events = e i }))

  pub save_some_lem :
      (cfg : Config) (ans : Answers) (r : Repo) (c : Chat) (e : Event) (evs : List Event)
      → c.uncommitted_events ≡ e ∷ evs
      → save cfg ans r c
        ≡ stored cfg ans r c
            (save_events r.store c.id (e ∷ evs) (sub_ℕ c.version (length (e ∷ evs))))
  unfolding save
  save_some_lem cfg ans r c e evs h = ap (save_new cfg ans r c) h

  -- What an accepted save makes of the repository.
  abbrev pub accepted : Config → Answers → Repo → Chat → State → Repo
  accepted cfg ans r c t =
      with_delivery cfg ans c.uncommitted_events
        (with_read_model cfg ans c (record r { store = t }))

  pub stored_ok_lem :
      (cfg : Config) (ans : Answers) (r : Repo) (c : Chat) (t : State)
      → stored cfg ans r c (ok t) ≡ ok (accepted cfg ans r c t, mark_events_as_committed c)
  unfolding stored
  stored_ok_lem cfg ans r c t = refl

  pub store_accepted :
      (cfg : Config) (ans : Answers) (r : Repo) (c : Chat) (t : State)
      → (accepted cfg ans r c t).store ≡ t
  unfolding with_read_model with_delivery
  store_accepted cfg ans r c t = ground arith

  pub save_aggregate_some_lem :
      (s : State) (c : Chat) (id : Uuid) (e : Event) (evs : List Event) {t : State}
      → c.uncommitted_events ≡ e ∷ evs
      → save_events s id (e ∷ evs) (pos (get_version s id)) ≡ ok t
      → save_aggregate s c id ≡ ok (t, mark_events_as_committed c)
  unfolding save_aggregate
  save_aggregate_some_lem s c id e evs h k =
      ap (save_aggregate_new s c id) h ∙ ap (aggregate_stored c) k

  pub load_some_chat :
      (clock : Event → ℕ) (s : State) (id : Uuid) (e : Event) (evs : List Event)
      → is_empty id ≡ false
      → load_events s id ≡ ok (e ∷ evs)
      → load clock s id ≡ ok (mark_events_as_committed (replay clock (e ∷ evs)))
  unfolding load
  load_some_chat clock s id e evs h k = rw (h, k) refl

  pub load_none_chat :
      (clock : Event → ℕ) (s : State) (id : Uuid)
      → is_empty id ≡ false
      → (load_events s id ≡ err aggregate_not_found) ⊎ (load_events s id ≡ ok [])
      → load clock s id ≡ err not_found
  unfolding load
  load_none_chat clock s id h (inl k) = rw (h, k) refl
  load_none_chat clock s id h (inr k) = rw (h, k) refl

  pub load_empty_lem :
      (clock : Event → ℕ) (s : State) (id : Uuid)
      → is_empty id ≡ true
      → load clock s id ≡ err invalid_input
  unfolding load
  load_empty_lem clock s id h = rw h refl
