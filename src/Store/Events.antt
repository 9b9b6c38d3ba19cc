-- ===== src/Store/Events.antt =====
-- The interface internal/application/appcore/eventstore.go, with the behaviour that its users rely on.
use flowra.Base.{
  ℕ, Uuid, same, true, false, List, [], ◌∷◌, ◌++◌, ◌≡◌, ◌⊎◌, Result, ok, err, length, ℤ, equals_ℕ,
  if◌then◌else◌,
}
use flowra.Chat.Types.{Event}
use flowra.Chat.Versions.{Numbered}

-- ErrConcurrencyConflict and ErrAggregateNotFound
pub data StoreError : Type 0 where
  concurrency_conflict aggregate_not_found : StoreError

-- `history s id` is the list of the events saved under `id`, oldest first. A save whose expected version
-- is not the number of saved events is refused; any other appends its events to the one history, where the versions of
-- the events follow that number one by one. The MongoDB store writes these versions whatever the events say, so
-- nothing is relied on for other events.
pub record EventStore : Type 1 where
  pub State : Type 0
  pub history : State → Uuid → List Event
  pub save_events : State → Uuid → List Event → ℤ → Result StoreError State
  pub load_events : State → Uuid → Result StoreError (List Event)
  pub get_version : State → Uuid → ℕ
  pub load_some :
      (s : State) (id : Uuid) (e : Event) (es : List Event)
      → history s id ≡ e ∷ es
      → load_events s id ≡ ok (e ∷ es)
  pub load_none :
      (s : State) (id : Uuid)
      → history s id ≡ []
      → (load_events s id ≡ err aggregate_not_found) ⊎ (load_events s id ≡ ok [])
  pub version_history : (s : State) (id : Uuid) → get_version s id ≡ length (history s id)
  pub save_stale :
      (s : State) (id : Uuid) (e : Event) (es : List Event) (expected : ℤ)
      → equals_ℕ expected (length (history s id)) ≡ false
      → save_events s id (e ∷ es) expected ≡ err concurrency_conflict
  pub save_current :
      (s : State) (id : Uuid) (es : List Event) (expected : ℤ)
      → equals_ℕ expected (length (history s id)) ≡ true
      → Numbered id (length (history s id)) es
      → (t : State) × (save_events s id es expected ≡ ok t)
        × ((j : Uuid) → history t j ≡ (if same id j then history s id ++ es else history s j))
