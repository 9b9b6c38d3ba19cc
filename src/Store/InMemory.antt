-- ===== src/Store/InMemory.antt =====
-- internal/infrastructure/eventstore/inmemory.go. The map from aggregates to events is an association
-- list; each method holds the mutex throughout, so it is one step.
use flowra.Base.{
  ℕ, Uuid, same, same_iff, true, false, not, Option, none, some, List, [], ◌∷◌, ◌++◌, map, ◌≡◌,
  refl, arith, Result, ok, err, length, ℤ, equals_ℕ, if◌then◌else◌, Option-cases, ◌⊎◌, inl, inr,
}
use mathlib.Core.List.{append-nil}
use flowra.Chat.Types.{Event}
use flowra.Store.Events.{StoreError, concurrency_conflict, aggregate_not_found, EventStore}

abbrev pub Store : Type 0
Store = List (Uuid × List Event)

-- NewInMemoryEventStore, and Clear
abbrev pub new_store : Store
new_store = []

-- `s.events[id]` with its second result
unfoldable pub find : Store → Uuid → Option (List Event)
find [] id = none
find ((k, es) ∷ s) id = if same k id then some es else find s id

-- `s.events[id] = es`
unfoldable pub put : Store → Uuid → List Event → Store
put [] id es = (id, es) ∷ []
put ((k, old) ∷ s) id es = if same k id then (k, es) ∷ s else (k, old) ∷ put s id es

abbrev pub or_empty : Option (List Event) → List Event
or_empty none = []
or_empty (some es) = es

-- SaveEvents
unfoldable pub save_events : Store → Uuid → List Event → ℤ → Result StoreError Store
unfolding find put
save_events s id [] expected = ok s
save_events s id (e ∷ es) expected =
    if not (equals_ℕ expected (length (or_empty (find s id))))
    then err concurrency_conflict
    else ok (put s id (or_empty (find s id) ++ e ∷ es))

-- LoadEvents
unfoldable pub load_events : Store → Uuid → Result StoreError (List Event)
unfolding find
load_events s id = elim (find s id) [ none ↦ err aggregate_not_found | some es ↦ ok es ]

-- GetVersion
unfoldable pub get_version : Store → Uuid → ℕ
unfolding find
get_version s id = elim (find s id) [ none ↦ 0 | some es ↦ length es ]

-- GetAllAggregateIDs
pub get_all_aggregate_ids : Store → List Uuid
get_all_aggregate_ids s = map (λ (e : Uuid × List Event). e.0) s

find-put :
    (s : Store) (id j : Uuid) (es : List Event)
    → find (put s id es) j ≡ (if same id j then some es else find s j)
unfolding find put
find-put [] id j es = refl
find-put ((k, old) ∷ s) id j es =
    ground (arith, find-put s id j es, same_iff k id, same_iff k j, same_iff id j)

pub load_some_lem :
    (s : Store) (id : Uuid) (e : Event) (es : List Event)
    → or_empty (find s id) ≡ e ∷ es
    → load_events s id ≡ ok (e ∷ es)
unfolding load_events
load_some_lem s id e es h = ground arith

pub load_none_lem :
    (s : Store) (id : Uuid)
    → or_empty (find s id) ≡ []
    → (load_events s id ≡ err aggregate_not_found) ⊎ (load_events s id ≡ ok [])
unfolding load_events
load_none_lem s id h = elim (Option-cases (find s id)) [
  | inl n ↦ inl (rw (n, load_events))
  | inr (es, k) ↦ inr (ground arith)
]

pub version_lem : (s : Store) (id : Uuid) → get_version s id ≡ length (or_empty (find s id))
unfolding get_version
version_lem s id = ground arith

pub save_stale_lem :
    (s : Store) (id : Uuid) (e : Event) (es : List Event) (expected : ℤ)
    → equals_ℕ expected (length (or_empty (find s id))) ≡ false
    → save_events s id (e ∷ es) expected ≡ err concurrency_conflict
unfolding save_events
save_stale_lem s id e es expected h = rw h

-- SaveEvents with the number of the saved events as expected version is accepted: it appends the new
-- events to the history of its aggregate and leaves every other history as it was.
pub save_current_lem :
    (s : Store) (id : Uuid) (es : List Event) (expected : ℤ)
    → equals_ℕ expected (length (or_empty (find s id))) ≡ true
    → (t : Store) × (save_events s id es expected ≡ ok t)
      × ((j : Uuid)
          → or_empty (find t j)
            ≡ (if same id j then or_empty (find s id) ++ es else or_empty (find s j)))
unfolding save_events
save_current_lem s id [] expected h =
    (s, refl, λ j. ground (arith, same_iff id j, append-nil (or_empty (find s id))))
save_current_lem s id (e ∷ es) expected h = (
  put s id (or_empty (find s id) ++ e ∷ es),
  rw h,
  λ j. ground (arith, find-put s id j (or_empty (find s id) ++ e ∷ es)),
)

-- The in-memory store keeps the promises of the interface.
abbrev pub in_memory : EventStore
in_memory = record {
  State = Store;
  history = λ s id. or_empty (find s id);
  save_events = save_events;
  load_events = load_events;
  get_version = get_version;
  load_some = load_some_lem;
  load_none = load_none_lem;
  version_history = version_lem;
  save_stale = save_stale_lem;
  save_current = λ s id es expected h n. save_current_lem s id es expected h;
}
