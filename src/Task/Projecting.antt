-- ===== src/Task/Projecting.antt =====
-- What the projector of the tasks writes and how it verifies it (chat_to_task_read_model_projector.go), and which events
-- reach it (task_read_model_projection_handler.go).
use mathlib.Core.Option
use flowra.Base.{
  ℕ, Uuid, same, same_refl, Bool, true, false, Option, none, some, List, [], ◌∷◌, ◌≡◌, ◌↔◌, refl,
  sym, ap, ◌∙◌, arith, if◌then◌else◌, Result, ok, err, chain_ok, Option-cases, inl, inr,
}
use flowra.Chat.Types.{Event, Chat}
use flowra.Chat.Apply.{replay}
use flowra.Chat.Replay.{forget}
use flowra.Store.Events.{EventStore, StoreError}
use flowra.Store.RoundTrip.{replay-clock}
use flowra.Task.Document.{
  Document, build_task_projection_document, document_of, compare_task_projection_documents,
}
use flowra.Task.Comparing.{compare-eq, compare_refl}
use flowra.Task.Projector.{
  rounded, TaskReadModel, Answers, filter_chat_events, expected_document, loaded, sync_read_model,
  rebuild_one, read_model_absent, verified, verify_events, verify_loaded, verify_consistency,
}

-- No call on the databases fails.
pub record IsWell (ans : Answers) : Type 0 where
  pub loads : ans.load_fails ≡ false
  pub updates : ans.update_fails ≡ false
  pub deletes : ans.delete_fails ≡ false
  pub counts : ans.count_fails ≡ false
  pub finds : ans.find_fails ≡ false

pub build-forget :
    (c : Chat) → build_task_projection_document (forget c) ≡ build_task_projection_document c
unfolding build_task_projection_document document_of
build-forget c = refl

pub expected_some :
    (clock : Event → ℕ) (e : Event) (es : List Event)
    → expected_document clock (e ∷ es) ≡ build_task_projection_document (replay clock (e ∷ es))
unfolding expected_document build_task_projection_document
expected_some clock e es = ground arith

-- The document does not depend on when participants joined.
pub expected_document-clock :
    (clock clock' : Event → ℕ) (es : List Event)
    → expected_document clock es ≡ expected_document clock' es
expected_document-clock clock clock' [] = unfold expected_document in refl
expected_document-clock clock clock' (e ∷ es) =
    expected_some clock e es
    ∙ sym (build-forget (replay clock (e ∷ es)))
    ∙ ap build_task_projection_document (replay-clock clock clock' (e ∷ es))
    ∙ build-forget (replay clock' (e ∷ es))
    ∙ sym (expected_some clock' e es)

module _ (es : EventStore) (tasks : TaskReadModel) where
  open es use {history, load_events}
  open tasks use {State, find, put, remove, find-put, find-remove}

  loaded-ok :
      (b : Bool) (r : Result StoreError (List Event)) (evs : List Event)
      → loaded es tasks b r ≡ ok evs
      → (b ≡ false) × (r ≡ ok evs)
  unfolding loaded
  loaded-ok true r evs h = cc
  loaded-ok false (ok x) evs h = (refl, ground arith)
  loaded-ok false (err e) evs h = cc

  -- RebuildOne, by its parts.
  rebuild_one-steps :
      (ans : Answers) (clock : Event → ℕ) (s : es.State) (id : Uuid) (t t' : State)
      → rebuild_one es tasks ans clock s id t ≡ ok t'
      → (evs : List Event) × (d : Option Document) × (load_events s id ≡ ok evs)
        × (ans.load_fails ≡ false)
        × (expected_document clock (filter_chat_events evs) ≡ ok d)
        × (sync_read_model es tasks ans id d t ≡ ok t')
  unfolding rebuild_one
  rebuild_one-steps ans clock s id t t' h =
      let (evs, rest, l) = chain_ok (loaded es tasks ans.load_fails (load_events s id)) _ h in
      let (d, synced, e) = chain_ok (expected_document clock (filter_chat_events evs)) _ rest in
      let (well, same_events) = loaded-ok ans.load_fails (load_events s id) evs l in
      (evs, d, same_events, well, e, synced)

  pub sync_read_model-find :
      (ans : Answers) (id : Uuid) (d : Option Document) (t t' : State)
      → sync_read_model es tasks ans id d t ≡ ok t'
      → (j : Uuid)
      → find t' j ≡ (if same id j then Option.map (rounded tasks.round) d else find t j)
  unfolding sync_read_model
  sync_read_model-find ans id none t t' h j = ground (arith, find-remove t id j)
  sync_read_model-find ans id (some d) t t' h j = ground (arith, find-put t id j d)

  pub verified_iff :
      (ans : Answers) (id : Uuid) (d : Option Document) (t : State)
      → IsWell ans
      → (b : Bool) × (verified es tasks ans id d t ≡ ok b) × ((b ≡ true) ↔ (find t id ≡ d))
  unfolding verified read_model_absent
  verified_iff ans id none t w = elim (Option-cases (find t id)) [
    | inl n ↦ (true, ground arith, (λ _. n, λ _. refl))
    | inr (f, k) ↦ (false, ground arith, (λ h. cc, λ h. cc))
  ]
  verified_iff ans id (some d) t w = elim (Option-cases (find t id)) [
    | inl n ↦ (false, ground arith, (λ h. cc, λ h. cc))
    | inr (f, k) ↦ (
      compare_task_projection_documents d f,
      ground arith,
      (λ h. k ∙ ap (λ x. some x) (sym (compare-eq d f h)), λ h. ground (arith, compare_refl d)),
    )
  ]

  pub verify_consistency-events :
      (ans : Answers) (clock : Event → ℕ) (s : es.State) (id : Uuid) (evs : List Event)
      (d : Option Document) (t : State)
      → ans.load_fails ≡ false
      → load_events s id ≡ ok evs
      → expected_document clock (filter_chat_events evs) ≡ ok d
      → verify_consistency es tasks ans clock s id t ≡ verified es tasks ans id d t
  unfolding verify_consistency
  verify_consistency-events ans clock s id evs d t well l e =
      rw (well, l, verify_loaded) (verify_events_lem (filter_chat_events evs) e)
    where
      verify_events_lem :
          (fs : List Event)
          → expected_document clock fs ≡ ok d
          → verify_events es tasks ans clock id fs t ≡ verified es tasks ans id d t
      verify_events_lem [] h = unfold expected_document in cc
      verify_events_lem (f ∷ fs) h = unfold verify_events in rw h

  -- A rebuild that succeeds puts what the chat's events give into the read model, at the precision of the database, and
  -- leaves the other documents alone; a verification after it, whose calls succeed, gives true exactly where what the
  -- events give has the precision of the database already.
  pub rebuild_one-verify_consistency :
      (ans ans' : Answers) (clock clock' : Event → ℕ) (s : es.State) (id : Uuid) (t t' : State)
      → rebuild_one es tasks ans clock s id t ≡ ok t'
      → IsWell ans'
      → (evs : List Event) × (d : Option Document) × (b : Bool) × (load_events s id ≡ ok evs)
        × (expected_document clock (filter_chat_events evs) ≡ ok d)
        × ((j : Uuid)
            → find t' j ≡ (if same id j then Option.map (rounded tasks.round) d else find t j))
        × (verify_consistency es tasks ans' clock' s id t' ≡ ok b)
        × ((b ≡ true) ↔ (Option.map (rounded tasks.round) d ≡ d))
  rebuild_one-verify_consistency ans ans' clock clock' s id t t' h w =
      let (evs, d, l, _, e, synced) = rebuild_one-steps ans clock s id t t' h in
      let found = sync_read_model-find ans id d t t' synced in
      let here : find t' id ≡ Option.map (rounded tasks.round) d =
        ground (arith, found id, same_refl id) in
      let (b, v, iff) = verified_iff ans' id d t' w in
      let e' = expected_document-clock clock' clock (filter_chat_events evs) ∙ e in
      (
        evs,
        d,
        b,
        l,
        e,
        found,
        verify_consistency-events ans' clock' s id evs d t' w.loads l e' ∙ v,
        (λ k. sym here ∙ iff.0 k, λ k. iff.1 (here ∙ k)),
      )
