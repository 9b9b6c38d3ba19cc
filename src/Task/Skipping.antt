-- ===== src/Task/Skipping.antt =====
-- Which changes of a chat do not reach its task (task_read_model_projection_handler.go).
use flowra.Base.{
  ok-eq, ℕ, Text, Uuid, same, contains, Bool, true, false, Option, none, some, List, [], ◌∷◌, ◌++◌,
  ◌≡◌, refl, sym, ap, ◌∙◌, Bool-cases, arith, ok, inl, inr, ◌<◌,
}
use flowra.Chat.Types.{
  Role, Payload, participant_added, participant_removed, Event, Chat, empty_chat,
}
use flowra.Chat.Apply.{replay, apply, apply_all, apply_payload}
use flowra.Chat.Replay.{apply_all-append}
use flowra.Store.Events.{EventStore}
use flowra.Task.Document.{Document, build_task_projection_document, document_of}
use flowra.Task.Projector.{
  TaskReadModel, Answers, event_type, is_chat_event, filter_chat_events, should_process,
  expected_document, verify_consistency, handle,
}
use flowra.Task.Projecting.{IsWell, expected_some, verified_iff, verify_consistency-events}

-- An event of the participants alone.
pub data IsAboutParticipants : Payload → Type 0 where
  added : (u : Uuid) (r : Role) (at : ℕ) → IsAboutParticipants (participant_added u r at)
  removed : (u : Uuid) → IsAboutParticipants (participant_removed u)

participants_skipped :
    (e : Event) (p : Payload) → e.payload ≡ p → IsAboutParticipants p → should_process e ≡ false
unfolding should_process contains same
participants_skipped e p h (added u r at) = rw (h, event_type) refl
participants_skipped e p h (removed u) = rw (h, event_type) refl

participants_seen :
    (e : Event) (p : Payload) → e.payload ≡ p → IsAboutParticipants p → is_chat_event e ≡ true
unfolding is_chat_event
participants_seen e p h (added u r at) = rw (h, event_type) refl
participants_seen e p h (removed u) = rw (h, event_type) refl

filter-snoc :
    (xs : List Event) (e : Event)
    → is_chat_event e ≡ true
    → filter_chat_events (xs ++ e ∷ []) ≡ filter_chat_events xs ++ e ∷ []
unfolding filter_chat_events
filter-snoc [] e h = ground arith
filter-snoc (x ∷ xs) e h = ground (arith, filter-snoc xs e h)

document-participants :
    (now : ℕ) (e : Event) (p : Payload) (c : Chat) (d : Document)
    → IsAboutParticipants p
    → build_task_projection_document c ≡ ok (some d)
    → build_task_projection_document (apply_payload now e p c)
      ≡ ok (some (record d { version = e.version }))
unfolding build_task_projection_document apply_payload document_of
document-participants now e p c d (added u r at) h = ground arith
document-participants now e p c d (removed u) h = ground arith

expected-participants :
    (clock clock' : Event → ℕ) (xs : List Event) (e : Event) (p : Payload) (d : Document)
    → e.payload ≡ p
    → IsAboutParticipants p
    → expected_document clock xs ≡ ok (some d)
    → expected_document clock (xs ++ e ∷ []) ≡ ok (some (record d { version = e.version }))
expected-participants clock clock' [] e p d k a h = unfold expected_document in cc
expected-participants clock clock' (x ∷ xs) e p d k a h =
    let c = replay clock (x ∷ xs) in
    let grown : replay clock ((x ∷ xs) ++ e ∷ []) ≡ apply_payload (clock e) e p c =
      unfold replay in
      (apply_all-append clock (x ∷ xs) (e ∷ []) empty_chat
        ∙ unfold apply_all in unfold apply in ap (λ q. apply_payload (clock e) e q c) k) in
    expected_some clock x (xs ++ e ∷ [])
    ∙ ap build_task_projection_document grown
    ∙ document-participants (clock e) e p c d a (sym (expected_some clock x xs) ∙ h)

abbrev version_of : Option Document → ℕ
version_of none = 0
version_of (some d) = d.version

module _ (es : EventStore) (tasks : TaskReadModel) where
  open es use {history, load_events, load_some}
  open tasks use {State, find}

  -- A change of the participants does not reach the task: where the read model agrees with the chat's events, and an event
  -- that a participant joined or left, with a later version, is appended to them and handled, nothing is
  -- written and no repair is queued, and VerifyConsistency gives false after it. The chat has a document, and the calls on the databases
  -- succeed.
  pub handle-participants :
      (is_uuid : Text → Bool) (ans : Answers) (queued : Bool) (clock : Event → ℕ) (s s' : es.State)
      (e : Event) (evs : List Event) (d : Document) (t : State) (repairs : List Uuid)
      → IsAboutParticipants e.payload
      → load_events s e.aggregate_id ≡ ok evs
      → load_events s' e.aggregate_id ≡ ok (evs ++ e ∷ [])
      → expected_document clock (filter_chat_events evs) ≡ ok (some d)
      → d.version < e.version
      → IsWell ans
      → verify_consistency es tasks ans clock s e.aggregate_id t ≡ ok true
      → (handle es tasks is_uuid ans queued clock s' e (t, repairs) ≡ (ok tt, (t, repairs)))
        × (verify_consistency es tasks ans clock s' e.aggregate_id t ≡ ok false)
  handle-participants is_uuid ans queued clock s s' e evs d t repairs a l l' x later w v =
      let d' : Document = record d { version = e.version } in
      let x' : expected_document clock (filter_chat_events (evs ++ e ∷ [])) ≡ ok (some d') =
        ap (expected_document clock) (filter-snoc evs e (participants_seen e e.payload refl a))
        ∙ expected-participants clock clock (filter_chat_events evs) e e.payload d refl a x in
      let (b, vb, iff) = verified_iff es tasks ans e.aggregate_id (some d) t w in
      let (b', vb', iff') = verified_iff es tasks ans e.aggregate_id (some d') t w in
      let same_b : b ≡ true = ok-eq (
        sym vb
        ∙ sym (
            verify_consistency-events es tasks ans clock s e.aggregate_id evs (some d) t w.loads l
              x)
        ∙ v) in
      let stale : b' ≡ false = elim (Bool-cases b') [
        | inl y ↦ absurd (omega (arith, later, ap version_of (sym (iff.0 same_b) ∙ iff'.0 y)))
        | inr n ↦ n
      ] in
      (
        unfold handle in rw (participants_skipped e e.payload refl a) refl,
        verify_consistency-events es tasks ans clock s' e.aggregate_id (evs ++ e ∷ []) (some d') t
              w.loads l' x'
            ∙ vb'
            ∙ ap (λ q. ok q) stale,
      )
