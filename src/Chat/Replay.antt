-- ===== src/Chat/Replay.antt =====
-- Event sourcing: a chat is what its events make of it. `forget` drops the two things that events do
-- not determine: the joining times, which NewParticipant reads off the clock whenever an event is
-- applied, and the list of events that are still to be saved.
use mathlib.Core.List.{map-append}
use flowra.Base.{ℕ, Uuid, Bool, List, [], ◌∷◌, ◌++◌, map, ◌≡◌, refl, sym, ap, ◌∙◌, arith, ok}
use mathlib.Core.Path.{◌≡⟨◌⟩◌, ◌∎}
use flowra.Chat.Types.{
  ChatType, Participant, Metadata, no_metadata, admin, Payload, participant_added,
  participant_removed, Event, Chat, empty_chat, Env,
}
use flowra.Chat.Apply.{without_participant, apply_payload, apply, apply_event, apply_all, replay}
use flowra.Chat.Methods.{raise, new_chat, created_event}
use flowra.Chat.Lifecycle.{Call, run}
use flowra.Chat.Steps.{run_cases}

abbrev pub forget_joined : Participant → Participant
forget_joined p = record p { joined_at = 0 }

abbrev pub forget : Chat → Chat
forget c = record c { participants = map forget_joined c.participants; uncommitted_events = [] }

without-forget :
    (ps : List Participant) (u : Uuid)
    → map forget_joined (without_participant ps u) ≡ without_participant (map forget_joined ps) u
without-forget [] u = refl
without-forget (p ∷ ps) u = ground (arith, without-forget ps u)

-- `forget` commutes with the events, applied at time 0 behind it.
forget-payload :
    (now : ℕ) (e : Event) (p : Payload) (c : Chat)
    → forget (apply_payload now e p c) ≡ apply_payload 0 e p (forget c)
unfolding apply_payload
forget-payload now e (participant_added u r at) c =
    ap (λ (ps : List Participant). record (forget c) { participants = ps; version = e.version })
      (map-append forget_joined c.participants
        (record { user_id = u; role = r; joined_at = now } ∷ []))
forget-payload now e (participant_removed u) c =
    ap (λ (ps : List Participant). record (forget c) { participants = ps; version = e.version })
      (without-forget c.participants u)
forget-payload now e p c = ground arith

forget-apply : (now : ℕ) (e : Event) (c : Chat) → forget (apply now e c) ≡ apply 0 e (forget c)
unfolding apply
forget-apply now e c = forget-payload now e e.payload c

forget-apply_all :
    (clock : Event → ℕ) (es : List Event) (c : Chat)
    → forget (apply_all clock es c) ≡ apply_all (λ _. 0) es (forget c)
unfolding apply_all
forget-apply_all clock [] c = refl
forget-apply_all clock (e ∷ es) c =
    forget-apply_all clock es (apply (clock e) e c)
    ∙ ap (apply_all (λ _. 0) es) (forget-apply (clock e) e c)

pub apply_all-append :
    (clock : Event → ℕ) (xs ys : List Event) (c : Chat)
    → apply_all clock (xs ++ ys) c ≡ apply_all clock ys (apply_all clock xs c)
unfolding apply_all
apply_all-append clock [] ys c = refl
apply_all-append clock (x ∷ xs) ys c = apply_all-append clock xs ys (apply (clock x) x c)

-- Chats that differ only in what `forget` drops do so after any events, whatever the clocks show.
pub apply_all-forget :
    (clock clock' : Event → ℕ) (es : List Event) (c d : Chat)
    → forget c ≡ forget d
    → forget (apply_all clock es c) ≡ forget (apply_all clock' es d)
apply_all-forget clock clock' es c d h =
    forget-apply_all clock es c ∙ ap (apply_all (λ _. 0) es) h ∙ sym (forget-apply_all clock' es d)

-- A chat is what its unsaved events make of `base`.
abbrev pub Replays : (Event → ℕ) → Chat → Chat → Type 0
Replays clock base c = forget c ≡ forget (apply_all clock c.uncommitted_events base)

uncommitted-payload :
    (now : ℕ) (e : Event) (p : Payload) (c : Chat)
    → (apply_payload now e p c).uncommitted_events ≡ c.uncommitted_events
unfolding apply_payload
uncommitted-payload now e (participant_removed u) c = refl
uncommitted-payload now e p c = ground arith

pub uncommitted-apply_event :
    (now : ℕ) (e : Event) (c : Chat)
    → (apply_event now e c).uncommitted_events ≡ c.uncommitted_events ++ e ∷ []
unfolding apply_event
uncommitted-apply_event now e c =
    ap (λ (es : List Event). es ++ e ∷ []) (uncommitted-payload now e e.payload c)

forget-apply_event :
    (now : ℕ) (e : Event) (c : Chat) → forget (apply_event now e c) ≡ apply 0 e (forget c)
unfolding apply_event
forget-apply_event now e c = forget-apply now e c

apply_event-Replays :
    (clock : Event → ℕ) (base : Chat) (now : ℕ) (e : Event) (c : Chat)
    → Replays clock base c
    → Replays clock base (apply_event now e c)
unfolding apply_all
apply_event-Replays clock base now e c h =
    let us = c.uncommitted_events in
    forget (apply_event now e c)
    ≡⟨ forget-apply_event now e c ⟩ apply 0 e (forget c)
    ≡⟨ ap (apply 0 e) h ⟩ apply 0 e (forget (apply_all clock us base))
    ≡⟨ sym (forget-apply (clock e) e (apply_all clock us base)) ⟩
      forget (apply (clock e) e (apply_all clock us base))
    ≡⟨ ap forget (sym (apply_all-append clock us (e ∷ []) base)) ⟩
      forget (apply_all clock (us ++ e ∷ []) base)
    ≡⟨ ap (λ es. forget (apply_all clock es base)) (sym (uncommitted-apply_event now e c)) ⟩
      forget (apply_all clock (apply_event now e c).uncommitted_events base) ∎

raise-Replays :
    (clock : Event → ℕ) (base : Chat) (env : Env) (m : Metadata) (p : Payload) (c : Chat)
    → Replays clock base c
    → Replays clock base (raise env m p c)
unfolding raise
raise-Replays clock base env m p c = apply_event-Replays clock base env.joined_at _ c

-- Whatever methods are called on a chat with no unsaved events, in any order and with any outcome,
-- the resulting chat is the one that its unsaved events restore from the first chat, at any clock,
-- up to joining times.
pub run-Replays :
    (clock : Event → ℕ) (calls : List (Env × Call)) (c : Chat)
    → c.uncommitted_events ≡ []
    → forget (run calls c) ≡ forget (apply_all clock (run calls c).uncommitted_events c)
unfolding apply_all
run-Replays clock calls c h =
    run_cases (Replays clock c) (λ env m p d _ r. raise-Replays clock c env m p d r) calls c
      (ap (λ es. forget (apply_all clock es c)) (sym h))

new_chat-Replays :
    (clock : Event → ℕ) (env env' : Env) (ws : Uuid) (ty : ChatType) (pub' : Bool) (by : Uuid)
    {c : Chat}
    → new_chat env env' ws ty pub' by ≡ ok c
    → Replays clock empty_chat c
unfolding new_chat
new_chat-Replays clock env env' ws ty pub' by h = ground (
  arith,
  raise-Replays clock empty_chat env' no_metadata (participant_added by admin env.now)
      (apply_event env.joined_at (created_event env ws ty pub' by) empty_chat)
      (apply_event-Replays clock empty_chat env.joined_at (created_event env ws ty pub' by)
        empty_chat (unfold apply_all in refl)),
)

-- A chat made by NewChat and changed by any calls is restored from its events, up to joining times.
pub run-new_chat-Replays :
    (clock : Event → ℕ) (env env' : Env) (ws : Uuid) (ty : ChatType) (pub' : Bool) (by : Uuid)
    {c : Chat} (calls : List (Env × Call))
    → new_chat env env' ws ty pub' by ≡ ok c
    → forget (run calls c) ≡ forget (replay clock (run calls c).uncommitted_events)
unfolding replay
run-new_chat-Replays clock env env' ws ty pub' by calls h =
    run_cases (Replays clock empty_chat)
      (λ env m p d _ r. raise-Replays clock empty_chat env m p d r) calls _
      (new_chat-Replays clock env env' ws ty pub' by h)
