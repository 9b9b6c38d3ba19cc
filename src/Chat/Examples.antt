-- ===== src/Chat/Examples.antt =====
-- The theorems on chats at concrete chats and calls.
use flowra.Base.{ℕ, text, same, true, List, [], ◌∷◌, ◌≡◌, refl, Result, ok, contains}
use flowra.Errs.{Error}
use flowra.Chat.Types.{task, admin, member, no_metadata, Payload, Event, Chat, empty_chat, Env}
use flowra.Chat.Apply.{status_closed, mark_events_as_committed, apply_event, replay}
use flowra.Chat.Methods.{new_chat, raise}
use flowra.Chat.Entity.{change_status, validate_status}
use flowra.Chat.Lifecycle.{
  Call, add_participant_call, remove_participant_call, change_status_call, close_call, close, step,
  after, run,
}
use flowra.Chat.Replay.{forget, run-new_chat-Replays}
use flowra.Chat.Invariant.{Keeps, run-Keeps, IsValid, run-new_chat-IsValid}

abbrev pub an_env : Env
an_env = record {
  now = 10;
  occurred_at = 11;
  joined_at = 12;
  new_id = text "c1";
  correlation_id = text "x1";
  causation_id = text "x2";
}

-- A public task that the user "ann" makes in the workspace "w1".
abbrev pub made : Result Error Chat
made = new_chat an_env an_env (text "w1") task true (text "ann")

abbrev pub a_chat : Chat
a_chat = after empty_chat made

pub made-a_chat : made ≡ ok a_chat
unfolding new_chat
made-a_chat = refl

-- Calls that succeed and calls that fail.
abbrev pub some_calls : List (Env × Call)
some_calls =
    (an_env, add_participant_call (text "bob") member)
    ∷ (an_env, add_participant_call (text "bob") admin)
    ∷ (an_env, change_status_call (text "Done") (text "bob"))
    ∷ (an_env, change_status_call (text "Fixed") (text "bob"))
    ∷ (an_env, close_call (text "ann"))
    ∷ (an_env, remove_participant_call (text "ann"))
    ∷ (an_env, remove_participant_call (text "bob"))
    ∷ []

run-new_chat-IsValid_example : IsValid (run some_calls a_chat)
run-new_chat-IsValid_example =
    run-new_chat-IsValid an_env an_env (text "w1") task true (text "ann") some_calls made-a_chat

-- The same chat with its events saved.
abbrev pub saved_chat : Chat
saved_chat = mark_events_as_committed a_chat

abbrev a_clock : Event → ℕ
a_clock e = e.version

run-new_chat-Replays_example :
    forget (run some_calls a_chat)
    ≡ forget (replay a_clock (run some_calls a_chat).uncommitted_events)
run-new_chat-Replays_example =
    run-new_chat-Replays a_clock an_env an_env (text "w1") task true (text "ann") some_calls
      made-a_chat

-- A task whose status has been set to "Done".
abbrev done_chat : Chat
done_chat = after a_chat (step an_env (change_status_call (text "Done") (text "bob")) a_chat)

a_chat-done : step an_env (change_status_call (text "Done") (text "bob")) a_chat ≡ ok done_chat
unfolding new_chat raise apply_event step change_status validate_status contains same
a_chat-done = refl

abbrev event_of : Payload → Event
event_of p = record {
  aggregate_id = text "c1";
  version = 3;
  occurred_at = 11;
  metadata = no_metadata;
  payload = p;
}

-- The task, closed.
abbrev closed_chat : Chat
closed_chat = after a_chat (close an_env (text "ann") a_chat)

closed_chat-closed : closed_chat.status ≡ status_closed
unfolding new_chat raise apply_event close same
closed_chat-closed = refl

closed_chat-task : closed_chat.chat_type ≡ task
unfolding new_chat raise apply_event close same
closed_chat-task = refl

run-Keeps_example : Keeps a_chat (run some_calls a_chat)
run-Keeps_example = run-Keeps some_calls a_chat
