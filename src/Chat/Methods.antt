-- ===== src/Chat/Methods.antt =====
-- chat.go: NewChat, and the methods on participants and conversions. A method that fails has changed nothing, and its result is only the error.
use flowra.Base.{◌+◌, Text, Uuid, same, is_empty, Bool, not, Result, ok, ◌>>◌, fail_if}
use flowra.Errs.{Error, not_found, already_exists, invalid_input, invalid_state}
use flowra.Chat.Types.{
  ChatType, task, bug, epic, is_discussion, is_valid_chat_type, Role, admin, Metadata, no_metadata,
  Payload, created, participant_added, participant_removed, type_changed, Event, Chat, empty_chat,
  Env,
}
use flowra.Chat.Apply.{has_participant, apply_event}

-- The next event of the chat, applied and tracked.
unfoldable pub raise : Env → Metadata → Payload → Chat → Chat
unfolding apply_event
raise env meta p c =
    apply_event env.joined_at
      (record {
        aggregate_id = c.id;
        version = c.version + 1;
        occurred_at = env.occurred_at;
        metadata = meta;
        payload = p;
      })
      c

-- The metadata that most methods give their event.
abbrev pub by_user : Env → Uuid → Metadata
by_user env u = record {
  user_id = u;
  correlation_id = env.correlation_id;
  causation_id = env.causation_id;
}

-- The ChatCreated event, whose version is 1.
abbrev pub created_event : Env → Uuid → ChatType → Bool → Uuid → Event
created_event env ws ty pub' by = record {
  aggregate_id = env.new_id;
  version = 1;
  occurred_at = env.occurred_at;
  metadata = no_metadata;
  payload = created ws ty pub' by env.now;
}

-- NewChat: `env` is read for the first event and `env'` for the second.
unfoldable pub new_chat : Env → Env → Uuid → ChatType → Bool → Uuid → Result Error Chat
new_chat env env' ws ty pub' by = do
  fail_if (is_empty ws) invalid_input
  fail_if (is_empty by) invalid_input
  fail_if (not (is_valid_chat_type ty)) invalid_input
  ok (
      raise env' no_metadata (participant_added by admin env.now)
        (apply_event env.joined_at (created_event env ws ty pub' by) empty_chat))

unfoldable pub add_participant : Env → Uuid → Role → Chat → Result Error Chat
add_participant env u r c = do
  fail_if (is_empty u) invalid_input
  fail_if (has_participant c.participants u) already_exists
  ok (raise env no_metadata (participant_added u r env.now) c)

unfoldable pub remove_participant : Env → Uuid → Chat → Result Error Chat
remove_participant env u c = do
  fail_if (is_empty u) invalid_input
  fail_if (not (has_participant c.participants u)) not_found
  fail_if (same u c.created_by) invalid_input
  ok (raise env no_metadata (participant_removed u) c)

-- What the three conversions share: they differ in the new type alone.
convert_to : ChatType → Env → Text → Uuid → Chat → Result Error Chat
convert_to ty env title u c = do
  fail_if (not (is_discussion c.chat_type)) invalid_state
  fail_if (is_empty title) invalid_input
  fail_if (is_empty u) invalid_input
  ok (raise env (by_user env u) (type_changed c.chat_type ty title) c)

unfoldable pub convert_to_task : Env → Text → Uuid → Chat → Result Error Chat
unfolding convert_to
convert_to_task = convert_to task

unfoldable pub convert_to_bug : Env → Text → Uuid → Chat → Result Error Chat
unfolding convert_to
convert_to_bug = convert_to bug

unfoldable pub convert_to_epic : Env → Text → Uuid → Chat → Result Error Chat
unfolding convert_to
convert_to_epic = convert_to epic
