-- ===== src/Chat/Lifecycle.antt =====
-- chat.go: Rename, Delete, Close and Reopen; and a call of any method, as a value.
use flowra.Base.{
  ℤ, ℕ, Text, Uuid, same, is_empty, not, Option, List, [], ◌∷◌, if◌then◌else◌, Result, ok, err,
  ◌>>◌, fail_if,
}
use flowra.Errs.{
  Error, invalid_input, chat_already_deleted, cannot_close_discussion, chat_already_closed,
  chat_not_closed,
}
use flowra.Chat.Types.{
  is_discussion, Role, no_metadata, renamed, deleted, closed, reopened, Chat, Env,
}
use flowra.Chat.Apply.{status_closed, get_default_status}
use flowra.Chat.Methods.{
  raise, by_user, add_participant, remove_participant, convert_to_task, convert_to_bug,
  convert_to_epic,
}
use flowra.Chat.Entity.{
  change_status, assign_user, set_priority, set_due_date, set_severity, add_attachment,
  remove_attachment,
}

unfoldable pub rename : Env → Text → Uuid → Chat → Result Error Chat
rename env new u c = do
  fail_if (is_empty new) invalid_input
  ok (if same c.title new then c else raise env (by_user env u) (renamed c.title new u) c)

unfoldable pub delete : Env → Uuid → Chat → Result Error Chat
delete env by c = do
  fail_if c.is_deleted chat_already_deleted
  ok (raise env no_metadata (deleted by env.now) c)

unfoldable pub close : Env → Uuid → Chat → Result Error Chat
close env by c = do
  fail_if (is_discussion c.chat_type) cannot_close_discussion
  fail_if (same c.status status_closed) chat_already_closed
  ok (raise env no_metadata (closed by c.status env.now) c)

unfoldable pub reopen : Env → Uuid → Chat → Result Error Chat
reopen env by c = do
  fail_if (not (same c.status status_closed)) chat_not_closed
  ok (raise env no_metadata (reopened by (get_default_status c.chat_type) env.now) c)

-- The exported methods that change a chat, with their arguments.
pub data Call : Type 0 where
  add_participant_call : Uuid → Role → Call
  remove_participant_call : Uuid → Call
  convert_to_task_call convert_to_bug_call convert_to_epic_call : Text → Uuid → Call
  change_status_call : Text → Uuid → Call
  assign_user_call : Option Uuid → Uuid → Call
  set_priority_call : Text → Uuid → Call
  set_due_date_call : Option ℕ → Uuid → Call
  set_severity_call : Text → Uuid → Call
  add_attachment_call : Uuid → Text → ℤ → Text → Uuid → Call
  remove_attachment_call : Uuid → Uuid → Call
  rename_call : Text → Uuid → Call
  delete_call close_call reopen_call : Uuid → Call

unfoldable pub step : Env → Call → Chat → Result Error Chat
step env (add_participant_call u r) c = add_participant env u r c
step env (remove_participant_call u) c = remove_participant env u c
step env (convert_to_task_call t u) c = convert_to_task env t u c
step env (convert_to_bug_call t u) c = convert_to_bug env t u c
step env (convert_to_epic_call t u) c = convert_to_epic env t u c
step env (change_status_call s u) c = change_status env s u c
step env (assign_user_call a u) c = assign_user env a u c
step env (set_priority_call p u) c = set_priority env p u c
step env (set_due_date_call d u) c = set_due_date env d u c
step env (set_severity_call s u) c = set_severity env s u c
step env (add_attachment_call f n s m u) c = add_attachment env f n s m u c
step env (remove_attachment_call f u) c = remove_attachment env f u c
step env (rename_call t u) c = rename env t u c
step env (delete_call u) c = delete env u c
step env (close_call u) c = close env u c
step env (reopen_call u) c = reopen env u c

-- The chat after a call: as it was, if the call failed.
abbrev pub after : Chat → Result Error Chat → Chat
after c (ok d) = d
after c (err e) = c

-- A sequence of calls on one chat, each with what it reads of its surroundings.
unfoldable pub run : List (Env × Call) → Chat → Chat
run [] c = c
run ((env, call) ∷ calls) c = run calls (after c (step env call c))
