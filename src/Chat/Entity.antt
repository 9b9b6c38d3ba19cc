-- ===== src/Chat/Entity.antt =====
-- chat.go, the methods that manage a typed chat (a task, a bug or an epic) and the validation helpers.
use flowra.Base.{
  ℤ, is_not_positive, ℕ, Text, Uuid, text, same, is_empty, contains, not, ◌||◌, Option, none, some,
  List, [], ◌∷◌, if◌then◌else◌, ◌==◌, Result, ok, err, ◌>>=◌, ◌>>◌, fail_if,
}
use flowra.Errs.{Error, invalid_input, invalid_state}
use flowra.Text.{trim_space}
use flowra.Chat.Types.{
  ChatType, discussion, task, bug, epic, unknown, is_discussion, is_bug, Attachment, status_changed,
  user_assigned, assignee_removed, priority_set, due_date_set, due_date_removed, attachment_added,
  attachment_removed, severity_set, Chat, Env,
}
use flowra.Chat.Apply.{has_attachment}
use flowra.Chat.Methods.{raise, by_user}

abbrev pub task_statuses : List Text
task_statuses = text "To Do" ∷ text "In Progress" ∷ text "Done" ∷ []

abbrev pub bug_statuses : List Text
bug_statuses = text "New" ∷ text "Investigating" ∷ text "Fixed" ∷ text "Verified" ∷ []

abbrev pub epic_statuses : List Text
epic_statuses = text "Planned" ∷ text "In Progress" ∷ text "Completed" ∷ []

abbrev pub priorities : List Text
priorities = text "Low" ∷ text "Medium" ∷ text "High" ∷ text "Critical" ∷ []

abbrev pub severities : List Text
severities = text "Minor" ∷ text "Major" ∷ text "Critical" ∷ text "Blocker" ∷ []

-- `if slices.Contains(valid, s) { return nil }; return errs.ErrInvalidInput`
unfoldable pub one_of : List Text → Text → Result Error (Unit {0})
one_of valid s = fail_if (not (contains valid s)) invalid_input

unfoldable pub validate_status : ChatType → Text → Result Error (Unit {0})
unfolding one_of
validate_status task s = one_of task_statuses s
validate_status bug s = one_of bug_statuses s
validate_status epic s = one_of epic_statuses s
validate_status discussion s = err invalid_state
validate_status (unknown _) s = err invalid_state

unfoldable pub validate_priority : Text → Result Error (Unit {0})
unfolding one_of
validate_priority = one_of priorities

unfoldable pub validate_severity : Text → Result Error (Unit {0})
unfolding one_of
validate_severity = one_of severities

unfoldable pub change_status : Env → Text → Uuid → Chat → Result Error Chat
unfolding validate_status
change_status env new u c = do
  fail_if (is_discussion c.chat_type) invalid_state
  validate_status c.chat_type new
  ok (if same c.status new then c else raise env (by_user env u) (status_changed c.status new u) c)

-- AssignUser, by its argument and the present assignee.
assignment : Env → Option Uuid → Option Uuid → Uuid → Chat → Chat
assignment env none none u c = c
assignment env none (some old) u c = raise env (by_user env u) (assignee_removed old u) c
assignment env (some a) none u c = raise env (by_user env u) (user_assigned a u) c
assignment env (some a) (some old) u c =
    if same old a then c else raise env (by_user env u) (user_assigned a u) c

unfoldable pub assign_user : Env → Option Uuid → Uuid → Chat → Result Error Chat
unfolding assignment
assign_user env a u c = do
  fail_if (is_discussion c.chat_type) invalid_state
  ok (assignment env a c.assignee_id u c)

unfoldable pub set_priority : Env → Text → Uuid → Chat → Result Error Chat
unfolding validate_priority
set_priority env p u c = do
  fail_if (is_discussion c.chat_type) invalid_state
  validate_priority p
  ok (if same c.priority p then c else raise env (by_user env u) (priority_set c.priority p u) c)

-- SetDueDate, by its argument and the present due date.
deadline : Env → Option ℕ → Option ℕ → Uuid → Chat → Chat
deadline env none none u c = c
deadline env none (some old) u c = raise env (by_user env u) (due_date_removed old u) c
deadline env (some d) none u c = raise env (by_user env u) (due_date_set none d u) c
deadline env (some d) (some old) u c =
    if old == d then c else raise env (by_user env u) (due_date_set (some old) d u) c

unfoldable pub set_due_date : Env → Option ℕ → Uuid → Chat → Result Error Chat
unfolding deadline
set_due_date env d u c = do
  fail_if (is_discussion c.chat_type) invalid_state
  ok (deadline env d c.due_date u c)

unfoldable pub set_severity : Env → Text → Uuid → Chat → Result Error Chat
unfolding validate_severity
set_severity env s u c = do
  fail_if (not (is_bug c.chat_type)) invalid_state
  validate_severity s
  ok (if same c.severity s then c else raise env (by_user env u) (severity_set c.severity s u) c)

-- NewAttachment of attachment.go
unfoldable pub new_attachment : Uuid → Text → ℤ → Text → Result Error Attachment
new_attachment f name size mime = do
  fail_if (is_empty f) invalid_input
  fail_if (is_empty (trim_space name)) invalid_input
  fail_if (is_not_positive size) invalid_input
  fail_if (is_empty (trim_space mime)) invalid_input
  ok (record { file_id = f; file_name = name; file_size = size; mime_type = mime })

unfoldable pub add_attachment : Env → Uuid → Text → ℤ → Text → Uuid → Chat → Result Error Chat
unfolding new_attachment
add_attachment env f name size mime u c = do
  fail_if (is_discussion c.chat_type) invalid_state
  fail_if (is_empty u) invalid_input
  a ← new_attachment f name size mime
  ok (
      if has_attachment c.attachments a.file_id
      then c
      else raise env (by_user env u)
          (attachment_added a.file_id a.file_name a.file_size a.mime_type u) c)

unfoldable pub remove_attachment : Env → Uuid → Uuid → Chat → Result Error Chat
remove_attachment env f u c = do
  fail_if (is_discussion c.chat_type) invalid_state
  fail_if (is_empty f || is_empty u) invalid_input
  ok (
      if has_attachment c.attachments f
      then raise env (by_user env u) (attachment_removed f u) c
      else c)
