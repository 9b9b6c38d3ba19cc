-- ===== src/UseCase/Commands.antt =====
-- internal/application/chat/commands.go, the commands on an existing chat that go through the repository,
-- and their validation, with internal/application/appcore/validation.go.
use flowra.Base.{
  ℕ, ◌+◌, Text, Uuid, text, is_empty, Bool, not, Option, none, some, [], ◌∷◌, ltb, Result, ok, err,
  ◌>>◌, fail_if, ℤ, is_not_positive, if◌then◌else◌,
}
use flowra.Errs.{Error}
use flowra.Chat.Types.{Role, member, admin, other}
use flowra.Chat.Lifecycle.{
  Call, add_participant_call, remove_participant_call, convert_to_task_call, convert_to_bug_call,
  convert_to_epic_call, change_status_call, assign_user_call, set_priority_call, set_due_date_call,
  set_severity_call, add_attachment_call, remove_attachment_call, rename_call,
}

-- A ValidationError by its field, ErrAssigneeNotFound, ErrTitleRequired, ErrChatNotFound, the error of the query for the assignee, or what
-- the chat or the repository returned.
pub data AppError : Type 0 where
  invalid_field : Text → AppError
  assignee_not_found assignee_unknown title_required chat_not_found : AppError
  of_chat : Error → AppError

-- The chat's identity comes first, the acting user last.
pub data ChatCommand : Type 0 where
  add_participant_command : Uuid → Uuid → Role → Uuid → ChatCommand
  remove_participant_command : Uuid → Uuid → Uuid → ChatCommand
  convert_to_task_command convert_to_bug_command convert_to_epic_command :
      Uuid → Text → Uuid → ChatCommand
  change_status_command set_priority_command set_severity_command : Uuid → Text → Uuid → ChatCommand
  assign_user_command : Uuid → Option Uuid → Uuid → ChatCommand
  set_due_date_command : Uuid → Option ℕ → Uuid → ChatCommand
  add_attachment_command : Uuid → Uuid → Text → ℤ → Text → Uuid → ChatCommand
  remove_attachment_command : Uuid → Uuid → Uuid → ChatCommand
  rename_chat_command : Uuid → Text → Uuid → ChatCommand

-- The method that the use case calls, with its arguments.
abbrev pub call_of : ChatCommand → Call
call_of (add_participant_command id u r by) = add_participant_call u r
call_of (remove_participant_command id u by) = remove_participant_call u
call_of (convert_to_task_command id t by) = convert_to_task_call t by
call_of (convert_to_bug_command id t by) = convert_to_bug_call t by
call_of (convert_to_epic_command id t by) = convert_to_epic_call t by
call_of (change_status_command id s by) = change_status_call s by
call_of (set_priority_command id p by) = set_priority_call p by
call_of (set_severity_command id s by) = set_severity_call s by
call_of (assign_user_command id a by) = assign_user_call a by
call_of (set_due_date_command id d by) = set_due_date_call d by
call_of (add_attachment_command id f n s m by) = add_attachment_call f n s m by
call_of (remove_attachment_command id f by) = remove_attachment_call f by
call_of (rename_chat_command id t by) = rename_call t by

abbrev pub chat_id_of : ChatCommand → Uuid
chat_id_of (add_participant_command id u r by) = id
chat_id_of (remove_participant_command id u by) = id
chat_id_of (convert_to_task_command id t by) = id
chat_id_of (convert_to_bug_command id t by) = id
chat_id_of (convert_to_epic_command id t by) = id
chat_id_of (change_status_command id s by) = id
chat_id_of (set_priority_command id p by) = id
chat_id_of (set_severity_command id s by) = id
chat_id_of (assign_user_command id a by) = id
chat_id_of (set_due_date_command id d by) = id
chat_id_of (add_attachment_command id f n s m by) = id
chat_id_of (remove_attachment_command id f by) = id
chat_id_of (rename_chat_command id t by) = id

-- The number of bytes of a code point in UTF-8.
utf8_width : ℕ → ℕ
utf8_width c = if ltb c 0x80 then 1 else if ltb c 0x800 then 2 else if ltb c 0x10000 then 3 else 4

-- `len(value)`
unfoldable pub byte_length : Text → ℕ
unfolding utf8_width
byte_length [] = 0
byte_length (c ∷ s) = utf8_width c + byte_length s

abbrev pub max_title_length : ℕ
max_title_length = 200

-- ValidateRequired and ValidateUUID
unfoldable pub validate_required : Text → Text → Result AppError (Unit {0})
validate_required field value = fail_if (is_empty value) (invalid_field field)

-- ValidateMaxLength
unfoldable pub validate_max_length : Text → Text → ℕ → Result AppError (Unit {0})
validate_max_length field value n = fail_if (ltb n (byte_length value)) (invalid_field field)

-- ValidateEnum, on the role of a participant
abbrev pub validate_role : Role → Result AppError (Unit {0})
validate_role admin = ok tt
validate_role member = ok tt
validate_role (other _) = err (invalid_field (text "role"))

abbrev validate_optional : Text → Option Uuid → Result AppError (Unit {0})
validate_optional field none = ok tt
validate_optional field (some u) = validate_required field u

validate_title_by : Text → Text → Text → Uuid → Result AppError (Unit {0})
validate_title_by title_field title by_field by = do
  validate_required title_field title
  validate_max_length title_field title max_title_length
  validate_required by_field by

-- What each use case validates behind the chat's identity.
validate_fields : ChatCommand → Result AppError (Unit {0})
unfolding validate_title_by
validate_fields (add_participant_command id u r by) = do
  validate_required (text "userID") u
  validate_required (text "addedBy") by
  validate_role r
validate_fields (remove_participant_command id u by) = do
  validate_required (text "userID") u
  validate_required (text "removedBy") by
validate_fields (convert_to_task_command id t by) =
    validate_title_by (text "title") t (text "convertedBy") by
validate_fields (convert_to_bug_command id t by) =
    validate_title_by (text "title") t (text "convertedBy") by
validate_fields (convert_to_epic_command id t by) =
    validate_title_by (text "title") t (text "convertedBy") by
validate_fields (change_status_command id s by) = do
  validate_required (text "status") s
  validate_required (text "changedBy") by
validate_fields (set_priority_command id p by) = do
  validate_required (text "priority") p
  validate_required (text "setBy") by
validate_fields (set_severity_command id s by) = do
  validate_required (text "severity") s
  validate_required (text "setBy") by
validate_fields (assign_user_command id a by) = do
  validate_optional (text "assigneeID") a
  validate_required (text "assignedBy") by
validate_fields (set_due_date_command id d by) = validate_required (text "setBy") by
validate_fields (add_attachment_command id f n s m by) = do
  validate_required (text "fileID") f
  validate_required (text "fileName") n
  fail_if (is_not_positive s) (invalid_field (text "fileSize"))
  validate_required (text "mimeType") m
  validate_required (text "addedBy") by
validate_fields (remove_attachment_command id f by) = do
  validate_required (text "fileID") f
  validate_required (text "removedBy") by
validate_fields (rename_chat_command id t by) =
    validate_title_by (text "newTitle") t (text "renamedBy") by

-- The methods `validate` of the use cases.
unfoldable pub validate : ChatCommand → Result AppError (Unit {0})
unfolding validate_fields validate_required
validate cmd = do validate_required (text "chatID") (chat_id_of cmd); validate_fields cmd

-- validateAssigneeExists: `exists` is the query of the user repository, none where it fails.
unfoldable pub validate_assignee : (Uuid → Option Bool) → ChatCommand → Result AppError (Unit {0})
validate_assignee user_exists (assign_user_command id (some a) by) = elim (user_exists a) [
  | none ↦ err assignee_unknown
  | some found ↦ fail_if (not found) assignee_not_found
]
validate_assignee user_exists cmd = ok tt
