-- ===== src/Message/Commands.antt =====
-- internal/application/message: the commands of commands.go, the errors and bounds of errors.go, and the methods
-- validate of the use cases, with internal/application/appcore/validation.go.
use flowra.Base.{
  ℕ, ℤ, pos, negsuc, is_not_positive, Text, Uuid, text, is_empty, Bool, false, not, Option, Result,
  ok, ◌>>◌, fail_if, ltb,
}
use flowra.Errs.{Error}
use flowra.UseCase.Commands.{byte_length}
use flowra.Message.Types.{MessageType, system, Message}
use flowra.Message.Methods.{
  can_be_edited_by, Call, edit_content_call, delete_call, add_reaction_call, remove_reaction_call,
  add_attachment_call,
}

-- A ValidationError by its field, the errors of errors.go, a failed Save, or what the domain returned.
pub data AppError : Type 0 where
  invalid_field : Text → AppError
  empty_content content_too_long invalid_emoji invalid_file_size invalid_file_name
        invalid_mime_type :
      AppError
  message_not_found chat_not_found parent_not_found not_author message_deleted : AppError
  parent_in_different_chat not_chat_participant save_failed : AppError
  of_domain : Error → AppError

-- SendMessageCommand
pub record SendMessageCommand : Type 0 where
  pub chat_id : Uuid
  pub content : Text
  pub author_id : Uuid
  pub parent_message_id : Uuid
  pub msg_type : MessageType
  pub actor_id : Option Uuid

-- The commands on an existing message, the message's identity first.
pub data MessageCommand : Type 0 where
  edit_message_command : Uuid → Text → Uuid → MessageCommand
  delete_message_command : Uuid → Uuid → MessageCommand
  add_reaction_command remove_reaction_command : Uuid → Text → Uuid → MessageCommand
  add_attachment_command : Uuid → Uuid → Text → ℤ → Text → Uuid → MessageCommand

abbrev pub message_id_of : MessageCommand → Uuid
message_id_of (edit_message_command id c by) = id
message_id_of (delete_message_command id by) = id
message_id_of (add_reaction_command id e u) = id
message_id_of (remove_reaction_command id e u) = id
message_id_of (add_attachment_command id f n s t u) = id

-- The method that the use case calls at `now`, with its arguments.
abbrev pub call_of : ℕ → MessageCommand → Call
call_of now (edit_message_command id c by) = edit_content_call now c by
call_of now (delete_message_command id by) = delete_call now by
call_of now (add_reaction_command id e u) = add_reaction_call now u e
call_of now (remove_reaction_command id e u) = remove_reaction_call u e
call_of now (add_attachment_command id f n s t u) = add_attachment_call f n s t

-- MaxContentLength
abbrev pub max_content_length : ℕ
max_content_length = 10000

-- MaxFileSize, `10 << 20`
abbrev pub max_file_size : ℕ
max_file_size = 10485760

-- `fileSize > n`
abbrev pub exceeds : ℤ → ℕ → Bool
exceeds (pos s) n = ltb n s
exceeds (negsuc s) n = false

-- ValidateUUID
abbrev pub required : Text → Uuid → Result AppError (Unit {0})
required field id = fail_if (is_empty id) (invalid_field field)

-- validate of the use cases on an existing message.
unfoldable pub validate : MessageCommand → Result AppError (Unit {0})
validate (edit_message_command id c by) = do
  required (text "messageID") id
  fail_if (is_empty c) empty_content
  fail_if (ltb max_content_length (byte_length c)) content_too_long
  required (text "editorID") by
validate (delete_message_command id by) = do
  required (text "messageID") id
  required (text "deletedBy") by
validate (add_reaction_command id e u) = do
  required (text "messageID") id
  required (text "userID") u
  fail_if (is_empty e) invalid_emoji
validate (remove_reaction_command id e u) = do
  required (text "messageID") id
  required (text "userID") u
  fail_if (is_empty e) invalid_emoji
validate (add_attachment_command id f n s t u) = do
  required (text "messageID") id
  required (text "fileID") f
  fail_if (is_empty n) invalid_file_name
  fail_if (is_empty t) invalid_mime_type
  fail_if (is_not_positive s) invalid_file_size
  fail_if (exceeds s max_file_size) invalid_file_size
  required (text "userID") u

-- What the use case checks of the loaded message before it calls the method.
unfoldable pub check_message : MessageCommand → Message → Result AppError (Unit {0})
check_message (edit_message_command id c by) m = fail_if m.is_deleted message_deleted
check_message (delete_message_command id by) m = ok tt
check_message (add_reaction_command id e u) m = fail_if m.is_deleted message_deleted
check_message (remove_reaction_command id e u) m = ok tt
check_message (add_attachment_command id f n s t u) m = do
  fail_if m.is_deleted message_deleted
  fail_if (not (can_be_edited_by u m)) not_author

-- The check of the content in validate of SendMessageUseCase.
abbrev pub check_content : MessageType → Text → Result AppError (Unit {0})
check_content system c = ok tt
check_content _ c = fail_if (is_empty c) empty_content

-- validate of SendMessageUseCase
unfoldable pub validate_send : SendMessageCommand → Result AppError (Unit {0})
validate_send cmd = do
  required (text "chatID") cmd.chat_id
  check_content cmd.msg_type cmd.content
  fail_if (ltb max_content_length (byte_length cmd.content)) content_too_long
  required (text "authorID") cmd.author_id
