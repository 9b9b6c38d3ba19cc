-- ===== src/UseCase/Create.antt =====
-- internal/application/chat/create_chat.go. `env` and `env'` are read by NewChat, `env''` by the method
-- that sets the type and the title.
use flowra.Base.{
  Text, Uuid, text, is_empty, Bool, not, Result, ok, ◌>>=◌, ◌>>◌, fail_if, if◌then◌else◌,
}
use flowra.Errs.{Error}
use flowra.Chat.Types.{
  ChatType, discussion, task, bug, epic, unknown, is_discussion, is_valid_chat_type, Chat, Env,
}
use flowra.Chat.Methods.{new_chat, convert_to_task, convert_to_bug, convert_to_epic}
use flowra.Chat.Lifecycle.{rename}
use flowra.Store.Events.{EventStore}
use flowra.Store.Repository.{Config, Answers, Repo, save}
use flowra.UseCase.Commands.{
  AppError, title_required, invalid_field, validate_required, validate_max_length, max_title_length,
}
use flowra.UseCase.Execute.{wrapped}

-- The title, as `validate` looks at it by the type.
abbrev pub validate_create_title : ChatType → Text → Result AppError (Unit {0})
validate_create_title ty title =
    if not (is_discussion ty)
    then (fail_if (is_empty title) title_required
        >> validate_max_length (text "title") title max_title_length)
    else if not (is_empty title)
    then validate_max_length (text "title") title max_title_length
    else ok tt

-- validate of CreateChatUseCase
unfoldable pub validate_create : Uuid → ChatType → Text → Uuid → Result AppError (Unit {0})
validate_create ws ty title by = do
  validate_required (text "workspaceID") ws
  validate_required (text "createdBy") by
  fail_if (not (is_valid_chat_type ty)) (invalid_field (text "type"))
  validate_create_title ty title

-- applyChatTypeAndTitle
unfoldable pub apply_chat_type_and_title : Env → ChatType → Text → Uuid → Chat → Result Error Chat
apply_chat_type_and_title env task title by c = convert_to_task env title by c
apply_chat_type_and_title env bug title by c = convert_to_bug env title by c
apply_chat_type_and_title env epic title by c = convert_to_epic env title by c
apply_chat_type_and_title env (unknown _) title by c = ok c
apply_chat_type_and_title env discussion title by c =
    if not (is_empty title) then rename env title by c else ok c

module _ (es : EventStore) where
  -- Execute of CreateChatUseCase
  unfoldable pub create_chat :
      Config
      → Answers
      → Env
      → Env
      → Env
      → Uuid
      → ChatType
      → Bool
      → Text
      → Uuid
      → Repo es
      → Result AppError (Repo es × Chat)
  create_chat cfg ans env env' env'' ws ty pub' title by r = do
    validate_create ws ty title by
    c ← wrapped (new_chat env env' ws discussion pub' by)
    d ← wrapped (apply_chat_type_and_title env'' ty title by c)
    wrapped (save es cfg ans r d)
