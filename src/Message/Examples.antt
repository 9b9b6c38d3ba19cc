-- ===== src/Message/Examples.antt =====
-- The theorems on messages, at a repository that is a list of messages.
use flowra.Base.{
  Uuid, text, same, is_empty, true, false, Option, none, some, List, [], ◌∷◌, ◌≡◌, refl, arith, ok,
  if◌then◌else◌,
}
use flowra.Chat.Types.{task, member}
use flowra.Message.Types.{user, Message, Reaction, new_reaction}
use flowra.Message.Methods.{
  new_message_with_type, has_reaction, add_reaction, Call, edit_content_call, delete_call,
  add_reaction_call, remove_reaction_call, run,
}
use flowra.Message.Invariant.{IsValid, run-new_message-IsValid}
use flowra.Message.Deleted.{Sublist, run-deleted}
use flowra.Message.Commands.{
  validate_send, SendMessageCommand, MessageCommand, edit_message_command,
}
use flowra.UseCase.Commands.{byte_length}
use flowra.Message.UseCases.{
  MessageRepository, ReadModel, Env, World, check_parent, sent, execute, send_message,
}
use flowra.Message.Reaching.{IsSoundWorld, start, changing, sending, Reach-IsSoundWorld}

abbrev a_message : Message
a_message = record {
  id = text "m1";
  chat_id = text "c1";
  author_id = text "ann";
  content = text "Hi";
  msg_type = user;
  actor_id = none;
  parent_message_id = [];
  created_at = 7;
  edited_at = none;
  is_deleted = false;
  deleted_at = none;
  attachments = [];
  reactions = [];
}

made-a_message :
    new_message_with_type 7 (text "m1") (text "c1") (text "ann") (text "Hi") [] user none
    ≡ ok a_message
unfolding new_message_with_type
made-a_message = refl

abbrev some_calls : List Call
some_calls =
    add_reaction_call 8 (text "bob") (text "+1")
    ∷ add_reaction_call 8 (text "bob") (text "+1")
    ∷ edit_content_call 9 (text "Hello") (text "ann")
    ∷ delete_call 10 (text "ann")
    ∷ remove_reaction_call (text "bob") (text "+1")
    ∷ []

run-new_message-IsValid_example : IsValid (run some_calls a_message)
run-new_message-IsValid_example =
    run-new_message-IsValid 7 (text "m1") (text "c1") (text "ann") (text "Hi") [] user none
      a_message some_calls made-a_message

abbrev thumb : Reaction
thumb = record { user_id = text "bob"; emoji_code = text "+1"; added_at = 8 }

abbrev a_liked_message : Message
a_liked_message = record a_message { reactions = thumb ∷ [] }

abbrev a_deleted_message : Message
a_deleted_message = record a_liked_message { is_deleted = true; deleted_at = some 10 }

run-deleted_example :
    (run some_calls a_deleted_message
      ≡ record a_deleted_message { reactions = (run some_calls a_deleted_message).reactions })
    × Sublist (run some_calls a_deleted_message).reactions a_deleted_message.reactions
run-deleted_example = run-deleted some_calls a_deleted_message refl

liked : add_reaction 8 (text "bob") (text "+1") a_message ≡ ok a_liked_message
unfolding add_reaction has_reaction new_reaction
liked = refl

-- The repository as a list, newest first; a message with no identity is not saved.
abbrev find_message : List Message → Uuid → Option Message
find_message [] id = none
find_message (m ∷ ms) id = let rest = find_message ms id in if same m.id id then some m else rest

abbrev save_message : List Message → Message → Option (List Message)
save_message ms m = if is_empty m.id then none else some (m ∷ ms)

find_message-save_message :
    (ms ns : List Message) (m : Message) (id : Uuid)
    → save_message ms m ≡ some ns
    → find_message ns id ≡ (if same m.id id then some m else find_message ms id)
find_message-save_message ms ns m id h = ground arith

abbrev listed : MessageRepository
listed = record {
  State = List Message;
  find_by_id = find_message;
  save = save_message;
  find-save = find_message-save_message;
}

abbrev no_messages : World listed
no_messages = record { store = []; published = []; detached = [] }

abbrev an_env : Env
an_env = record { now = 7; raised_at = 7; occurred_at = 7; new_id = text "m1" }

abbrev another_env : Env
another_env = record { now = 9; raised_at = 9; occurred_at = 9; new_id = text "m2" }

abbrev a_chat : Uuid → Option ReadModel
a_chat id = some (record {
  chat_type = task;
  participants = record { user_id = text "ann"; role = member; joined_at = 1 } ∷ [];
})

abbrev a_question : SendMessageCommand
a_question = record {
  chat_id = text "c1";
  content = text "Hi";
  author_id = text "ann";
  parent_message_id = [];
  msg_type = user;
  actor_id = none;
}

abbrev an_answer : SendMessageCommand
an_answer = record a_question { parent_message_id = text "m1" }

abbrev asked : World listed
asked = (send_message listed a_chat true true an_env a_question no_messages).1

abbrev answered : World listed
answered = (send_message listed a_chat true false another_env an_answer asked).1

abbrev an_edit : MessageCommand
an_edit = edit_message_command (text "m2") (text "Hello") (text "ann")

abbrev last_world : World listed
last_world = (execute listed another_env true an_edit answered).1

answer_new : find_message asked.store (text "m2") ≡ none
unfolding send_message sent check_parent new_message_with_type validate_send byte_length same
answer_new = refl

Reach-IsSoundWorld_example : IsSoundWorld listed last_world
Reach-IsSoundWorld_example = Reach-IsSoundWorld listed last_world (
    changing another_env true an_edit (
      sending a_chat true false another_env an_answer answer_new
        (sending a_chat true true an_env a_question refl (start [] (λ id. refl)))))
