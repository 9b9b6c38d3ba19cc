-- ===== src/UseCase/Examples.antt =====
-- The theorems on use cases at a concrete command.
use flowra.Base.{
  Text, Uuid, text, same, Bool, true, false, Option, some, [], ◌≡◌, refl, ok, err, inr,
}
use flowra.Chat.Types.{bug, Chat, empty_chat}
use flowra.Chat.Apply.{apply_event, mark_events_as_committed}
use flowra.Chat.Methods.{new_chat, raise}
use flowra.Chat.Lifecycle.{rename, step, after}
use flowra.Chat.Replay.{forget}
use flowra.Chat.Examples.{an_env}
use flowra.Store.InMemory.{in_memory, find, put, save_events, load_events}
use flowra.Store.Repository.{Repo, load, save, stored, with_read_model, with_delivery}
use flowra.Store.Examples.{
  a_config, all_well, empty_repo, one_chat, one_chat-stored, one_chat-IsHistory, a_clock,
}
use flowra.UseCase.Commands.{
  ChatCommand, rename_chat_command, call_of, validate, validate_assignee, validate_required,
  validate_max_length, byte_length,
}
use flowra.UseCase.Execute.{execute}
use flowra.UseCase.Create.{validate_create, create_chat}
use flowra.UseCase.Creating.{create_chat-load}
use flowra.UseCase.Carrying.{execute-load}
use flowra.Errs.{failed}
use flowra.Tag.Types.{Command, change_title, invite_user}
use flowra.Tag.Executor.{named}
use flowra.UseCase.Dispatch.{Surroundings, dispatch, execute_command}
use flowra.UseCase.Dispatching.{Becomes, execute_command-load, invite_user_fails}

abbrev everyone : Uuid → Option Bool
everyone u = some true

abbrev renaming : ChatCommand
renaming = rename_chat_command (text "c1") (text "Plan") (text "bob")

-- The chat as the use case loads it, and as it saves it.
abbrev loaded : Chat
loaded = after empty_chat (load in_memory a_clock one_chat.store (text "c1"))

abbrev renamed_chat : Chat
renamed_chat = after loaded (step an_env (call_of renaming) loaded)

renaming-valid : validate renaming ≡ ok tt
unfolding validate validate_required validate_max_length byte_length
renaming-valid = refl

renaming-assignee : validate_assignee everyone renaming ≡ ok tt
unfolding validate_assignee
renaming-assignee = refl

loaded-load : load in_memory a_clock one_chat.store (text "c1") ≡ ok loaded
unfolding new_chat raise apply_event save stored with_read_model with_delivery save_events find put
    same load load_events
loaded-load = refl

renamed_chat-step : step an_env (call_of renaming) loaded ≡ ok renamed_chat
unfolding step rename
renamed_chat-step = refl

execute-load_example :
    (r' : Repo in_memory) × (e : Chat) × (execute in_memory everyone a_config all_well a_clock
        an_env renaming one_chat
      ≡ ok (r', mark_events_as_committed renamed_chat))
    × (load in_memory a_clock r'.store (text "c1") ≡ ok e)
    × (e.uncommitted_events ≡ [])
    × (forget e ≡ forget renamed_chat)
execute-load_example =
    execute-load in_memory everyone a_config all_well a_clock a_clock an_env renaming one_chat
      loaded renamed_chat renaming-valid renaming-assignee one_chat-stored one_chat-IsHistory
      loaded-load renamed_chat-step

creation-valid : validate_create (text "w1") bug (text "Login fails") (text "ann") ≡ ok tt
unfolding validate_create validate_required validate_max_length byte_length
creation-valid = refl

nothing_yet : in_memory.history empty_repo.store an_env.new_id ≡ []
unfolding find
nothing_yet = refl

create_chat-load_example :
    (r' : Repo in_memory) × (d : Chat) × (e : Chat) × (create_chat in_memory a_config all_well
        an_env an_env an_env
        (text "w1")
        bug
        true
        (text "Login fails")
        (text "ann")
        empty_repo
      ≡ ok (r', d))
    × (d.chat_type ≡ bug)
    × (d.title ≡ text "Login fails")
    × (load in_memory a_clock r'.store an_env.new_id ≡ ok e)
    × (forget e ≡ forget d)
create_chat-load_example =
    create_chat-load in_memory a_config all_well a_clock an_env an_env an_env (text "w1") bug true
      (text "Login fails") (text "ann") empty_repo creation-valid refl nothing_yet

-- The surroundings of a tag's command: nobody else is at work.
abbrev alone : Surroundings in_memory everyone
alone = record {
  config = a_config;
  answers = λ n. all_well;
  env = λ n. an_env;
  clock = λ n. a_clock;
  meanwhile = λ n r. r;
  is_done = λ n. false;
}

abbrev named_user : Text → Option Uuid
named_user u = some u

abbrev a_title : Command
a_title = change_title (text "c1") (text "Plan")

a_title-Becomes : Becomes in_memory everyone named_user (text "bob") a_title renaming
unfolding dispatch
a_title-Becomes = inr refl

execute_command-load_example :
    (t : Repo in_memory) × (e : Chat) × (execute_command in_memory everyone named_user alone
        (text "bob")
        a_title
        (one_chat, 0)
      ≡ (ok tt, (t, 1)))
    × (load in_memory a_clock t.store (text "c1") ≡ ok e)
    × (forget e ≡ forget renamed_chat)
execute_command-load_example =
    execute_command-load in_memory everyone named_user alone a_clock (text "bob") a_title renaming
      one_chat loaded renamed_chat a_title-Becomes renaming-valid renaming-assignee one_chat-stored
      one_chat-IsHistory loaded-load renamed_chat-step

invite_user_fails_example :
    (execute_command in_memory everyone named_user alone
      (text "ann")
      (invite_user (text "c1") (text "@bob"))
      (one_chat, 0)).0
    ≡ err (named failed)
invite_user_fails_example =
    invite_user_fails in_memory everyone named_user alone (text "ann") (text "c1") (text "@bob")
      one_chat
