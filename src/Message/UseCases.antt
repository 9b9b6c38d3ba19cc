-- ===== src/Message/UseCases.antt =====
-- internal/application/message: Execute of the use cases that send, edit and delete a message and change its reactions
-- and attachments, over any repository of messages; with the events of internal/domain/message/events.go.
use flowra.Base.{
  ℕ, ℤ, Text, Uuid, is_empty, same, Bool, not, Option, none, some, List, ◌∷◌, ◌≡◌, Result, ok, err,
  ◌>>=◌, ◌>>◌, fail_if, exists, if◌then◌else◌,
}
use flowra.Errs.{Error}
use flowra.Chat.Types.{ChatType, Participant}
use flowra.Message.Types.{or_user, Message}
use flowra.Message.Methods.{new_message_with_type, step}
use flowra.Message.Commands.{
  AppError, chat_not_found, not_chat_participant, parent_not_found, parent_in_different_chat,
  message_not_found, save_failed, of_domain, SendMessageCommand, MessageCommand,
  edit_message_command, delete_message_command, add_reaction_command, remove_reaction_command,
  add_attachment_command, message_id_of, call_of, validate, check_message, validate_send,
}

-- events.go: what each event carries beside the base event.
pub data Payload : Type 0 where
  created : Uuid → Uuid → Text → Uuid → ℕ → Payload
  edited : Text → ℕ → Payload
  deleted : Uuid → ℕ → Payload
  reaction_added reaction_removed : Uuid → Text → ℕ → Payload
  attachment_added : Uuid → Text → ℤ → Text → ℕ → Payload

-- The base event, always of version 1, with the user and the timestamp of its metadata.
pub record MessageEvent : Type 0 where
  pub aggregate_id : Uuid
  pub occurred_at : ℕ
  pub user_id : Uuid
  pub timestamp : Option ℕ
  pub payload : Payload

-- repository.go: FindByID and Save, which may fail. A saved message is found under its identity, and nothing else changes.
pub record MessageRepository : Type 1 where
  pub State : Type 0
  pub find_by_id : State → Uuid → Option Message
  pub save : State → Message → Option State
  pub find-save :
      (s t : State) (m : Message) (id : Uuid)
      → save s m ≡ some t
      → find_by_id t id ≡ (if same m.id id then some m else find_by_id s id)

-- What is read of the read model of a chat.
pub record ReadModel : Type 0 where
  pub chat_type : ChatType
  pub participants : List Participant

-- The clock at the method, at the event and in its base, and the result of uuid.NewUUID.
pub record Env : Type 0 where
  pub now : ℕ
  pub raised_at : ℕ
  pub occurred_at : ℕ
  pub new_id : Uuid

-- isParticipant
abbrev pub is_participant : ReadModel → Uuid → Bool
is_participant c u = exists (λ (p : Participant). same p.user_id u) c.participants

-- A result of the domain, in the application's errors.
abbrev pub wrapped {ℓ} : {A : Type ℓ} → Result Error A → Result AppError A
wrapped (ok a) = ok a
wrapped (err e) = err (of_domain e)

-- A query that finds something, or an error.
abbrev pub found {ℓ} : {A : Type ℓ} → AppError → Option A → Result AppError A
found e (some a) = ok a
found e none = err e

-- The event that the use case publishes once it has saved the message.
unfoldable pub event_of : Env → MessageCommand → Message → MessageEvent
event_of env (edit_message_command id c by) m = record {
  aggregate_id = m.id;
  occurred_at = env.occurred_at;
  user_id = by;
  timestamp = m.edited_at;
  payload = edited c env.raised_at;
}
event_of env (delete_message_command id by) m = record {
  aggregate_id = m.id;
  occurred_at = env.occurred_at;
  user_id = by;
  timestamp = m.deleted_at;
  payload = deleted by env.raised_at;
}
event_of env (add_reaction_command id e u) m = record {
  aggregate_id = m.id;
  occurred_at = env.occurred_at;
  user_id = u;
  timestamp = none;
  payload = reaction_added u e env.raised_at;
}
event_of env (remove_reaction_command id e u) m = record {
  aggregate_id = m.id;
  occurred_at = env.occurred_at;
  user_id = u;
  timestamp = none;
  payload = reaction_removed u e env.raised_at;
}
event_of env (add_attachment_command id f n s t u) m = record {
  aggregate_id = m.id;
  occurred_at = env.occurred_at;
  user_id = u;
  timestamp = none;
  payload = attachment_added f n s t env.raised_at;
}

module _ (repo : MessageRepository) where
  open repo use {State, find_by_id, save}

  -- The stored messages, the events on the bus, newest first, and the messages whose tags are to be processed by a
  -- goroutine, with the chat's type.
  pub record World : Type 0 where
    pub store : State
    pub published : List MessageEvent
    pub detached : List (Message × ChatType)

  -- Execute on an existing message, up to Save.
  unfoldable pub changed : Env → MessageCommand → State → Result AppError (Message × State)
  changed env cmd s = do
    validate cmd
    m ← found message_not_found (find_by_id s (message_id_of cmd))
    check_message cmd m
    n ← wrapped (step (call_of env.now cmd) m)
    t ← found save_failed (save s n)
    ok (n, t)

  -- The rest: `delivered` where Publish succeeds, whose error is ignored.
  abbrev pub announced :
      Bool
      → (Message → MessageEvent)
      → World
      → Result AppError (Message × State)
      → Result AppError Message × World
  announced delivered event s (err e) = (err e, s)
  announced delivered event s (ok (n, t)) = (
    ok n,
    record s { store = t; published = if delivered then event n ∷ s.published else s.published },
  )

  -- Execute of EditMessage, DeleteMessage, AddReaction, RemoveReaction and AddAttachment.
  unfoldable pub execute : Env → Bool → MessageCommand → World → Result AppError Message × World
  execute env delivered cmd s = announced delivered (event_of env cmd) s (changed env cmd s.store)

  -- The check of the parent message, of a message that replies.
  unfoldable pub check_parent : State → Uuid → Uuid → Result AppError (Unit {0})
  check_parent s chat parent =
      if is_empty parent
      then ok tt
      else (found parent_not_found (find_by_id s parent) >>= λ m.
          fail_if (not (same m.chat_id chat)) parent_in_different_chat)

  -- Execute of SendMessageUseCase up to Save. `chats` is FindByID of the read models of the chats.
  unfoldable pub sent :
      (Uuid → Option ReadModel)
      → Env
      → SendMessageCommand
      → State
      → Result AppError (ChatType × Message × State)
  sent chats env cmd s = do
    validate_send cmd
    c ← found chat_not_found (chats cmd.chat_id)
    fail_if (not (is_participant c cmd.author_id)) not_chat_participant
    check_parent s cmd.chat_id cmd.parent_message_id
    m ← wrapped (
        new_message_with_type env.now env.new_id cmd.chat_id cmd.author_id cmd.content
          cmd.parent_message_id (or_user cmd.msg_type) cmd.actor_id)
    t ← found save_failed (save s m)
    ok (c.chat_type, m, t)

  -- The event of a message that was sent.
  abbrev pub created_event : Env → SendMessageCommand → Message → MessageEvent
  created_event env cmd m = record {
    aggregate_id = m.id;
    occurred_at = env.occurred_at;
    user_id = cmd.author_id;
    timestamp = some m.created_at;
    payload = created cmd.chat_id cmd.author_id cmd.content cmd.parent_message_id env.raised_at;
  }

  -- The rest: the event, and the message handed to the processing of tags where the use case was made with it.
  abbrev pub handed_on :
      Bool
      → Bool
      → Env
      → SendMessageCommand
      → World
      → Result AppError (ChatType × Message × State)
      → Result AppError Message × World
  handed_on has_tags delivered env cmd s (err e) = (err e, s)
  handed_on has_tags delivered env cmd s (ok (ty, m, t)) = (
    ok m,
    record s {
      store = t;
      published = if delivered then created_event env cmd m ∷ s.published else s.published;
      detached = if has_tags then (m, ty) ∷ s.detached else s.detached;
    },
  )

  -- Execute of SendMessageUseCase
  unfoldable pub send_message :
      (Uuid → Option ReadModel)
      → Bool
      → Bool
      → Env
      → SendMessageCommand
      → World
      → Result AppError Message × World
  send_message chats has_tags delivered env cmd s =
      handed_on has_tags delivered env cmd s (sent chats env cmd s.store)
