-- ===== src/UseCase/Close.antt =====
-- internal/application/chat/close_chat.go and reopen_chat.go, with loadAggregate of helpers.go: the use cases that go by
-- the event store itself.
use flowra.Base.{ℕ, Text, Uuid, text, List, [], ◌∷◌, Result, ok, err, ◌>>=◌, ◌>>◌}
use flowra.Chat.Types.{Event, Chat, Env}
use flowra.Chat.Apply.{replay}
use flowra.Chat.Lifecycle.{Call, close_call, reopen_call, step}
use flowra.Store.Events.{EventStore, StoreError}
use flowra.Store.Repository.{save_aggregate}
use flowra.UseCase.Commands.{AppError, chat_not_found, validate_required}
use flowra.UseCase.Execute.{wrapped}

-- loadAggregate, by the result of LoadEvents.
abbrev pub aggregate_of : (Event → ℕ) → Result StoreError (List Event) → Result AppError Chat
aggregate_of clock (ok []) = err chat_not_found
aggregate_of clock (ok (e ∷ evs)) = ok (replay clock (e ∷ evs))
aggregate_of clock (err e) = err chat_not_found

module _ (es : EventStore) where
  open es use {State, load_events}

  -- loadAggregate
  unfoldable pub load_aggregate : (Event → ℕ) → State → Uuid → Result AppError Chat
  load_aggregate clock s id = aggregate_of clock (load_events s id)

  -- Execute of a use case that closes or reopens: the user's field has the given name.
  unfoldable pub end_chat :
      Text → Call → (Event → ℕ) → Env → Uuid → Uuid → State → Result AppError (State × Chat)
  end_chat field call clock env id by s = do
    validate_required (text "chatID") id
    validate_required field by
    c ← load_aggregate clock s id
    d ← wrapped (step env call c)
    wrapped (save_aggregate es s d id)

  -- Execute of CloseChatUseCase
  abbrev pub close_chat : (Event → ℕ) → Env → Uuid → Uuid → State → Result AppError (State × Chat)
  close_chat clock env id by s = end_chat (text "closedBy") (close_call by) clock env id by s

  -- Execute of ReopenChatUseCase
  abbrev pub reopen_chat : (Event → ℕ) → Env → Uuid → Uuid → State → Result AppError (State × Chat)
  reopen_chat clock env id by s = end_chat (text "reopenedBy") (reopen_call by) clock env id by s
