-- ===== src/UseCase/Execute.antt =====
-- Execute of the use cases on an existing chat (internal/application/chat/add_participant.go and the like):
-- validate, load, call the method, save.
use flowra.Base.{ℕ, Uuid, Bool, Option, Result, ok, err, ◌>>=◌, ◌>>◌}
use flowra.Errs.{Error}
use flowra.Chat.Types.{Event, Chat, Env}
use flowra.Chat.Lifecycle.{step}
use flowra.Store.Events.{EventStore}
use flowra.Store.Repository.{Config, Answers, Repo, load, save}
use flowra.UseCase.Commands.{
  AppError, of_chat, ChatCommand, call_of, chat_id_of, validate, validate_assignee,
}

-- A wrapped error of the chat or the repository.
abbrev pub wrapped {ℓ} : {A : Type ℓ} → Result Error A → Result AppError A
wrapped (ok a) = ok a
wrapped (err e) = err (of_chat e)

module _ (es : EventStore) (user_exists : Uuid → Option Bool) where
  -- Execute
  unfoldable pub execute :
      Config
      → Answers
      → (Event → ℕ)
      → Env
      → ChatCommand
      → Repo es
      → Result AppError (Repo es × Chat)
  execute cfg ans clock env cmd r = do
    validate cmd
    validate_assignee user_exists cmd
    c ← wrapped (load es clock r.store (chat_id_of cmd))
    d ← wrapped (step env (call_of cmd) c)
    wrapped (save es cfg ans r d)
