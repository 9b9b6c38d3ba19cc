-- ===== src/UseCase/Dispatch.antt =====
-- internal/domain/tag/executor.go: Execute, which hands the command of a tag to the use case of the chat, and the methods
-- that it calls. A google/uuid identity and its text are one.
use flowra.Base.{
  ℕ, suc, Text, Uuid, text, same, is_empty, Bool, ◌||◌, Option, none, some, Result, ok, err,
  if◌then◌else◌,
}
use flowra.Errs.{Error, failed}
use flowra.Text.{trim_prefix}
use flowra.Chat.Types.{Event, Chat, Env, other}
use flowra.Store.Events.{EventStore}
use flowra.Store.Repository.{Config, Answers, Repo}
use flowra.Tag.Types.{
  Command, create_task, create_bug, create_epic, change_status, assign_user, change_priority,
  set_due_date, change_title, set_severity, invite_user, remove_user, close_chat, reopen_chat,
  delete_chat,
}
use flowra.Tag.Executor.{Failure, named, Retried, retry}
use flowra.UseCase.Commands.{
  AppError, of_chat, ChatCommand, add_participant_command, remove_participant_command,
  convert_to_task_command, convert_to_bug_command, convert_to_epic_command, change_status_command,
  assign_user_command, set_priority_command, set_due_date_command, set_severity_command,
  rename_chat_command,
}
use flowra.UseCase.Execute.{execute}
use flowra.UseCase.Close

-- What a method of the executor does: it calls a use case once, calls one again while there are conflicts, finds no user by
-- the name, or returns an error at once.
pub data Dispatched : Type 0 where
  once again : ChatCommand → Dispatched
  closing reopening : Uuid → Uuid → Dispatched
  user_not_found not_implemented : Dispatched

-- The code point of '@'.
abbrev pub at_sign : ℕ
at_sign = 64

module _ (find_user : Text → Option Uuid) where
  -- executeAssignUser, as far as the user's name decides: `find_user` is FindByUsername.
  abbrev pub assigning : Uuid → Uuid → Text → Dispatched
  assigning id actor u =
      if is_empty u || same u (text "@none")
      then again (assign_user_command id none actor)
      else elim (find_user (trim_prefix u at_sign)) [
        | none ↦ user_not_found
        | some x ↦ again (assign_user_command id (some x) actor)
      ]

  -- executeInviteUser
  abbrev pub inviting : Uuid → Uuid → Text → Dispatched
  inviting id actor u = elim (find_user (trim_prefix u at_sign)) [
    | none ↦ user_not_found
    | some x ↦ again (add_participant_command id x (other (text "Member")) actor)
  ]

  -- executeRemoveUser
  abbrev pub removing : Uuid → Uuid → Text → Dispatched
  removing id actor u = elim (find_user (trim_prefix u at_sign)) [
    | none ↦ user_not_found
    | some x ↦ again (remove_participant_command id x actor)
  ]

  -- The switch of Execute, with the use case's command that each method makes.
  unfoldable pub dispatch : Uuid → Command → Dispatched
  dispatch actor (create_task id t) = once (convert_to_task_command id t actor)
  dispatch actor (create_bug id t) = once (convert_to_bug_command id t actor)
  dispatch actor (create_epic id t) = once (convert_to_epic_command id t actor)
  dispatch actor (change_status id s) = again (change_status_command id s actor)
  dispatch actor (assign_user id u) = assigning id actor u
  dispatch actor (change_priority id p) = again (set_priority_command id p actor)
  dispatch actor (set_due_date id d) = again (set_due_date_command id d actor)
  dispatch actor (change_title id t) = again (rename_chat_command id t actor)
  dispatch actor (set_severity id s) = again (set_severity_command id s actor)
  dispatch actor (invite_user id u) = inviting id actor u
  dispatch actor (remove_user id u) = removing id actor u
  dispatch actor (close_chat id) = closing id actor
  dispatch actor (reopen_chat id) = reopening id actor
  dispatch actor (delete_chat id) = not_implemented

-- What errors.Is sees of an error of a use case.
abbrev pub as_error : AppError → Error
as_error (of_chat e) = e
as_error _ = failed

module _ (es : EventStore) (user_exists : Uuid → Option Bool) where
  -- What surrounds the attempts, by their number: the answers, the clocks, and what other users do to the stores before
  -- the attempt; and whether the context has ended behind it.
  pub record Surroundings : Type 0 where
    pub config : Config
    pub answers : ℕ → Answers
    pub env : ℕ → Env
    pub clock : ℕ → Event → ℕ
    pub meanwhile : ℕ → Repo es → Repo es
    pub is_done : ℕ → Bool

  -- The stores and the number of attempts made.
  abbrev pub Session : Type 0
  Session = Repo es × ℕ

  abbrev pub settled :
      Repo es → ℕ → Result AppError (Repo es × Chat) → Result Error (Unit {0}) × Session
  settled r n (ok (t, c)) = (ok tt, (t, suc n))
  settled r n (err e) = (err (as_error e), (r, suc n))

  -- One call of a use case.
  unfoldable pub attempt : Surroundings → ChatCommand → Session → Result Error (Unit {0}) × Session
  attempt around cmd (r, n) =
      let s = around.meanwhile n r in
      settled s n (
        execute es user_exists around.config (around.answers n) (around.clock n) (around.env n) cmd
          s)

  abbrev pub settled_store :
      Repo es → ℕ → Result AppError (es.State × Chat) → Result Error (Unit {0}) × Session
  settled_store r n (ok (t, c)) = (ok tt, (record r { store = t }, suc n))
  settled_store r n (err e) = (err (as_error e), (r, suc n))

  -- One call of CloseChat.
  unfoldable pub attempt_close :
      Surroundings → Uuid → Uuid → Session → Result Error (Unit {0}) × Session
  attempt_close around id actor (r, n) =
      let s = around.meanwhile n r in
      settled_store s n (Close.close_chat es (around.clock n) (around.env n) id actor s.store)

  -- One call of ReopenChat.
  unfoldable pub attempt_reopen :
      Surroundings → Uuid → Uuid → Session → Result Error (Unit {0}) × Session
  attempt_reopen around id actor (r, n) =
      let s = around.meanwhile n r in
      settled_store s n (Close.reopen_chat es (around.clock n) (around.env n) id actor s.store)

  -- An error that is returned as it is.
  abbrev pub plain : Result Error (Unit {0}) × Session → Result Failure (Unit {0}) × Session
  plain (ok _, s) = (ok tt, s)
  plain (err e, s) = (err (named e), s)

  abbrev pub ended : Retried Session → Result Failure (Unit {0}) × Session
  ended r = (r.result, r.state)

  unfoldable pub carry_out :
      Surroundings → Dispatched → Session → Result Failure (Unit {0}) × Session
  carry_out around (once cmd) s = plain (attempt around cmd s)
  carry_out around (again cmd) s = ended (retry (attempt around cmd) around.is_done s)
  carry_out around (closing id actor) s =
      ended (retry (attempt_close around id actor) around.is_done s)
  carry_out around (reopening id actor) s =
      ended (retry (attempt_reopen around id actor) around.is_done s)
  carry_out around user_not_found s = (err (named failed), s)
  carry_out around not_implemented s = (err (named failed), s)

  -- Execute of CommandExecutor
  unfoldable pub execute_command :
      (Text → Option Uuid)
      → Surroundings
      → Uuid
      → Command
      → Session
      → Result Failure (Unit {0}) × Session
  execute_command find_user around actor cmd s = carry_out around (dispatch find_user actor cmd) s
