-- ===== src/UseCase/Dispatching.antt =====
-- What the executor of tag commands leaves behind, and the command that it never carries out.
use flowra.Base.{
  ℕ, suc, Text, Uuid, text, is_empty, Bool, Bool-cases, Option, Option-cases, none, some, [], ◌≡◌,
  ◌≢◌, refl, ap, ◌∙◌, ◌⊎◌, inl, inr, arith, Result, ok, err,
}
use flowra.Errs.{Error, failed}
use flowra.Text.{trim_prefix}
use flowra.Chat.Types.{Event, Chat, other}
use flowra.Chat.Apply.{mark_events_as_committed}
use flowra.Chat.Lifecycle.{step}
use flowra.Chat.Replay.{forget}
use flowra.Store.Events.{EventStore}
use flowra.Store.Histories.{IsHistory}
use flowra.Store.Repository.{Repo, load}
use flowra.Tag.Types.{Command, invite_user}
use flowra.Tag.Executor.{named, after_attempt, retry_from, retry}
use flowra.UseCase.Commands.{
  ChatCommand, add_participant_command, call_of, chat_id_of, validate, validate_required,
  validate_assignee, invalid_field,
}
use flowra.UseCase.Execute.{execute}
use flowra.UseCase.Carrying.{execute-load}
use flowra.UseCase.Dispatch.{
  once, again, user_not_found, dispatch, at_sign, Surroundings, attempt, carry_out, plain,
  execute_command,
}

-- A loop of retries whose first attempt settles it ends with that attempt.
retry_succeeds {ℓ} :
    {S : Type ℓ} (operation : S → Result Error (Unit {0}) × S) (is_done : ℕ → Bool) (s t : S)
    → operation s ≡ (ok tt, t)
    → ((retry operation is_done s).result ≡ ok tt) × ((retry operation is_done s).state ≡ t)
unfolding retry retry_from after_attempt
retry_succeeds operation is_done s t h = rw h (refl, refl)

retry_fails {ℓ} :
    {S : Type ℓ} (operation : S → Result Error (Unit {0}) × S) (is_done : ℕ → Bool) (s t : S)
    → operation s ≡ (err failed, t)
    → (retry operation is_done s).result ≡ err (named failed)
unfolding retry retry_from after_attempt
retry_fails operation is_done s t h = rw h refl

-- No use case admits the role "Member".
validate-member :
    (id u by : Uuid)
    → (f : Text) × (validate (add_participant_command id u (other (text "Member")) by)
        ≡ err (invalid_field f))
unfolding validate validate_required
validate-member id u by = elim (Bool-cases (is_empty id)) [
  | inl p ↦ (text "chatID", ground arith)
  | inr p ↦ elim (Bool-cases (is_empty u)) [
    | inl q ↦ (text "userID", ground arith)
    | inr q ↦ elim (Bool-cases (is_empty by)) [
      | inl r ↦ (text "addedBy", ground arith)
      | inr r ↦ (text "role", ground arith)
    ]
  ]
]

module _ (es : EventStore) (user_exists : Uuid → Option Bool) (find_user : Text → Option Uuid) where
  open es use {history}

  attempt_invalid :
      (around : Surroundings es user_exists) (cmd : ChatCommand) (r : Repo es) (n : ℕ) (f : Text)
      → validate cmd ≡ err (invalid_field f)
      → attempt es user_exists around cmd (r, n) ≡ (err failed, (around.meanwhile n r, suc n))
  unfolding attempt execute
  attempt_invalid around cmd r n f h = rw h refl

  attempt_succeeds :
      (around : Surroundings es user_exists) (cmd : ChatCommand) (r t : Repo es) (n : ℕ) (c : Chat)
      → execute es user_exists around.config
          (around.answers n)
          (around.clock n)
          (around.env n)
          cmd
          (around.meanwhile n r)
        ≡ ok (t, c)
      → attempt es user_exists around cmd (r, n) ≡ (ok tt, (t, suc n))
  unfolding attempt
  attempt_succeeds around cmd r t n c h = rw h refl

  inviting_none :
      (actor id : Uuid) (u : Text)
      → find_user (trim_prefix u at_sign) ≡ none
      → dispatch find_user actor (invite_user id u) ≡ user_not_found
  unfolding dispatch
  inviting_none actor id u p = ground arith

  inviting_some :
      (actor id : Uuid) (u : Text) (x : Uuid)
      → find_user (trim_prefix u at_sign) ≡ some x
      → dispatch find_user actor (invite_user id u)
        ≡ again (add_participant_command id x (other (text "Member")) actor)
  unfolding dispatch
  inviting_some actor id u x p = ground arith

  -- The tag that invites a user fails, whoever is named, whoever sends it, whatever is stored: the role that the executor
  -- writes in the command is none that the use case admits.
  pub invite_user_fails :
      (around : Surroundings es user_exists) (actor id : Uuid) (u : Text) (r : Repo es)
      → (execute_command es user_exists find_user around actor (invite_user id u) (r, 0)).0
        ≡ err (named failed)
  unfolding execute_command carry_out
  invite_user_fails around actor id u r = elim (Option-cases (find_user (trim_prefix u at_sign))) [
    | inl p ↦ ap (λ d. (carry_out es user_exists around d (r, 0)).0) (inviting_none actor id u p)
    | inr (x, p) ↦
        let cmd = add_participant_command id x (other (text "Member")) actor in
        let (f, v) = validate-member id x actor in
        ap (λ d. (carry_out es user_exists around d (r, 0)).0) (inviting_some actor id u x p)
        ∙ retry_fails (attempt es user_exists around cmd) around.is_done (r, 0)
            (around.meanwhile 0 r, 1) (attempt_invalid around cmd r 0 f v)
  ]

  -- The one command of the use cases that a tag's command becomes.
  abbrev pub Becomes : Uuid → Command → ChatCommand → Type 0
  Becomes actor tag cmd =
      (dispatch find_user actor tag ≡ once cmd) ⊎ (dispatch find_user actor tag ≡ again cmd)

  carried_out :
      (around : Surroundings es user_exists) (actor : Uuid) (tag : Command) (cmd : ChatCommand)
      (r t : Repo es) (c : Chat)
      → Becomes actor tag cmd
      → execute es user_exists around.config
          (around.answers 0)
          (around.clock 0)
          (around.env 0)
          cmd
          (around.meanwhile 0 r)
        ≡ ok (t, c)
      → execute_command es user_exists find_user around actor tag (r, 0) ≡ (ok tt, (t, 1))
  unfolding execute_command carry_out
  carried_out around actor tag cmd r t c becomes h =
      let one = attempt_succeeds around cmd r t 0 c h in
      let (q, s) =
        retry_succeeds (attempt es user_exists around cmd) around.is_done (r, 0) (t, 1) one in
      elim becomes [
        | inl p ↦
            ap (λ d. carry_out es user_exists around d (r, 0)) p ∙ ap (plain es user_exists) one
        | inr p ↦ ap (λ d. carry_out es user_exists around d (r, 0)) p ∙ (λ i. (q i, s i))
      ]

  -- A tag whose command is valid and whose method succeeds on the stored chat is carried out by the first attempt, where the
  -- chat's history is well formed when this attempt begins, whatever other users did before: the executor
  -- reports success, and the next load of the chat, at any clock, gives the chat as the method left it, up
  -- to joining times. (The tags that close, reopen and delete go other ways.)
  pub execute_command-load :
      (around : Surroundings es user_exists) (clock : Event → ℕ) (actor : Uuid) (tag : Command)
      (cmd : ChatCommand) (r : Repo es) (c d : Chat)
      → Becomes actor tag cmd
      → validate cmd ≡ ok tt
      → validate_assignee user_exists cmd ≡ ok tt
      → history (around.meanwhile 0 r).store (chat_id_of cmd) ≢ []
      → IsHistory (chat_id_of cmd) (history (around.meanwhile 0 r).store (chat_id_of cmd))
      → load es (around.clock 0) (around.meanwhile 0 r).store (chat_id_of cmd) ≡ ok c
      → step (around.env 0) (call_of cmd) c ≡ ok d
      → (t : Repo es) × (e : Chat) × (execute_command es user_exists find_user around actor tag
            (r, 0)
          ≡ (ok tt, (t, 1)))
        × (load es clock t.store (chat_id_of cmd) ≡ ok e)
        × (forget e ≡ forget d)
  execute_command-load around clock actor tag cmd r c d becomes v a ne w l s =
      let (t, e, h, ld, _, f) =
        execute-load es user_exists around.config (around.answers 0) (around.clock 0) clock
          (around.env 0) cmd (around.meanwhile 0 r) c d v a ne w l s in
      (t, e, carried_out around actor tag cmd r t (mark_events_as_committed d) becomes h, ld, f)
