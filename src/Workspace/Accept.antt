-- ===== src/Workspace/Accept.antt =====
-- internal/application/workspace/accept_invite.go: Execute of AcceptInviteUseCase.
use flowra.Base.{
  ℕ, Text, Uuid, text, Bool, not, ◌∷◌, Result, ok, err, ◌>>=◌, ◌>>◌, fail_if, if◌then◌else◌,
}
use flowra.Workspace.Invite.{Invite, Workspace, use_invite, is_valid}
use flowra.Workspace.Repository.{
  AppError, context_ended, workspace_not_found, invite_not_found, invite_expired, invite_revoked,
  keycloak_user_add_failed, Collection, Answers, wrapped, or_else, required, World, find_workspace,
  find_invite, save,
}

module _ (is_uuid : Text → Bool) (coll : Collection) where
  open coll use {State, find_by_id, find_by_token, put}

  -- What an invitation that IsValid refuses is answered with.
  abbrev pub refusal : Invite → AppError
  refusal i = if i.is_revoked then invite_revoked else invite_expired

  -- Execute of AcceptInviteUseCase up to Save: `now` is the clock at IsValid, `later` at Use. The invitation that
  -- is used is the one that FindInviteByToken made, the workspace that is saved the one that FindByID made.
  unfoldable pub accepted :
      Answers → ℕ → ℕ → Text → Uuid → State → Result AppError (Workspace × State)
  accepted ans now later token user s = do
    fail_if ans.context_ended context_ended
    required (text "token") token
    required (text "userID") user
    i ← or_else invite_not_found (find_invite is_uuid coll ans.find_invite_fails s token)
    fail_if (not (is_valid now i)) (refusal i)
    w ←
        or_else workspace_not_found
          (find_workspace is_uuid coll ans.find_workspace_fails s i.workspace_id)
    used ← wrapped (use_invite later i)
    stored ← wrapped (save is_uuid coll ans.save_fails s w)
    ok (w, stored)

  -- The rest: a failed AddUserToGroup does not undo the Save.
  abbrev pub grouped :
      Answers
      → Uuid
      → World is_uuid coll
      → Result AppError (Workspace × State)
      → Result AppError Workspace × World is_uuid coll
  grouped ans user s (err e) = (err e, s)
  grouped ans user s (ok (w, stored)) =
      if ans.add_user_fails then (err keycloak_user_add_failed, record s { store = stored }) else (
        ok w,
        record s { store = stored; group_users = (w.keycloak_group_id, user) ∷ s.group_users },
      )

  -- Execute of AcceptInviteUseCase
  unfoldable pub accept_invite :
      Answers
      → ℕ
      → ℕ
      → Text
      → Uuid
      → World is_uuid coll
      → Result AppError Workspace × World is_uuid coll
  accept_invite ans now later token user s =
      grouped ans user s (accepted ans now later token user s.store)
