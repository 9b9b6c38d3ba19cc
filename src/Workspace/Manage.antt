-- ===== src/Workspace/Manage.antt =====
-- internal/application/workspace: Execute of the use cases that rename a workspace (update_workspace.go) and that create
-- (create_invite.go) and revoke (revoke_invite.go) an invitation.
use flowra.Base.{
  ℕ, ◌+◌, ℤ, pos, Text, Uuid, text, same, Bool, Option, none, some, List, [], ◌∷◌, Result, ok, err,
  ◌>>=◌, ◌>>◌, fail_if, ltb, if◌then◌else◌,
}
use flowra.Errs.{Error}
use flowra.UseCase.Commands.{byte_length}
use flowra.Workspace.Invite.{Invite, Workspace, Env, update_name, is_negative, revoke}
use flowra.Workspace.Invite
use flowra.Workspace.Documents.{WorkspaceDocument, document_to_workspace}
use flowra.Workspace.Repository.{
  AppError, invalid_field, context_ended, workspace_not_found, invite_not_found, Collection,
  Answers, wrapped, or_else, required, find_workspace, save,
}
use flowra.Workspace.Create.{max_name_length}

-- ValidateDateNotPast, at `now`
abbrev pub validate_date : ℕ → Text → Option ℕ → Result AppError (Unit {0})
validate_date now field none = ok tt
validate_date now field (some at) = fail_if (ltb at now) (invalid_field field)

-- ValidateNonNegative, of a value that may be missing
abbrev pub validate_uses : Text → Option ℤ → Result AppError (Unit {0})
validate_uses field none = ok tt
validate_uses field (some n) = fail_if (is_negative n) (invalid_field field)

-- Seven days, in seconds
abbrev pub default_expiry : ℕ
default_expiry = 604800000000000

-- getExpiresAt, at `now`
abbrev pub get_expires_at : ℕ → Option ℕ → ℕ
get_expires_at now none = now + default_expiry
get_expires_at now (some at) = at

-- getMaxUses
abbrev pub get_max_uses : Option ℤ → ℤ
get_max_uses none = pos 0
get_max_uses (some n) = n

-- The invitations behind the first, after a change of one of them.
abbrev pub behind :
    Invite
    → Option (Result Error (Invite × List Invite))
    → Option (Result Error (Invite × List Invite))
behind i none = none
behind i (some (ok (j, js))) = some (ok (j, i ∷ js))
behind i (some (err e)) = some (err e)

abbrev pub replaced : List Invite → Result Error Invite → Result Error (Invite × List Invite)
replaced is (ok j) = ok (j, j ∷ is)
replaced is (err e) = err e

-- Revoke, of the first invitation with the identity, in its place among the workspace's; none where there is no such one.
unfoldable pub revoke_in : List Invite → Uuid → Option (Result Error (Invite × List Invite))
revoke_in [] id = none
revoke_in (i ∷ is) id =
    let rest = behind i (revoke_in is id) in
    if same i.id id then some (replaced is (revoke i)) else rest

-- maxWorkspaces
abbrev pub max_workspaces : ℕ
max_workspaces = 1000

module _ (is_uuid : Text → Bool) (coll : Collection) where
  open coll use {State, find_page}

  -- Execute of UpdateWorkspaceUseCase
  unfoldable pub update_workspace :
      Answers → Env → Uuid → Text → Uuid → State → Result AppError (Workspace × State)
  update_workspace ans env id name by s = do
    fail_if ans.context_ended context_ended
    required (text "workspaceID") id
    required (text "name") name
    fail_if (ltb max_name_length (byte_length name)) (invalid_field (text "name"))
    required (text "updatedBy") by
    w ← or_else workspace_not_found (find_workspace is_uuid coll ans.find_workspace_fails s id)
    v ← wrapped (update_name env name w)
    stored ← wrapped (save is_uuid coll ans.save_fails s v)
    ok (v, stored)

  -- Execute of CreateInviteUseCase: `now` is the clock at the validation, `later` at getExpiresAt.
  unfoldable pub create_invite :
      Answers
      → Env
      → ℕ
      → ℕ
      → Uuid
      → Option ℕ
      → Option ℤ
      → Uuid
      → State
      → Result AppError (Invite × State)
  create_invite ans env now later id expires uses by s = do
    fail_if ans.context_ended context_ended
    required (text "workspaceID") id
    required (text "createdBy") by
    validate_date now (text "expiresAt") expires
    validate_uses (text "maxUses") uses
    w ← or_else workspace_not_found (find_workspace is_uuid coll ans.find_workspace_fails s id)
    p ← wrapped (Invite.create_invite env by (get_expires_at later expires) (get_max_uses uses) w)
    stored ← wrapped (save is_uuid coll ans.save_fails s p.0)
    ok (p.1, stored)

  -- List of the repository, which skips the documents that do not convert.
  unfoldable pub list_workspaces : List WorkspaceDocument → List Workspace
  list_workspaces [] = []
  list_workspaces (d ∷ ds) = elim (document_to_workspace is_uuid d) [
    | ok w ↦ w ∷ list_workspaces ds
    | err e ↦ list_workspaces ds
  ]

  abbrev pub with_invites :
      Workspace → Result Error (Invite × List Invite) → Result Error (Invite × Workspace)
  with_invites w (ok (i, is)) = ok (i, record w { invites = is })
  with_invites w (err e) = err e

  -- findInviteByID, and Revoke on what it finds: the invitation and its workspace, which holds it.
  unfoldable pub revoke_by_id : List Workspace → Uuid → Result AppError (Invite × Workspace)
  revoke_by_id [] id = err invite_not_found
  revoke_by_id (w ∷ ws) id =
      let rest = revoke_by_id ws id in
      elim (revoke_in w.invites id) [ none ↦ rest | some r ↦ wrapped (with_invites w r) ]

  -- Execute of RevokeInviteUseCase: `failing` where the query for the workspaces fails.
  unfoldable pub revoke_invite :
      Answers → Bool → Uuid → Uuid → State → Result AppError (Invite × State)
  revoke_invite ans failing id by s = do
    fail_if ans.context_ended context_ended
    required (text "inviteID") id
    required (text "revokedBy") by
    fail_if failing invite_not_found
    p ← revoke_by_id (list_workspaces (find_page s 0 max_workspaces)) id
    stored ← wrapped (save is_uuid coll ans.save_fails s p.1)
    ok (p.0, stored)
