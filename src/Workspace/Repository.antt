-- ===== src/Workspace/Repository.antt =====
-- internal/infrastructure/repository/mongodb/workspace_repository.go over the collection of the workspaces, and the errors of
-- internal/application/workspace, whose use cases call it.
use flowra.Base.{
  ℕ, Text, Uuid, is_empty, same, Bool, not, Option, none, some, List, [], ◌∷◌, ◌≡◌, Result, ok, err,
  ◌>>◌, fail_if, if◌then◌else◌, keep, ◌&&◌, false, true,
}
use flowra.Errs.{Error, invalid_input, not_found, failed}
use flowra.Workspace.Invite.{Invite, Workspace}
use flowra.Workspace.Members.{Member}
use flowra.Workspace.Documents.{
  kept_document, has_token, InviteDocument, WorkspaceDocument, workspace_to_document,
  document_to_invite, document_to_workspace,
}

-- A ValidationError by its field, the error of an ended context, the errors of errors.go, the one of a failed
-- AddMember, or what the domain or the repository returned.
pub data AppError : Type 0 where
  invalid_field : Text → AppError
  context_ended : AppError
  workspace_not_found invite_not_found invite_expired invite_revoked : AppError
  keycloak_group_creation_failed keycloak_user_add_failed : AppError
  of_domain : Error → AppError

-- The collection of the workspaces, which MongoDB keeps, with what the repository relies on.
pub record Collection : Type 1 where
  pub State : Type 0
  -- FindOne by the workspace's identifier
  pub find_by_id : State → Text → Option WorkspaceDocument
  -- FindOne by the token of an invitation
  pub find_by_token : State → Text → Option WorkspaceDocument
  -- UpdateOne with $set and upsert, by the workspace's identifier
  pub put : State → Text → WorkspaceDocument → State
  -- Find of all, with an offset and a limit, in the order of the repository's pages
  pub find_page : State → ℕ → ℕ → List WorkspaceDocument
  -- What was put is found with its dates in milliseconds.
  pub find-put :
      (s : State) (k : Text) (d : WorkspaceDocument)
      → find_by_id (put s k d) k ≡ some (kept_document d)
  -- A $set of the values that are stored changes nothing.
  pub put_found :
      (s : State) (k : Text) (d : WorkspaceDocument) → find_by_id s k ≡ some d → put s k d ≡ s
  -- FindOne by a token finds a document where one has it, and no other has it where none had it before the put.
  pub token-none :
      (s : State) (t k : Text) (d : WorkspaceDocument)
      → find_by_token s t ≡ none
      → find_by_id s k ≡ some d
      → has_token d.invites t ≡ false
  pub token-put :
      (s : State) (k t : Text) (d : WorkspaceDocument)
      → find_by_token s t ≡ none
      → has_token d.invites t ≡ true
      → find_by_token (put s k d) t ≡ some (kept_document d)

-- What the context, the database and Keycloak answer during one use case.
pub record Answers : Type 0 where
  pub context_ended : Bool
  pub find_invite_fails : Bool
  pub find_workspace_fails : Bool
  pub save_fails : Bool
  pub add_member_fails : Bool
  pub new_group : Option Text
  pub delete_group_fails : Bool
  pub add_user_fails : Bool

-- A wrapped error of the domain or the repository.
abbrev pub wrapped {ℓ} : {A : Type ℓ} → Result Error A → Result AppError A
wrapped (ok a) = ok a
wrapped (err e) = err (of_domain e)

-- An error in place of whatever error there was.
abbrev pub or_else {ℓ} : {A : Type ℓ} → AppError → Result Error A → Result AppError A
or_else e (ok a) = ok a
or_else e (err _) = err e

-- ValidateRequired and ValidateUUID
abbrev pub required : Text → Text → Result AppError (Unit {0})
required field value = fail_if (is_empty value) (invalid_field field)

-- The filter of AddMember
abbrev pub same_member : Member → Member → Bool
same_member m n = same m.workspace_id n.workspace_id && same m.user_id n.user_id

-- The members that the filter of AddMember does not match.
unfoldable pub others : Member → List Member → List Member
others m ms = keep (λ n. not (same_member m n)) ms

module _ (is_uuid : Text → Bool) (coll : Collection) where
  open coll use {State, find_by_id, find_by_token, put}

  -- The collection of the workspaces, that of their members, and the groups of Keycloak with their users, each
  -- list newest first.
  pub record World : Type 0 where
    pub store : State
    pub members : List Member
    pub groups : List Text
    pub group_users : List (Text × Uuid)

  -- FindByID of the repository: `failing` where the database fails.
  unfoldable pub find_workspace : Bool → State → Uuid → Result Error Workspace
  find_workspace failing s id = do
    fail_if (is_empty id) invalid_input
    fail_if failing failed
    elim (find_by_id s id) [ none ↦ err not_found | some d ↦ document_to_workspace is_uuid d ]

  -- The loop of FindInviteByToken of the repository.
  unfoldable pub token_in : List InviteDocument → Text → Result Error Invite
  token_in [] token = err not_found
  token_in (d ∷ ds) token =
      if same d.token token then document_to_invite is_uuid d else token_in ds token

  -- FindInviteByToken of the repository
  unfoldable pub find_invite : Bool → State → Text → Result Error Invite
  find_invite failing s token = do
    fail_if (is_empty token) invalid_input
    fail_if failing failed
    elim (find_by_token s token) [ none ↦ err not_found | some d ↦ token_in d.invites token ]

  -- Save of the repository
  unfoldable pub save : Bool → State → Workspace → Result Error State
  save failing s w = do
    fail_if (is_empty w.id) invalid_input
    fail_if failing failed
    ok (put s w.id (workspace_to_document w))

  -- AddMember of the repository: an UpdateOne with upsert
  unfoldable pub add_member : Bool → Member → World → Result Error World
  add_member failing m s = do
    fail_if (is_empty m.user_id) invalid_input
    fail_if (is_empty m.workspace_id) invalid_input
    fail_if failing failed
    ok (record s { members = m ∷ others m s.members })
