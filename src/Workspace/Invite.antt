-- ===== src/Workspace/Invite.antt =====
-- internal/domain/workspace/workspace.go: workspaces, their invitations, and the methods on them. Times are
-- instants, in nanoseconds by ℕ; a count of uses is taken not to reach the bound of int.
use flowra.Base.{
  ℕ, ◌+◌, ℤ, pos, negsuc, Text, Uuid, same, is_empty, Bool, true, false, ◌&&◌, List, [], ◌∷◌, ◌++◌,
  ltb, leb, Result, ok, err, ◌>>=◌, ◌>>◌, fail_if, if◌then◌else◌,
}
use flowra.Errs.{Error, invalid_input, not_found, invalid_state}

pub record Invite : Type 0 where
  pub id : Uuid
  pub workspace_id : Uuid
  pub token : Text
  pub created_by : Uuid
  pub created_at : ℕ
  pub expires_at : ℕ
  pub max_uses : ℤ
  pub used_count : ℕ
  pub is_revoked : Bool

pub record Workspace : Type 0 where
  pub id : Uuid
  pub name : Text
  pub description : Text
  pub keycloak_group_id : Text
  pub created_by : Uuid
  pub created_at : ℕ
  pub updated_at : ℕ
  pub invites : List Invite

-- The readings of the clock and the results of uuid.NewUUID in one call of a method: the clock at the check of
-- CreateInvite, at that of NewInvite, at the creation, and at the change of the workspace.
pub record Env : Type 0 where
  pub checked_at : ℕ
  pub validated_at : ℕ
  pub created_at : ℕ
  pub updated_at : ℕ
  pub new_id : Uuid
  pub new_token : Text

-- NewWorkspace
unfoldable pub new_workspace : Env → Text → Text → Text → Uuid → Result Error Workspace
new_workspace env name description group by = do
  fail_if (is_empty name) invalid_input
  fail_if (is_empty group) invalid_input
  fail_if (is_empty by) invalid_input
  ok (record {
    id = env.new_id;
    name = name;
    description = description;
    keycloak_group_id = group;
    created_by = by;
    created_at = env.created_at;
    updated_at = env.updated_at;
    invites = [];
  })

-- UpdateName
unfoldable pub update_name : Env → Text → Workspace → Result Error Workspace
update_name env name w = do
  fail_if (is_empty name) invalid_input
  ok (record w { name = name; updated_at = env.updated_at })

-- `maxUses < 0`
abbrev pub is_negative : ℤ → Bool
is_negative (pos n) = false
is_negative (negsuc n) = true

-- NewInvite
unfoldable pub new_invite : Env → Uuid → Uuid → ℕ → ℤ → Result Error Invite
new_invite env ws by expires uses = do
  fail_if (is_empty ws) invalid_input
  fail_if (is_empty by) invalid_input
  fail_if (ltb expires env.validated_at) invalid_input
  fail_if (is_negative uses) invalid_input
  ok (record {
    id = env.new_id;
    workspace_id = ws;
    token = env.new_token;
    created_by = by;
    created_at = env.created_at;
    expires_at = expires;
    max_uses = uses;
    used_count = 0;
    is_revoked = false;
  })

-- CreateInvite: the workspace with the new invitation, and the invitation.
unfoldable pub create_invite : Env → Uuid → ℕ → ℤ → Workspace → Result Error (Workspace × Invite)
create_invite env by expires uses w = do
  fail_if (is_empty by) invalid_input
  fail_if (ltb expires env.checked_at) invalid_input
  fail_if (is_negative uses) invalid_input
  i ← new_invite env w.id by expires uses
  ok (record w { invites = w.invites ++ i ∷ []; updated_at = env.updated_at }, i)

-- The loop of FindInviteByToken.
find_token : List Invite → Text → Result Error Invite
find_token [] token = err not_found
find_token (i ∷ is) token = if same i.token token then ok i else find_token is token

-- FindInviteByToken
unfoldable pub find_invite_by_token : Workspace → Text → Result Error Invite
unfolding find_token
find_invite_by_token w token = find_token w.invites token

-- `maxUses > 0 && usedCount >= maxUses`
abbrev pub limit : ℤ → ℕ → Bool
limit (pos m) n = ltb 0 m && leb m n
limit (negsuc m) n = false

-- Use, at the instant `now`.
unfoldable pub use_invite : ℕ → Invite → Result Error Invite
use_invite now i = do
  fail_if i.is_revoked invalid_state
  fail_if (ltb i.expires_at now) invalid_state
  fail_if (limit i.max_uses i.used_count) invalid_state
  ok (record i { used_count = i.used_count + 1 })

-- Revoke
unfoldable pub revoke : Invite → Result Error Invite
revoke i = do fail_if i.is_revoked invalid_state; ok (record i { is_revoked = true })

-- IsValid, at the instant `now`.
unfoldable pub is_valid : ℕ → Invite → Bool
is_valid now i =
    if i.is_revoked
    then false
    else if ltb i.expires_at now
    then false
    else if limit i.max_uses i.used_count
    then false
    else true
