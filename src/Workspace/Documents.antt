-- ===== src/Workspace/Documents.antt =====
-- internal/infrastructure/repository/mongodb/workspace_repository.go: the documents of the workspaces, and the
-- conversions. `is_uuid` tells the strings that the package google/uuid parses.
use flowra.Base.{
  ℕ, ◌*◌, ◌/◌, ℤ, Text, Uuid, Bool, ◌&&◌, List, [], ◌∷◌, ◌≡◌, refl, arith, map, Result, ok, err,
  ◌>>=◌, keep, if◌then◌else◌, same, true, false,
}
use flowra.Errs.{Error, invalid_input}
use flowra.Workspace.Invite.{Invite, Workspace}

pub record InviteDocument : Type 0 where
  pub invite_id : Text
  pub workspace_id : Text
  pub token : Text
  pub created_by : Text
  pub created_at : ℕ
  pub expires_at : ℕ
  pub max_uses : ℤ
  pub used_count : ℕ
  pub is_revoked : Bool

pub record WorkspaceDocument : Type 0 where
  pub workspace_id : Text
  pub name : Text
  pub description : Text
  pub keycloak_group_id : Text
  pub created_by : Text
  pub created_at : ℕ
  pub updated_at : ℕ
  pub invites : List InviteDocument

-- The body of the loop of workspaceToDocument.
abbrev pub invite_to_document : Invite → InviteDocument
invite_to_document i = record {
  invite_id = i.id;
  workspace_id = i.workspace_id;
  token = i.token;
  created_by = i.created_by;
  created_at = i.created_at;
  expires_at = i.expires_at;
  max_uses = i.max_uses;
  used_count = i.used_count;
  is_revoked = i.is_revoked;
}

-- workspaceToDocument
abbrev pub workspace_to_document : Workspace → WorkspaceDocument
workspace_to_document w = record {
  workspace_id = w.id;
  name = w.name;
  description = w.description;
  keycloak_group_id = w.keycloak_group_id;
  created_by = w.created_by;
  created_at = w.created_at;
  updated_at = w.updated_at;
  invites = map invite_to_document w.invites;
}

-- What MongoDB keeps of a document: its dates count milliseconds, an instant of the program nanoseconds.
abbrev pub in_millis : ℕ → ℕ
in_millis t = t / 1000000

abbrev pub in_nanos : ℕ → ℕ
in_nanos t = t * 1000000

abbrev pub invite_in : (ℕ → ℕ) → InviteDocument → InviteDocument
invite_in f d = record d { created_at = f d.created_at; expires_at = f d.expires_at }

abbrev pub document_in : (ℕ → ℕ) → WorkspaceDocument → WorkspaceDocument
document_in f d = record d {
  created_at = f d.created_at;
  updated_at = f d.updated_at;
  invites = map (invite_in f) d.invites;
}

-- A document as it comes back from the database.
abbrev pub kept_document : WorkspaceDocument → WorkspaceDocument
kept_document d = document_in in_nanos (document_in in_millis d)

-- An invitation with the token is among them.
unfoldable pub has_token : List InviteDocument → Text → Bool
has_token [] t = false
has_token (d ∷ ds) t = if same d.token t then true else has_token ds t

pub has_token-in :
    (f : ℕ → ℕ) (ds : List InviteDocument) (t : Text)
    → has_token (map (invite_in f) ds) t ≡ has_token ds t
unfolding has_token
has_token-in f [] t = refl
has_token-in f (d ∷ ds) t = ground (arith, has_token-in f ds t)

millis_nanos : (n : ℕ) → in_millis (in_nanos n) ≡ n
millis_nanos n = omega arith

invites_back :
    (ds : List InviteDocument) → map (invite_in in_millis) (map (invite_in in_nanos) ds) ≡ ds
invites_back [] = refl
invites_back (d ∷ ds) =
    ground (arith, millis_nanos d.created_at, millis_nanos d.expires_at, invites_back ds)

pub millis-nanos : (d : WorkspaceDocument) → document_in in_millis (document_in in_nanos d) ≡ d
millis-nanos d =
    ground (arith, millis_nanos d.created_at, millis_nanos d.updated_at, invites_back d.invites)

-- A workspace and an invitation with their times as the database keeps them.
abbrev pub kept_time : ℕ → ℕ
kept_time t = in_nanos (in_millis t)

abbrev pub kept_invite : Invite → Invite
kept_invite i = record i {
  created_at = kept_time i.created_at;
  expires_at = kept_time i.expires_at;
}

abbrev pub kept_workspace : Workspace → Workspace
kept_workspace w = record w {
  created_at = kept_time w.created_at;
  updated_at = kept_time w.updated_at;
  invites = map kept_invite w.invites;
}

kept-invites :
    (is : List Invite)
    → map (invite_in in_nanos) (map (invite_in in_millis) (map invite_to_document is))
      ≡ map invite_to_document (map kept_invite is)
kept-invites [] = refl
kept-invites (i ∷ is) = ground (arith, kept-invites is)

pub kept-workspace_to_document :
    (w : Workspace)
    → kept_document (workspace_to_document w) ≡ workspace_to_document (kept_workspace w)
kept-workspace_to_document w = ground (arith, kept-invites w.invites)

pub has_token-kept :
    (is : List Invite) (t : Text)
    → has_token (map invite_to_document (map kept_invite is)) t
      ≡ has_token (map invite_to_document is) t
unfolding has_token
has_token-kept [] t = refl
has_token-kept (i ∷ is) t = ground (arith, has_token-kept is t)

module _ (is_uuid : Text → Bool) where
  -- ParseUUID, with the error that the callers put in place of its own.
  abbrev pub parse_uuid : Text → Result Error Uuid
  parse_uuid s = if is_uuid s then ok s else err invalid_input

  -- documentToInvite
  unfoldable pub document_to_invite : InviteDocument → Result Error Invite
  document_to_invite d = do
    id ← parse_uuid d.invite_id
    workspace_id ← parse_uuid d.workspace_id
    created_by ← parse_uuid d.created_by
    ok (record {
      id = id;
      workspace_id = workspace_id;
      token = d.token;
      created_by = created_by;
      created_at = d.created_at;
      expires_at = d.expires_at;
      max_uses = d.max_uses;
      used_count = d.used_count;
      is_revoked = d.is_revoked;
    })

  -- An invitation that converts is appended, another is skipped.
  abbrev pub cons_ok : Result Error Invite → List Invite → List Invite
  cons_ok (ok i) is = i ∷ is
  cons_ok (err e) is = is

  -- The loop of documentToWorkspace.
  unfoldable pub documents_to_invites : List InviteDocument → List Invite
  documents_to_invites [] = []
  documents_to_invites (d ∷ ds) = cons_ok (document_to_invite d) (documents_to_invites ds)

  -- documentToWorkspace, with Reconstruct
  unfoldable pub document_to_workspace : WorkspaceDocument → Result Error Workspace
  document_to_workspace d = do
    id ← parse_uuid d.workspace_id
    created_by ← parse_uuid d.created_by
    ok (record {
      id = id;
      name = d.name;
      description = d.description;
      keycloak_group_id = d.keycloak_group_id;
      created_by = created_by;
      created_at = d.created_at;
      updated_at = d.updated_at;
      invites = documents_to_invites d.invites;
    })

  -- The invitation's identifiers are UUIDs.
  abbrev pub has_uuids : Invite → Bool
  has_uuids i = is_uuid i.id && is_uuid i.workspace_id && is_uuid i.created_by

  documents_to_invites-map :
      (is : List Invite) → documents_to_invites (map invite_to_document is) ≡ keep has_uuids is
  unfolding documents_to_invites document_to_invite
  documents_to_invites-map [] = refl
  documents_to_invites-map (i ∷ is) = ground (arith, documents_to_invites-map is)

  -- What comes back from the document of a workspace: the workspace itself, less the invitations of which some
  -- identifier is not a UUID, which are dropped with no error; and ErrInvalidInput where its own identifier
  -- or its creator's is not one.
  pub document_to_workspace-workspace_to_document :
      (w : Workspace)
      → document_to_workspace (workspace_to_document w) ≡ (
          if is_uuid w.id && is_uuid w.created_by
          then ok (record w { invites = keep has_uuids w.invites })
          else err invalid_input)
  unfolding document_to_workspace
  document_to_workspace-workspace_to_document w = ground (arith, documents_to_invites-map w.invites)
