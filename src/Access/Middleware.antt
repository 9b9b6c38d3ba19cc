-- ===== src/Access/Middleware.antt =====
-- internal/middleware/workspace.go over the RealWorkspaceAccessChecker of internal/service/workspace_access_checker.go.
use flowra.Base.{
  Text, Uuid, text, is_empty, contains, Bool, true, false, ◌&&◌, not, Option, List, [], ◌∷◌, Result,
  ok, err, ◌>>=◌, ◌>>◌, fail_if, if◌then◌else◌,
}
use flowra.Errs.{Error}
use flowra.Workspace.Invite.{Workspace}
use flowra.Workspace.Members.{Member}
use flowra.Workspace.Repository.{Collection, World, find_workspace}
use flowra.Access.Roles.{role_text}
use flowra.Access.Service.{Faults, get_member, is_not_found}

-- ErrWorkspaceIDRequired, ErrInvalidWorkspaceID, ErrWorkspaceNotFound, ErrNotWorkspaceMember and
-- ErrInsufficientPermissions
pub data Denial : Type 0 where
  workspace_id_required invalid_workspace_id workspace_not_found : Denial
  not_workspace_member insufficient_permissions : Denial

-- WorkspaceConfig, with an access checker
pub record Config : Type 0 where
  pub required_roles : List Text
  pub allow_system_admin : Bool

-- What the handlers read of a request: c.Param, which answers with "" for a name that the route does not have,
-- GetUserID, IsSystemAdmin, and the fields of the body, none where Bind fails.
pub record Request : Type 0 where
  pub param : Text → Text
  pub user : Uuid
  pub is_system_admin : Bool
  pub body : Option (Uuid × Text)

-- What WorkspaceAccess sets in the context.
pub record Granted : Type 0 where
  pub workspace_id : Uuid
  pub workspace_name : Text
  pub workspace_role : Text

-- An error of FindByID as GetMembership returns it: ErrWorkspaceNotFound, or another.
abbrev pub of_workspace : Result Error Workspace → Result Denial Workspace
of_workspace (ok w) = ok w
of_workspace (err e) = err (if is_not_found e then workspace_not_found else not_workspace_member)

-- A member, or what WorkspaceAccess answers where there is none or the database fails.
abbrev pub of_member : Result Error Member → Result Denial Member
of_member (ok m) = ok m
of_member (err e) = err not_workspace_member

-- `len(requiredRoles) > 0` and the lookup
abbrev pub lacks_role : List Text → Text → Bool
lacks_role [] r = false
lacks_role (q ∷ qs) r = not (contains (q ∷ qs) r)

module _ (is_uuid : Text → Bool) (coll : Collection) where
  -- WorkspaceExists, an error of which WorkspaceAccess answers as it does a missing workspace.
  unfoldable pub workspace_exists : Faults → World is_uuid coll → Uuid → Bool
  workspace_exists f s ws = elim (find_workspace is_uuid coll f.find_workspace_fails s.store ws) [
    | ok w ↦ true
    | err e ↦ false
  ]

  -- GetMembership, with the answers of WorkspaceAccess to its errors and to a missing member.
  unfoldable pub get_membership : Faults → World is_uuid coll → Uuid → Uuid → Result Denial Granted
  get_membership f s ws u = do
    w ← of_workspace (find_workspace is_uuid coll f.find_workspace_fails s.store ws)
    m ← of_member (get_member (f.get_member_fails 0) s.members ws u)
    ok (record { workspace_id = ws; workspace_name = w.name; workspace_role = role_text m.role })

  -- What a system administrator enters with.
  unfoldable pub entered_by_admin : Faults → World is_uuid coll → Uuid → Result Denial Granted
  entered_by_admin f s ws = do
    fail_if (not (workspace_exists f s ws)) workspace_not_found
    ok (record { workspace_id = ws; workspace_name = []; workspace_role = text "admin" })

  -- What anybody else enters with.
  unfoldable pub entered_by_member :
      Config → Faults → Request → World is_uuid coll → Uuid → Result Denial Granted
  entered_by_member c f req s ws = do
    fail_if (is_empty req.user) insufficient_permissions
    g ← get_membership f s ws req.user
    fail_if (lacks_role c.required_roles g.workspace_role) insufficient_permissions
    ok g

  -- WorkspaceAccess up to the call of the next handler
  unfoldable pub workspace_access :
      Config → Faults → Request → World is_uuid coll → Result Denial Granted
  workspace_access c f req s = do
    fail_if (is_empty (req.param (text "workspace_id"))) workspace_id_required
    fail_if (not (is_uuid (req.param (text "workspace_id")))) invalid_workspace_id
    elim (c.allow_system_admin && req.is_system_admin) [
      | true ↦ entered_by_admin f s (req.param (text "workspace_id"))
      | false ↦ entered_by_member c f req s (req.param (text "workspace_id"))
    ]

-- RequireWorkspaceRole
unfoldable pub require_workspace_role : List Text → Granted → Result Denial (Unit {0})
require_workspace_role roles g =
    fail_if (not (contains roles g.workspace_role)) insufficient_permissions

-- RequireWorkspaceAdmin
unfoldable pub require_workspace_admin : Granted → Result Denial (Unit {0})
require_workspace_admin = require_workspace_role (text "owner" ∷ text "admin" ∷ [])
