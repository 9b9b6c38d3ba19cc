-- ===== src/Access/Handlers.antt =====
-- AddMember, RemoveMember and UpdateMemberRole of internal/handler/http/workspace_handler.go.
-- Each call of GetMember within one request may fail by itself: they are numbered in their order.
use flowra.Base.{
  ℕ, Text, Uuid, text, is_empty, same, Bool, ◌&&◌, ◌||◌, not, Option, none, some, List, Result, ok,
  err, ◌>>=◌, ◌>>◌, fail_if,
}
use flowra.Errs.{Error}
use flowra.Workspace.Members.{Role, Member}
use flowra.Workspace.Repository.{Collection, World}
use flowra.Access.Roles.{is_owner, is_admin_member, parse_role}
use flowra.Access.Service.{
  Faults, get_member, owns, add_to_workspace, remove_from_workspace, update_member_role,
}
use flowra.Access.Middleware.{Request}

-- The answers by their codes.
pub data Reply : Type 0 where
  created updated : Member → Reply
  no_content unauthorized invalid_workspace_id invalid_user_id forbidden : Reply
  invalid_request validation_error cannot_remove_owner cannot_change_owner_role : Reply
  member_already_exists workspace_not_found member_not_found : Reply
  add_member_failed remove_member_failed update_role_failed : Reply

-- The errors that errors.Is is asked for, declared by the handler's package, and those of the domain and the
-- repository.
pub data ServiceError : Type 0 where
  err_member_already_exists err_workspace_not_found err_member_not_found : ServiceError
  of_service : Error → ServiceError

-- The answer to an error of each of the three operations.
abbrev pub add_error : ServiceError → Reply
add_error err_member_already_exists = member_already_exists
add_error err_workspace_not_found = workspace_not_found
add_error err_member_not_found = add_member_failed
add_error (of_service _) = add_member_failed

abbrev pub remove_error : ServiceError → Reply
remove_error err_member_not_found = member_not_found
remove_error err_workspace_not_found = workspace_not_found
remove_error err_member_already_exists = remove_member_failed
remove_error (of_service _) = remove_member_failed

abbrev pub update_error : ServiceError → Reply
update_error err_member_not_found = member_not_found
update_error err_workspace_not_found = update_role_failed
update_error err_member_already_exists = update_role_failed
update_error (of_service _) = update_role_failed

abbrev pub answered {ℓ} : {A : Type ℓ} → (ServiceError → Reply) → Result Error A → Result Reply A
answered reply (ok a) = ok a
answered reply (err e) = err (reply (of_service e))

-- Bind
abbrev pub bound : Option (Uuid × Text) → Result Reply (Uuid × Text)
bound none = err invalid_request
bound (some b) = ok b

-- ParseRole, and the role of the owner refused
abbrev pub assignable : Option Role → Result Reply Role
assignable none = err validation_error
assignable (some r) = fail_if (is_owner r) validation_error >> ok r

-- hasAdminPrivileges
unfoldable pub has_admin_privileges : Faults → Request → List Member → Uuid → Bool
has_admin_privileges f req ms ws =
    req.is_system_admin || elim (get_member (f.get_member_fails 1) ms ws req.user) [
      | ok m ↦ is_admin_member m
      | err e ↦ Bool.false
    ]

-- The start of the three handlers: the identifier of the workspace.
unfoldable pub addressed : (Text → Bool) → Request → Result Reply Uuid
addressed is_uuid req = do
  fail_if (is_empty req.user) unauthorized
  fail_if (not (is_uuid (req.param (text "id")))) invalid_workspace_id
  ok (req.param (text "id"))

-- The start of the last two of them: the identifiers of the workspace and of the user.
unfoldable pub targeted : (Text → Bool) → Request → Result Reply (Uuid × Uuid)
targeted is_uuid req = do
  ws ← addressed is_uuid req
  fail_if (not (is_uuid (req.param (text "user_id")))) invalid_user_id
  ok (ws, req.param (text "user_id"))

module _ (is_uuid : Text → Bool) (coll : Collection) where
  -- An answer ahead of the write leaves what is stored.
  abbrev pub settled :
      World is_uuid coll → Result Reply (Reply × World is_uuid coll) → Reply × World is_uuid coll
  settled s (ok r) = r
  settled s (err r) = (r, s)

  -- AddMember behind the address
  unfoldable pub add_requested :
      Faults → ℕ → Request → World is_uuid coll → Uuid → Result Reply (Reply × World is_uuid coll)
  add_requested f now req s ws = do
    fail_if (not (has_admin_privileges f req s.members ws)) forbidden
    b ← bound req.body
    fail_if (is_empty b.0) validation_error
    role ← assignable (parse_role b.1)
    r ← answered add_error (add_to_workspace is_uuid coll f 2 now ws b.0 role s)
    ok (created r.0, r.1)

  -- AddMember
  unfoldable pub handle_add_member :
      Faults → ℕ → Request → World is_uuid coll → Reply × World is_uuid coll
  handle_add_member f now req s = settled s (addressed is_uuid req >>= add_requested f now req s)

  -- RemoveMember behind the address: a user may leave without being an administrator.
  unfoldable pub remove_requested :
      Faults
      → Request
      → World is_uuid coll
      → Uuid × Uuid
      → Result Reply (Reply × World is_uuid coll)
  remove_requested f req s (ws, u) = do
    fail_if (not (same req.user u) && not (has_admin_privileges f req s.members ws)) forbidden
    fail_if (owns (f.get_member_fails 2) s.members ws u) cannot_remove_owner
    ms ← answered remove_error (remove_from_workspace f 3 ws u s.members)
    ok (no_content, record s { members = ms })

  -- RemoveMember
  unfoldable pub handle_remove_member :
      Faults → Request → World is_uuid coll → Reply × World is_uuid coll
  handle_remove_member f req s = settled s (targeted is_uuid req >>= remove_requested f req s)

  -- UpdateMemberRole behind the address
  unfoldable pub update_requested :
      Faults
      → Request
      → World is_uuid coll
      → Uuid × Uuid
      → Result Reply (Reply × World is_uuid coll)
  update_requested f req s (ws, u) = do
    fail_if (not (owns (f.get_member_fails 1) s.members ws req.user) && not req.is_system_admin)
        forbidden
    fail_if (owns (f.get_member_fails 2) s.members ws u) cannot_change_owner_role
    b ← bound req.body
    role ← assignable (parse_role b.1)
    r ← answered update_error (update_member_role f 3 ws u role s.members)
    ok (updated r.0, record s { members = r.1 })

  -- UpdateMemberRole
  unfoldable pub handle_update_member_role :
      Faults → Request → World is_uuid coll → Reply × World is_uuid coll
  handle_update_member_role f req s = settled s (targeted is_uuid req >>= update_requested f req s)
