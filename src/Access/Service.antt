-- ===== src/Access/Service.antt =====
-- The members in the repository (internal/infrastructure/repository/mongodb/workspace_repository.go) and
-- MemberService (internal/service/member_service.go) over it.
use flowra.Base.{
  ℕ, Text, Uuid, is_empty, same, Bool, true, false, ◌&&◌, ◌||◌, Option, none, some, List, [], ◌∷◌,
  Result, ok, err, ◌>>=◌, ◌>>◌, fail_if, if◌then◌else◌,
}
use flowra.Errs.{Error, invalid_input, not_found, already_exists, forbidden, failed}
use flowra.Workspace.Members.{Role, Member, new_member}
use flowra.Workspace.Repository.{Collection, World, find_workspace, add_member}
use flowra.Access.Roles.{is_owner, with_role}

-- Whether the database fails: at FindByID, at each GetMember of one request, and at the write.
pub record Faults : Type 0 where
  pub find_workspace_fails : Bool
  pub get_member_fails : ℕ → Bool
  pub write_fails : Bool

-- The filter of GetMember, UpdateMember and RemoveMember
abbrev pub matches : Uuid → Uuid → Member → Bool
matches ws u m = same m.workspace_id ws && same m.user_id u

-- FindOne
unfoldable pub find_member : List Member → Uuid → Uuid → Option Member
find_member [] ws u = none
find_member (m ∷ ms) ws u =
    let rest = find_member ms ws u in if matches ws u m then some m else rest

-- DeleteOne
unfoldable pub delete_one : List Member → Uuid → Uuid → List Member
delete_one [] ws u = []
delete_one (m ∷ ms) ws u = let rest = delete_one ms ws u in if matches ws u m then ms else m ∷ rest

-- UpdateOne that sets the role
unfoldable pub set_role : List Member → Uuid → Uuid → Role → List Member
set_role [] ws u r = []
set_role (m ∷ ms) ws u r =
    let rest = set_role ms ws u r in if matches ws u m then with_role m r ∷ ms else m ∷ rest

-- The member that a query found, or ErrNotFound.
abbrev pub found : Option Member → Result Error Member
found none = err not_found
found (some m) = ok m

-- GetMember of the repository, with ReconstructMember
unfoldable pub get_member : Bool → List Member → Uuid → Uuid → Result Error Member
get_member failing ms ws u = do
  fail_if (is_empty ws || is_empty u) invalid_input
  fail_if failing failed
  m ← found (find_member ms ws u)
  ok (record m { user_id = u; workspace_id = ws })

-- UpdateMember of the repository
unfoldable pub update_member : Bool → List Member → Member → Result Error (List Member)
update_member failing ms m = do
  fail_if (is_empty m.user_id || is_empty m.workspace_id) invalid_input
  fail_if failing failed
  found (find_member ms m.workspace_id m.user_id) >>= λ _.
      ok (set_role ms m.workspace_id m.user_id m.role)

-- RemoveMember of the repository
unfoldable pub remove_member : Bool → List Member → Uuid → Uuid → Result Error (List Member)
remove_member failing ms ws u = do
  fail_if (is_empty ws || is_empty u) invalid_input
  fail_if failing failed
  found (find_member ms ws u) >>= λ _. ok (delete_one ms ws u)

-- `errors.Is(err, errs.ErrNotFound)`
abbrev pub is_not_found : Error → Bool
is_not_found not_found = true
is_not_found _ = false

-- What AddMember makes of the answer of GetMember.
abbrev pub not_yet : Result Error Member → Result Error (Unit {0})
not_yet (ok m) = err already_exists
not_yet (err e) = if is_not_found e then ok tt else err e

-- IsOwner of the service: its answer where there is no error.
unfoldable pub owns : Bool → List Member → Uuid → Uuid → Bool
owns failing ms ws u = elim (get_member failing ms ws u) [ ok m ↦ is_owner m.role | err e ↦ false ]

module _ (is_uuid : Text → Bool) (coll : Collection) where
  -- AddMember of the service
  unfoldable pub add_to_workspace :
      Faults
      → ℕ
      → ℕ
      → Uuid
      → Uuid
      → Role
      → World is_uuid coll
      → Result Error (Member × World is_uuid coll)
  add_to_workspace f nth now ws u role s = do
    w ← find_workspace is_uuid coll f.find_workspace_fails s.store ws
    not_yet (get_member (f.get_member_fails nth) s.members ws u)
    t ← add_member is_uuid coll f.write_fails (new_member now u ws role) s
    ok (new_member now u ws role, t)

-- RemoveMember of the service: `nth` counts the calls of GetMember of the request.
unfoldable pub remove_from_workspace :
    Faults → ℕ → Uuid → Uuid → List Member → Result Error (List Member)
remove_from_workspace f nth ws u ms = do
  m ← get_member (f.get_member_fails nth) ms ws u
  fail_if (is_owner m.role) forbidden
  remove_member f.write_fails ms ws u

-- UpdateMemberRole of the service
unfoldable pub update_member_role :
    Faults → ℕ → Uuid → Uuid → Role → List Member → Result Error (Member × List Member)
update_member_role f nth ws u role ms = do
  m ← get_member (f.get_member_fails nth) ms ws u
  fail_if (is_owner m.role) forbidden
  fail_if (is_owner role) forbidden
  t ← update_member f.write_fails ms (with_role m role)
  ok (with_role m role, t)
