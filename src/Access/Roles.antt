-- ===== src/Access/Roles.antt =====
-- The roles as the strings they are: internal/domain/workspace/member.go and ParseRole of
-- internal/handler/http/workspace_handler.go.
use flowra.Base.{Text, text, same, Bool, ◌||◌, Option, none, some, if◌then◌else◌}
use flowra.Workspace.Members.{Role, owner, admin, member, other, Member}

-- String of Role
unfoldable pub role_text : Role → Text
role_text owner = text "owner"
role_text admin = text "admin"
role_text member = text "member"
role_text (other t) = t

-- `r == RoleOwner`
unfoldable pub is_owner : Role → Bool
is_owner r = same (role_text r) (text "owner")

-- IsAdmin of Member
unfoldable pub is_admin_member : Member → Bool
is_admin_member m = is_owner m.role || same (role_text m.role) (text "admin")

-- WithRole
abbrev pub with_role : Member → Role → Member
with_role m r = record m { role = r }

-- ParseRole
unfoldable pub parse_role : Text → Option Role
parse_role t =
    if same t (text "owner")
    then some owner
    else if same t (text "admin")
    then some admin
    else if same t (text "member")
    then some member
    else none
