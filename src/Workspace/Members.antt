-- ===== src/Workspace/Members.antt =====
-- internal/domain/workspace/member.go: the members of a workspace and what their roles allow.
use flowra.Base.{ℕ, Text, Uuid, Bool, true, false}

-- `type Role string`: the three constants, and any other string.
pub data Role : Type 0 where
  owner admin member : Role
  other : Text → Role

-- IsValid of Role
unfoldable pub role_is_valid : Role → Bool
role_is_valid owner = true
role_is_valid admin = true
role_is_valid member = true
role_is_valid (other _) = false

pub record Member : Type 0 where
  pub user_id : Uuid
  pub workspace_id : Uuid
  pub role : Role
  pub joined_at : ℕ

-- NewMember
abbrev pub new_member : ℕ → Uuid → Uuid → Role → Member
new_member now user ws role = record {
  user_id = user;
  workspace_id = ws;
  role = role;
  joined_at = now;
}
