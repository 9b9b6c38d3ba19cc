-- ===== src/Workspace.antt =====
-- The workspaces and their invitations: internal/domain/workspace, internal/application/workspace and the
-- documents of internal/infrastructure/repository/mongodb/workspace_repository.go.
pub mod Invite
pub mod Members
pub mod Limits
pub mod Documents
pub mod Repository
pub mod Accept
pub mod Create
pub mod Accepting
pub mod Creating
pub mod Manage
pub mod Inviting
pub mod Examples
