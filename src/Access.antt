-- ===== src/Access.antt =====
-- Who may enter a workspace and who manages its members: internal/service/member_service.go,
-- internal/service/workspace_access_checker.go, internal/middleware/workspace.go and the handlers of the members in
-- internal/handler/http/workspace_handler.go.
pub mod Roles
pub mod Service
pub mod Middleware
pub mod Handlers
pub mod Owners
pub mod Granting
pub mod Strangers
pub mod Routing
mod Examples
