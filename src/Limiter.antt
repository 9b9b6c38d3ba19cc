-- ===== src/Limiter.antt =====
-- The limit on the rate of requests: internal/middleware/rate_limit.go.
pub mod Limit
pub mod Window
mod Examples
