-- ===== src/Middleware.antt =====
-- backend/pkg/middleware: what stands between the HTTP server and the handlers.
pub mod User
pub mod Limits
pub mod Authentication
