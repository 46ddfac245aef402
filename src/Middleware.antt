-- ===== src/Middleware.antt =====
-- src/middleware: what stands in front of the HTTP routes.
pub mod RateLimit
