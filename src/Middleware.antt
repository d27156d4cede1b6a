-- ===== src/Middleware.antt =====
-- internal/middleware: correlation IDs and the access log.
pub mod Names
pub mod Uuid
pub mod CorrelationId
pub mod AccessLog
