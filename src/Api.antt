-- ===== src/Api.antt =====
-- internal/httpapi: the endpoints that the gateway answers itself.
pub mod Json
pub mod Utf8
pub mod Health
pub mod Routes
