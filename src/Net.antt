-- ===== src/Net.antt =====
-- The parts of Go's net packages that the gateway uses, as of the Go 1.18 it is built with.
pub mod Url
pub mod Headers
pub mod Http
