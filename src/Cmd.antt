-- ===== src/Cmd.antt =====
-- cmd/decision-gateway: the flags, the composition of the handlers, and the life of the process.
pub mod Flags
pub mod Args
pub mod Mux
pub mod Compose
pub mod Run
