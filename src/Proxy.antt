-- ===== src/Proxy.antt =====
-- internal/proxy: the reverse-proxy adapter around the router, and the holder that swaps it.
pub mod Transport
pub mod Build
pub mod Forward
pub mod Serve
pub mod Holder
pub mod Relayed
