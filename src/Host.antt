-- ===== src/Host.antt =====
-- The host node, `waserver`.
pub mod Store
pub mod Config
pub mod ReverseProxy
pub mod GuestApi
pub mod Protocol
pub mod Connection
pub mod Serving
