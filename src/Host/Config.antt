-- ===== src/Host/Config.antt =====
-- waserver/src/config.rs: a share's `share.toml`, parsed and validated.
pub mod Names
pub mod Types
pub mod Hash
pub mod Parse
pub mod Valid
pub mod Lookup
