-- ===== src/Sdk.antt =====
-- The SDK of guest nodes, `sdk`.
pub mod Pairing
pub mod Proxy
pub mod Client
pub mod GuestCalls
pub mod GuestNode
pub mod Store
pub mod Transports
