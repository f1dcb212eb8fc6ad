-- ===== src/Wire.antt =====
-- The wire contract between guest nodes and the host node.
pub mod Activation
pub mod Transport
pub mod Invite
pub mod Streams
pub mod Share
pub mod Origin
pub mod ConfigHash
pub mod Framing
