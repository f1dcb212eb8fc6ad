-- ===== src/Host/Store.antt =====
-- waserver/src/storage.rs, the tables `invites` and `guests` of a share's state database and the
-- methods of `StateDb` on them.
pub mod Db
pub mod Calls
pub mod Effects
pub mod Integrity
pub mod Writes
pub mod Redemption
pub mod History
pub mod SingleUse
pub mod Bindings
pub mod Guarantees
pub mod Revocation
pub mod Invitation
