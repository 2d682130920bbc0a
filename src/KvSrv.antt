-- ===== src/KvSrv.antt =====
-- The versioned key/value service: src/kvsrv1, and src/models1 that its histories are checked by.
pub mod Rpc
pub mod Server
pub mod Model
pub mod Laws
pub mod Refine
pub mod Clerk
pub mod Lock
mod Tests
