-- ===== src/Auth.antt =====
-- packages/auth/src/auth-store.js
pub mod Model
pub mod Platform
pub mod Owners
pub mod Clients
pub mod Scopes
pub mod Grants
pub mod Families
pub mod Rotation
pub mod Revocation
pub mod Consistent
pub mod Calls
pub mod Context
