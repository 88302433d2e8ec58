-- ===== src/Oauth.antt =====
-- packages/auth/src/oauth-spike.js: the OAuth server over the auth store.
pub mod Model
pub mod Authorize
pub mod Tokens
pub mod Access
pub mod Calls
pub mod Codes
pub mod Bearer
pub mod Approvals
