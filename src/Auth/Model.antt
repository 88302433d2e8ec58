-- ===== src/Auth/Model.antt =====
-- packages/auth/src/auth-store.js: the five tables of auth.sqlite with the constraints of their
-- CREATE TABLE statements, and what a method may throw. A time is its number of milliseconds since
-- 1970; a text column that may be NULL is an Option.
use dp_beget_bridge.Base.{ℕ, String, Bool, true, false, Option, List, []}

pub data Code : Type 0 where
  invalid_auth_record invalid_refresh_token invalid_client invalid_owner : Code
  invalid_bootstrap owner_already_exists bootstrap_unavailable bootstrap_expired : Code
  bootstrap_denied owner_not_bootstrapped client_conflict invalid_grant invalid_scope : Code
  invalid_token_family auth_storage_failure refresh_inactive refresh_reuse_detected : Code

-- `authError(code, message, status)` without its message, the errors of SQLite that the schema's
-- constraints cause, and the plain `Error` that a lost update throws.
pub data AuthError : Type 0 where
  auth_error : Code → ℕ → AuthError
  unique_violation foreign_key_violation lost_update : AuthError

-- status IN ('ACTIVE','DISABLED'), for owners and clients
pub data Standing : Type 0 where
  active disabled : Standing

pub data GrantStatus : Type 0 where
  active expired revoked : GrantStatus

pub data FamilyStatus : Type 0 where
  active expired revoked compromised reset : FamilyStatus

pub data TokenStatus : Type 0 where
  active consumed revoked : TokenStatus

-- The column `singleton` is 1 in every row, so it is left out: UNIQUE(singleton) is that there is
-- one row.
pub record Owner : Type 0 where
  pub id : String
  pub created_at : ℕ
  pub bootstrap_digest : String
  pub bootstrap_expires_at : ℕ
  pub bootstrap_consumed_at : Option ℕ
  pub status : Standing

pub record Client : Type 0 where
  pub client_id : String
  pub owner_id : String
  pub redirect_uri : String
  pub created_at : ℕ
  pub status : Standing

pub record Grant : Type 0 where
  pub id : String
  pub owner_id : String
  pub client_id : String
  pub resource : String
  pub scopes : List String
  pub execution_profile : String
  pub granted_at : ℕ
  pub expires_at : ℕ
  pub status : GrantStatus

pub record Family : Type 0 where
  pub id : String
  pub grant_id : String
  pub owner_id : String
  pub client_id : String
  pub resource : String
  pub created_at : ℕ
  pub expires_at : ℕ
  pub status : FamilyStatus
  pub revoked_at : Option ℕ
  pub revoke_reason : Option String
  pub current_generation : ℕ

pub record Token : Type 0 where
  pub digest : String
  pub family_id : String
  pub generation : ℕ
  pub issued_at : ℕ
  pub expires_at : ℕ
  pub consumed_at : Option ℕ
  pub status : TokenStatus

pub record AuthDb : Type 0 where
  pub owners : List Owner
  pub clients : List Client
  pub grants : List Grant
  pub families : List Family
  pub tokens : List Token

abbrev pub empty : AuthDb
empty = record { owners = []; clients = []; grants = []; families = []; tokens = [] }

-- status = 'ACTIVE'
abbrev pub is_active : Standing → Bool
is_active Standing.active = true
is_active Standing.disabled = false

abbrev pub grant_active : GrantStatus → Bool
grant_active GrantStatus.active = true
grant_active _ = false

abbrev pub family_active : FamilyStatus → Bool
family_active FamilyStatus.active = true
family_active _ = false

-- status IN ('ACTIVE','COMPROMISED')
abbrev pub family_open : FamilyStatus → Bool
family_open FamilyStatus.active = true
family_open FamilyStatus.compromised = true
family_open _ = false

abbrev pub token_active : TokenStatus → Bool
token_active TokenStatus.active = true
token_active _ = false
