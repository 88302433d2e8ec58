-- ===== src/Auth/Revocation.antt =====
-- auth-store.js: revocation by the client and by the owner, the reset of an owner, and the summary
-- of what is still active.
pub mod Effects
use dp_beget_bridge.Base.{
  ltb, leb, eqb, if◌then◌else◌, is_some, utf16_length, any, Result, ok, err, Action, ◌>>=◌, ◌>>◌,
  pure, lift, gets, transaction, modify, require, require_some, update, count, ℕ, String, Bool,
  true, false, not, ◌&&◌, Option, none, some, ◌==◌,
}
use dp_beget_bridge.Auth.Model.{
  invalid_owner, invalid_bootstrap, invalid_grant, AuthError, auth_error, lost_update, Standing,
  GrantStatus, FamilyStatus, Owner, Client, Grant, Family, Token, AuthDb, is_active, grant_active,
  family_active, family_open, token_active,
}
use dp_beget_bridge.Auth.Platform.{
  Platform, Stamp, iso_time, hash_secret, hash_refresh_token, client_identifier,
}
use dp_beget_bridge.Auth.Owners.{owner_is, get_owner}
use dp_beget_bridge.Auth.Grants.{grant_is, select_grant, set_grants, get_grant}
use dp_beget_bridge.Auth.Families.{
  family_is, select_family, select_token, active_token_of, retire, storage_failure,
}

-- id = ? AND owner_id = ? AND status = 'ACTIVE'
abbrev pub owned_family : String → String → Family → Bool
owned_family id owner_id row =
    family_is id row && row.owner_id == owner_id && family_active row.status

unfoldable pub revoke_found :
    Option Family → String → String → ℕ → String → Action AuthDb AuthError Bool
unfolding retire
revoke_found none id owner_id at reason = pure false
revoke_found (some family) id owner_id at reason =
    if family.owner_id == owner_id
    then (do
      modify (
          retire (owned_family id owner_id) FamilyStatus.revoked at reason
            (λ _. active_token_of id))
      pure true)
    else pure false

unfoldable pub revoke_token_family : String → String → Stamp → String → Action AuthDb AuthError Bool
unfolding revoke_found
revoke_token_family family_id owner_id revoked_at reason = do
  at ← lift (iso_time revoked_at)
  family ← gets (select_family family_id)
  revoke_found family family_id owner_id at reason

abbrev pub family_of_token : Option Token → AuthDb → Option Family
family_of_token none db = none
family_of_token (some token) db = select_family token.family_id db

-- `clientId && row.client_id !== clientIdentifier(clientId)`, negated; `null` and "" are `none`
unfoldable pub client_allows : Platform → Option String → Family → Result AuthError Bool
client_allows p none family = ok true
client_allows p (some client_id) family = elim (client_identifier p client_id) [
  | ok normalized ↦ ok (family.client_id == normalized)
  | err e ↦ err e
]

unfoldable pub revoke_by_token :
    Platform → Option Family → Option String → ℕ → String → Action AuthDb AuthError Bool
unfolding client_allows client_identifier revoke_token_family
revoke_by_token p none client_id at reason = pure false
revoke_by_token p (some family) client_id at reason = do
  allowed ← lift (client_allows p client_id family)
  if allowed then revoke_token_family family.id family.owner_id (some at) reason else pure false

unfoldable pub revoke_refresh_token :
    Platform → String → Option String → Stamp → String → Action AuthDb AuthError Bool
unfolding revoke_by_token hash_refresh_token
revoke_refresh_token p refresh_token client_id revoked_at reason = do
  at ← lift (iso_time revoked_at)
  digest ← lift (hash_refresh_token p refresh_token)
  token ← gets (select_token digest)
  family ← gets (family_of_token token)
  revoke_by_token p family client_id at reason

abbrev pub revoked_grant : Grant → Grant
revoked_grant row = record row { status = GrantStatus.revoked }

-- id = ? AND owner_id = ? AND status = 'ACTIVE'
abbrev pub owned_grant : String → String → Grant → Bool
owned_grant id owner_id row = grant_is id row && row.owner_id == owner_id && grant_active row.status

-- grant_id = ? AND status IN ('ACTIVE','COMPROMISED')
abbrev pub open_family_of_grant : String → Family → Bool
open_family_of_grant grant_id row = row.grant_id == grant_id && family_open row.status

-- family_id IN (SELECT id FROM oauth_token_families WHERE …) AND status = 'ACTIVE'
abbrev pub token_in : (Family → Bool) → AuthDb → Token → Bool
token_in chosen db row =
    any (λ f. family_is row.family_id f && chosen f) db.families && token_active row.status

abbrev pub of_grant : String → Family → Bool
of_grant grant_id row = row.grant_id == grant_id

unfoldable pub revoke_grant_rows : String → String → ℕ → String → AuthDb → AuthDb
unfolding retire
revoke_grant_rows grant_id owner_id at reason db =
    retire (open_family_of_grant grant_id) FamilyStatus.revoked at reason
      (token_in (of_grant grant_id)) (set_grants (owned_grant grant_id owner_id) revoked_grant db)

unfoldable pub owned_by : Option Grant → String → Bool
owned_by none owner_id = false
owned_by (some grant) owner_id = grant.owner_id == owner_id

unfoldable pub revoke_grant :
    String → String → Stamp → String → Action AuthDb AuthError (Option Grant)
unfolding owned_by revoke_grant_rows get_grant
revoke_grant grant_id owner_id revoked_at reason = do
  at ← lift (iso_time revoked_at)
  grant ← gets (select_grant grant_id)
  require (owned_by grant owner_id) (auth_error invalid_grant 404)
  modify (revoke_grant_rows grant_id owner_id at reason)
  get_grant grant_id (some at)

-- owner_id = ? AND status = 'ACTIVE'
abbrev pub active_grant_of : String → Grant → Bool
active_grant_of owner_id row = row.owner_id == owner_id && grant_active row.status

-- owner_id = ? AND status IN ('ACTIVE','COMPROMISED')
abbrev pub open_family_of_owner : String → Family → Bool
open_family_of_owner owner_id row = row.owner_id == owner_id && family_open row.status

abbrev pub of_owner : String → Family → Bool
of_owner owner_id row = row.owner_id == owner_id

-- the three statements that `revokeOwnerAccess` and `resetOwnerAccess` share
unfoldable pub revoke_owner_rows : String → FamilyStatus → ℕ → String → AuthDb → AuthDb
unfolding retire
revoke_owner_rows owner_id status at reason db =
    retire (open_family_of_owner owner_id) status at reason (token_in (of_owner owner_id))
      (set_grants (active_grant_of owner_id) revoked_grant db)

pub record Summary : Type 0 where
  pub owner_id : String
  pub owner_status : Standing
  pub bootstrap_pending : Bool
  pub active_clients : ℕ
  pub active_grants : ℕ
  pub active_token_families : ℕ

abbrev pub active_client_of : String → Client → Bool
active_client_of owner_id row = row.owner_id == owner_id && is_active row.status

abbrev pub active_family_of : String → Family → Bool
active_family_of owner_id row = row.owner_id == owner_id && family_active row.status

unfoldable pub owner_access_summary : String → Action AuthDb AuthError Summary
unfolding get_owner
owner_access_summary owner_id = do
  found ← gets (get_owner owner_id)
  owner ← require_some found (auth_error invalid_owner 404)
  gets (λ db. record {
    owner_id = owner_id;
    owner_status = owner.status;
    bootstrap_pending = not (is_some owner.bootstrap_consumed_at);
    active_clients = count (active_client_of owner_id) db.clients;
    active_grants = count (active_grant_of owner_id) db.grants;
    active_token_families = count (active_family_of owner_id) db.families;
  })

unfoldable pub revoke_owner_access : String → Stamp → String → Action AuthDb AuthError Summary
unfolding get_owner revoke_owner_rows owner_access_summary
revoke_owner_access owner_id revoked_at reason = do
  at ← lift (iso_time revoked_at)
  owner ← gets (get_owner owner_id)
  require (is_some owner) (auth_error invalid_owner 404)
  modify (revoke_owner_rows owner_id FamilyStatus.revoked at reason)
  owner_access_summary owner_id

abbrev pub disabled_client : Client → Client
disabled_client row = record row { status = Standing.disabled }

-- SET bootstrap_digest = ?, bootstrap_expires_at = ?, bootstrap_consumed_at = NULL, status = 'ACTIVE'
abbrev pub reset_owner : String → ℕ → Owner → Owner
reset_owner digest expires row = record row {
  bootstrap_digest = digest;
  bootstrap_expires_at = expires;
  bootstrap_consumed_at = none;
  status = Standing.active;
}

abbrev pub reset_clients : String → AuthDb → AuthDb
reset_clients owner_id db = record db {
  clients = update (λ c. c.owner_id == owner_id) disabled_client db.clients;
}

abbrev pub reset_owners : String → String → ℕ → AuthDb → AuthDb
reset_owners owner_id digest expires db = record db {
  owners = update (owner_is owner_id) (reset_owner digest expires) db.owners;
}

unfoldable pub reset_body : String → String → ℕ → ℕ → Action AuthDb AuthError (Unit {0})
unfolding revoke_owner_rows
reset_body owner_id digest at expires = do
  modify (revoke_owner_rows owner_id FamilyStatus.reset at "owner_reset")
  modify (reset_clients owner_id)
  changes ← gets (λ db. count (owner_is owner_id) db.owners)
  modify (reset_owners owner_id digest expires)
  require (eqb changes 1) lost_update

unfoldable pub reset_owner_access :
    Platform → String → String → Stamp → Stamp → Action AuthDb AuthError (Option Owner)
unfolding get_owner reset_body transaction storage_failure hash_secret
reset_owner_access p owner_id bootstrap_secret reset_at bootstrap_expires_at = do
  require (leb 32 (utf16_length bootstrap_secret)) (auth_error invalid_bootstrap 400)
  at ← lift (iso_time reset_at)
  expires ← lift (iso_time bootstrap_expires_at)
  require (ltb at expires) (auth_error invalid_bootstrap 400)
  owner ← gets (get_owner owner_id)
  require (is_some owner) (auth_error invalid_owner 404)
  transaction storage_failure (reset_body owner_id (hash_secret p bootstrap_secret) at expires)
  gets (get_owner owner_id)
