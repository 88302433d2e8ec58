-- ===== src/Auth/Grants.antt =====
-- auth-store.js: authorization grants.
pub mod Expiry
pub mod Creation
use dp_beget_bridge.Base.{
  ltb, leb, if◌then◌else◌, is_some, length, Action, ◌>>=◌, ◌>>◌, lift, gets, modify, require, find,
  update, ℕ, String, Bool, false, not, ◌&&◌, Option, none, some, List, [], ◌∷◌, ◌++◌, ◌==◌,
}
use dp_beget_bridge.Auth.Model.{
  invalid_client, invalid_grant, invalid_scope, AuthError, auth_error, unique_violation,
  foreign_key_violation, GrantStatus, Client, Grant, AuthDb, is_active, grant_active,
}
use dp_beget_bridge.Auth.Platform.{
  Platform, Stamp, iso_time, grant_id_ok, profile_ok, exact_https_url,
}
use dp_beget_bridge.Auth.Owners.{get_owner}
use dp_beget_bridge.Auth.Clients.{get_client}
use dp_beget_bridge.Auth.Scopes.{normalize_scopes, scopes_ok}

abbrev pub grant_is : String → Grant → Bool
grant_is id row = row.id == id

abbrev pub select_grant : String → AuthDb → Option Grant
select_grant id db = find (grant_is id) db.grants

-- id = ? AND status = 'ACTIVE'
abbrev pub active_grant_is : String → Grant → Bool
active_grant_is id row = grant_is id row && grant_active row.status

abbrev pub expired_grant : Grant → Grant
expired_grant row = record row { status = GrantStatus.expired }

abbrev pub set_grants : (Grant → Bool) → (Grant → Grant) → AuthDb → AuthDb
set_grants q f db = record db { grants = update q f db.grants }

-- INSERT INTO authorization_grants: PRIMARY KEY (id), owner_id REFERENCES owners(id), client_id
-- REFERENCES oauth_clients(client_id)
unfoldable pub insert_grant : Grant → Action AuthDb AuthError (Unit {0})
unfolding get_client get_owner
insert_grant row = do
  same ← gets (select_grant row.id)
  owner ← gets (get_owner row.owner_id)
  client ← gets (get_client row.client_id)
  require (not (is_some same)) unique_violation
  require (is_some owner && is_some client) foreign_key_violation
  modify (λ db. record db { grants = db.grants ++ row ∷ [] })

-- the row that `getGrant` finds, and its lazy expiry
unfoldable pub expire_grant : Option Grant → ℕ → AuthDb → AuthDb
expire_grant none now db = db
expire_grant (some row) now db =
    if grant_active row.status && leb row.expires_at now
    then set_grants (active_grant_is row.id) expired_grant db
    else db

unfoldable pub get_grant : String → Stamp → Action AuthDb AuthError (Option Grant)
unfolding expire_grant
get_grant id now = do
  current ← lift (iso_time now)
  row ← gets (select_grant id)
  modify (expire_grant row current)
  gets (select_grant id)

-- `!client || client.status !== "ACTIVE" || client.ownerId !== ownerId`, negated
unfoldable pub client_usable : Option Client → String → Bool
client_usable none owner_id = false
client_usable (some client) owner_id = is_active client.status && client.owner_id == owner_id

pub record GrantRequest : Type 0 where
  pub id : String
  pub owner_id : String
  pub client_id : String
  pub resource : String
  pub scopes : List String
  pub execution_profile : String
  pub granted_at : Stamp
  pub expires_at : Stamp

-- `supported` is the set of scopes that the constructor of `AuthStore` takes.
unfoldable pub create_grant :
    Platform → List String → GrantRequest → Action AuthDb AuthError (Option Grant)
unfolding insert_grant get_grant client_usable exact_https_url
create_grant p supported request = do
  require (grant_id_ok request.id) (auth_error invalid_grant 400)
  client ← gets (get_client request.client_id)
  require (client_usable client request.owner_id) (auth_error invalid_client 403)
  require (ltb 0 (length request.scopes)) (auth_error invalid_scope 400)
  let scopes = normalize_scopes request.scopes
  require (scopes_ok supported scopes) (auth_error invalid_scope 400)
  granted ← lift (iso_time request.granted_at)
  expires ← lift (iso_time request.expires_at)
  require (ltb granted expires) (auth_error invalid_grant 400)
  require (profile_ok request.execution_profile) (auth_error invalid_grant 400)
  resource ← lift (exact_https_url p request.resource)
  insert_grant (record {
    id = request.id;
    owner_id = request.owner_id;
    client_id = request.client_id;
    resource = resource;
    scopes = scopes;
    execution_profile = request.execution_profile;
    granted_at = granted;
    expires_at = expires;
    status = GrantStatus.active;
  })
  get_grant request.id (some granted)
