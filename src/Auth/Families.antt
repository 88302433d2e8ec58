-- ===== src/Auth/Families.antt =====
-- auth-store.js: token families, and the two statements that take a family and its tokens out of
-- use.
use dp_beget_bridge.Base.{
  ltb, leb, eqb, if◌then◌else◌, is_some, Action, ◌>>=◌, ◌>>◌, lift, gets, transaction, modify,
  require, require_some, find, update, ℕ, String, Bool, not, ◌&&◌, Option, none, some, [], ◌∷◌,
  ◌++◌, ◌==◌,
}
use dp_beget_bridge.Auth.Model.{
  invalid_grant, invalid_token_family, auth_storage_failure, AuthError, auth_error,
  unique_violation, foreign_key_violation, FamilyStatus, TokenStatus, Grant, Family, Token, AuthDb,
  grant_active, family_active, token_active,
}
use dp_beget_bridge.Auth.Platform.{
  Platform, Stamp, iso_time, grant_id_ok, hash_refresh_token, exact_https_url,
}
use dp_beget_bridge.Auth.Grants.{select_grant, get_grant}
use dp_beget_bridge.Auth.Owners.{owner_is}
use dp_beget_bridge.Auth.Clients.{client_is}

abbrev pub family_is : String → Family → Bool
family_is id row = row.id == id

abbrev pub select_family : String → AuthDb → Option Family
select_family id db = find (family_is id) db.families

abbrev pub token_is : String → Token → Bool
token_is digest row = row.digest == digest

abbrev pub select_token : String → AuthDb → Option Token
select_token digest db = find (token_is digest) db.tokens

abbrev pub set_families : (Family → Bool) → (Family → Family) → AuthDb → AuthDb
set_families q f db = record db { families = update q f db.families }

abbrev pub set_tokens : (Token → Bool) → (Token → Token) → AuthDb → AuthDb
set_tokens q f db = record db { tokens = update q f db.tokens }

-- id = ? AND status = 'ACTIVE'
abbrev pub active_family_is : String → Family → Bool
active_family_is id row = family_is id row && family_active row.status

-- family_id = ? AND status = 'ACTIVE'
abbrev pub active_token_of : String → Token → Bool
active_token_of family_id row = row.family_id == family_id && token_active row.status

-- SET status = ?, revoked_at = ?, revoke_reason = ?
abbrev pub retired : FamilyStatus → ℕ → String → Family → Family
retired status at reason row = record row {
  status = status;
  revoked_at = some at;
  revoke_reason = some reason;
}

-- SET status = 'REVOKED'
abbrev pub revoked_token : Token → Token
revoked_token row = record row { status = TokenStatus.revoked }

-- UPDATE oauth_token_families … WHERE q, then UPDATE oauth_refresh_tokens SET status = 'REVOKED'
-- WHERE r, which may look at the updated families
unfoldable pub retire :
    (Family → Bool) → FamilyStatus → ℕ → String → (AuthDb → Token → Bool) → AuthDb → AuthDb
retire q status at reason r db =
    let after = set_families q (retired status at reason) db in
    set_tokens (r after) revoked_token after

-- the statements on one family of `getTokenFamily` and `rotateRefreshToken`
abbrev pub retire_family : FamilyStatus → ℕ → String → String → AuthDb → AuthDb
retire_family status at reason id =
    retire (active_family_is id) status at reason (λ _. active_token_of id)

unfoldable pub storage_failure : AuthError → AuthError
storage_failure e = auth_error auth_storage_failure 503

-- the row that `getTokenFamily` finds, and its lazy expiry
unfoldable pub expire_family : Option Family → ℕ → AuthDb → AuthDb
unfolding retire
expire_family none now db = db
expire_family (some row) now db =
    if family_active row.status && leb row.expires_at now
    then retire_family FamilyStatus.expired now "expired" row.id db
    else db

unfoldable pub get_token_family : String → Stamp → Action AuthDb AuthError (Option Family)
unfolding expire_family
get_token_family id now = do
  current ← lift (iso_time now)
  row ← gets (select_family id)
  modify (expire_family row current)
  gets (select_family id)

-- INSERT INTO oauth_token_families: PRIMARY KEY (id), and the three references
unfoldable pub insert_family : Family → Action AuthDb AuthError (Unit {0})
insert_family row = do
  same ← gets (select_family row.id)
  grant ← gets (select_grant row.grant_id)
  owner ← gets (λ db. find (owner_is row.owner_id) db.owners)
  client ← gets (λ db. find (client_is row.client_id) db.clients)
  require (not (is_some same)) unique_violation
  require (is_some grant && is_some owner && is_some client) foreign_key_violation
  modify (λ db. record db { families = db.families ++ row ∷ [] })

abbrev pub at_generation : String → ℕ → Token → Bool
at_generation family_id generation row = row.family_id == family_id && eqb row.generation generation

-- INSERT INTO oauth_refresh_tokens: PRIMARY KEY (digest), UNIQUE (family_id, generation), family_id
-- REFERENCES oauth_token_families(id)
unfoldable pub insert_token : Token → Action AuthDb AuthError (Unit {0})
insert_token row = do
  same ← gets (select_token row.digest)
  twin ← gets (λ db. find (at_generation row.family_id row.generation) db.tokens)
  family ← gets (select_family row.family_id)
  require (not (is_some same) && not (is_some twin)) unique_violation
  require (is_some family) foreign_key_violation
  modify (λ db. record db { tokens = db.tokens ++ row ∷ [] })

pub record FamilyRequest : Type 0 where
  pub id : String
  pub grant_id : String
  pub owner_id : String
  pub client_id : String
  pub resource : String
  pub refresh_token : String
  pub created_at : Stamp
  pub expires_at : Stamp

-- the test of `createTokenFamily` on the grant, negated
unfoldable pub grant_matches : Grant → FamilyRequest → String → Bool
grant_matches grant request resource =
    grant_active grant.status
    && grant.owner_id == request.owner_id
    && grant.client_id == request.client_id
    && grant.resource == resource

abbrev pub new_family : FamilyRequest → String → ℕ → ℕ → Family
new_family request resource created expires = record {
  id = request.id;
  grant_id = request.grant_id;
  owner_id = request.owner_id;
  client_id = request.client_id;
  resource = resource;
  created_at = created;
  expires_at = expires;
  status = FamilyStatus.active;
  revoked_at = none;
  revoke_reason = none;
  current_generation = 0;
}

abbrev pub new_token : String → String → ℕ → ℕ → ℕ → Token
new_token digest family_id generation issued expires = record {
  digest = digest;
  family_id = family_id;
  generation = generation;
  issued_at = issued;
  expires_at = expires;
  consumed_at = none;
  status = TokenStatus.active;
}

abbrev pub family_body : Family → Token → Action AuthDb AuthError (Unit {0})
family_body family token = do insert_family family; insert_token token

unfoldable pub create_token_family :
    Platform → FamilyRequest → Action AuthDb AuthError (Option Family)
unfolding transaction storage_failure insert_family insert_token get_token_family get_grant
    grant_matches exact_https_url hash_refresh_token
create_token_family p request = do
  require (grant_id_ok request.id) (auth_error invalid_token_family 400)
  created ← lift (iso_time request.created_at)
  expires ← lift (iso_time request.expires_at)
  resource ← lift (exact_https_url p request.resource)
  digest ← lift (hash_refresh_token p request.refresh_token)
  found ← get_grant request.grant_id (some created)
  grant ← require_some found (auth_error invalid_grant 400)
  require (grant_matches grant request resource) (auth_error invalid_grant 400)
  require (ltb created expires && leb expires grant.expires_at)
      (auth_error invalid_token_family 400)
  transaction storage_failure (
      family_body (new_family request resource created expires)
        (new_token digest request.id 0 created expires))
  get_token_family request.id (some created)
