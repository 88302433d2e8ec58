-- ===== src/Oauth/Access.antt =====
-- oauth-spike.js: `revoke` and `authenticate`.
use dp_beget_bridge.Base.{
  ltb, if◌then◌else◌, Result, ok, err, Action, pure, gets, modify, ◌>>=◌, ◌>>◌, find, delete, ℕ,
  String, Bool, true, false, ◌&&◌, ◌||◌, Option, none, some, ◌==◌,
}
use dp_beget_bridge.Auth.Model.{AuthError, Grant, Family, AuthDb, grant_active, family_active}
use dp_beget_bridge.Auth.Grants.{get_grant}
use dp_beget_bridge.Auth.Families.{get_token_family}
use dp_beget_bridge.Auth.Revocation.{revoke_token_family, revoke_refresh_token}
use dp_beget_bridge.Oauth.Model.{
  Config, AccessEntry, Server, Params, Step, digest, require_string, same_strings, store, cleanup,
}
use dp_beget_bridge.Oauth.Authorize.{unavailable}

abbrev pub access_is : String → AccessEntry → Bool
access_is key e = e.key == key

abbrev pub drop_access : String → Server → Server
drop_access key s = record s { tokens = delete (access_is key) s.tokens }

-- !clientId || access.clientId === clientId
abbrev pub for_client : String → AccessEntry → Bool
for_client client_id e = client_id == "" || e.client_id == client_id

-- `clientId` as `revokeRefreshToken` takes it
abbrev pub client_or_null : String → Option String
client_or_null client_id = if client_id == "" then none else some client_id

unfoldable pub revoke_family_of : AccessEntry → Option String → ℕ → Step (Unit {0})
unfolding store revoke_token_family
revoke_family_of e none now = pure tt
revoke_family_of e (some family_id) now = do
  family ← store unavailable (revoke_token_family family_id e.owner_id (some now) "client_revoke")
  pure tt

unfoldable pub revoke_presented : Config → Params → Option AccessEntry → ℕ → Step (Unit {0})
unfolding store revoke_refresh_token revoke_family_of
revoke_presented c params (some e) now = do
  modify (drop_access (digest c params.token))
  revoke_family_of e e.family_id now
revoke_presented c params none now = do
  family ← store unavailable (
      revoke_refresh_token c.platform params.token (client_or_null params.client_id) (some now)
        "client_revoke")
  pure tt

abbrev pub kept_if : (AccessEntry → Bool) → Option AccessEntry → Option AccessEntry
kept_if p none = none
kept_if p (some e) = if p e then some e else none

unfoldable pub revoke : Config → Params → ℕ → Step (Unit {0})
unfolding cleanup revoke_presented
revoke c params now = do
  modify (cleanup now)
  require_string params.token
  access ← gets (λ s.
      kept_if (for_client params.client_id) (find (access_is (digest c params.token)) s.tokens))
  revoke_presented c params access now

abbrev pub or_null : {A : Type 0} → Result AuthError (Option A) → Option A
or_null (ok a) = a
or_null (err _) = none

-- a method of the auth store where the `catch` returns null
unfoldable pub store_or_null : {A : Type 0} → Action AuthDb AuthError (Option A) → Step (Option A)
store_or_null method s = let r = method s.db in (ok (or_null r.0), record s { db = r.1 })

unfoldable pub grant_for_access : AccessEntry → Option Grant → Bool
unfolding same_strings
grant_for_access e none = false
grant_for_access e (some grant) =
    grant_active grant.status
    && grant.owner_id == e.owner_id
    && grant.client_id == e.client_id
    && grant.resource == e.resource
    && grant.execution_profile == e.execution_profile
    && same_strings grant.scopes e.scopes

unfoldable pub family_for_access : AccessEntry → Option Family → Bool
family_for_access e none = false
family_for_access e (some family) =
    family_active family.status
    && family.grant_id == e.grant_id
    && family.owner_id == e.owner_id
    && family.client_id == e.client_id
    && family.resource == e.resource

unfoldable pub check_family : AccessEntry → Option String → ℕ → Step Bool
unfolding store_or_null get_token_family family_for_access
check_family e none now = pure true
check_family e (some family_id) now = do
  family ← store_or_null (get_token_family family_id (some now))
  pure (family_for_access e family)

-- The entry whose claims are returned; `none` stands for null.
abbrev pub answered : AccessEntry → Bool → Option AccessEntry
answered e true = some e
answered e false = none

unfoldable pub after_grant : AccessEntry → ℕ → Bool → Step (Option AccessEntry)
unfolding check_family
after_grant e now false = pure none
after_grant e now true = do live ← check_family e e.family_id now; pure (answered e live)

unfoldable pub check_access : AccessEntry → ℕ → Step (Option AccessEntry)
unfolding store_or_null get_grant grant_for_access after_grant
check_access e now = do
  grant ← store_or_null (get_grant e.grant_id (some now))
  after_grant e now (grant_for_access e grant)

unfoldable pub check_presented : Option AccessEntry → ℕ → Step (Option AccessEntry)
unfolding check_access
check_presented none now = pure none
check_presented (some e) now = check_access e now

-- record.resource !== this.resource || record.expiresAt <= this.now(), negated
abbrev pub usable : Config → ℕ → AccessEntry → Bool
usable c now e = e.resource == c.resource && ltb now e.expires_at

unfoldable pub authenticate_token : Config → Option String → ℕ → Step (Option AccessEntry)
unfolding check_presented
authenticate_token c none now = pure none
authenticate_token c (some token) now = do
  found ← gets (λ s. kept_if (usable c now) (find (access_is (digest c token)) s.tokens))
  check_presented found now

-- `presented` is what /^Bearer ([A-Za-z0-9_-]+)$/ finds in the header.
unfoldable pub authenticate : Config → Option String → ℕ → Step (Option AccessEntry)
unfolding cleanup authenticate_token
authenticate c presented now = do modify (cleanup now); authenticate_token c presented now
