-- ===== src/Oauth/Tokens.antt =====
-- oauth-spike.js: `issueAccessToken` and the two exchanges of the token endpoint.
use mathlib.Core.Option
use dp_beget_bridge.Base.{
  ltb, eqb, if◌then◌else◌, is_id_char, matches_class, Result, ok, pure, throw, lift, gets,
  require_some, modify, require, ◌>>=◌, ◌>>◌, find, delete, ℕ, ◌+◌, ◌-◌, ◌/◌, min, String, Bool,
  true, false, not, ◌&&◌, ◌||◌, Option, none, some, List, ◌∷◌, ◌==◌,
}
use dp_beget_bridge.Auth.Model.{
  invalid_refresh_token, refresh_inactive, refresh_reuse_detected, AuthError, auth_error, Grant,
  Family, grant_active, family_active,
}
use dp_beget_bridge.Auth.Grants.{get_grant}
use dp_beget_bridge.Auth.Families.{FamilyRequest, create_token_family}
use dp_beget_bridge.Auth.Rotation.{Rotated, rotate_refresh_token}
use dp_beget_bridge.Oauth.Model.{
  invalid_target, invalid_client, invalid_scope, invalid_grant, unsupported_grant_type,
  temporarily_unavailable, OauthError, oauth_error, Config, CodeEntry, AccessEntry, Server, Params,
  Step, digest, require_string, assert_exact, same_strings, parse_scope, store, cleanup,
}
use dp_beget_bridge.Oauth.Authorize.{unavailable}

pub record TokenResponse : Type 0 where
  pub access_token : String
  pub expires_in : ℕ
  pub scopes : List String
  pub refresh_token : String

-- The expiry of an access token.
abbrev pub access_expiry : Config → Grant → ℕ → ℕ
access_expiry c grant issued_at = min (issued_at + c.access_ttl) grant.expires_at

abbrev pub access_entry :
    Config → String → String → List String → Grant → Option Family → ℕ → String → AccessEntry
access_entry c client_id resource scopes grant family issued_at token = record {
  key = digest c token;
  client_id = client_id;
  resource = resource;
  scopes = scopes;
  grant_id = grant.id;
  owner_id = grant.owner_id;
  execution_profile = grant.execution_profile;
  grant_expires_at = grant.expires_at;
  family_id = Option.map (λ (f : Family). f.id) family;
  expires_at = access_expiry c grant issued_at;
}

-- `this.tokens.set(digest(accessToken), …)`
abbrev pub put_token : AccessEntry → Server → Server
put_token e s = record s { tokens = e ∷ delete (λ (o : AccessEntry). o.key == e.key) s.tokens }

-- `token` is the random access token.
unfoldable pub issue_access_token :
    Config
    → String
    → String
    → List String
    → Grant
    → Option Family
    → ℕ
    → String
    → String
    → Step TokenResponse
issue_access_token c client_id resource scopes grant family issued_at refresh_token token = do
  require (ltb issued_at (access_expiry c grant issued_at)) (oauth_error invalid_grant 400)
  modify (put_token (access_entry c client_id resource scopes grant family issued_at token))
  pure (record {
    access_token = token;
    expires_in = (access_expiry c grant issued_at - issued_at) / 1000;
    scopes = scopes;
    refresh_token = refresh_token;
  })

-- ^[A-Za-z0-9._~-]{43,128}$
is_verifier_char : ℕ → Bool
is_verifier_char c = is_id_char c || eqb c b'.' || eqb c b'~'

unfoldable pub verifier_ok : String → Bool
unfolding is_verifier_char
verifier_ok value = matches_class is_verifier_char 43 128 value

-- the stored grant of a code, active and as it was approved
unfoldable pub grant_for_code : Config → CodeEntry → Option Grant → Option Grant
unfolding same_strings
grant_for_code c code none = none
grant_for_code c code (some grant) =
    if grant_active grant.status
      && grant.owner_id == c.owner_id
      && grant.client_id == code.client_id
      && grant.resource == code.resource
      && same_strings grant.scopes code.scopes
    then some grant
    else none

abbrev pub code_is : String → CodeEntry → Bool
code_is key e = e.key == key

abbrev pub drop_code : String → Server → Server
drop_code key s = record s { codes = delete (code_is key) s.codes }

-- the arguments of `createTokenFamily`; the refresh token and the id of the family are random
abbrev pub family_request : Config → Grant → String → String → ℕ → FamilyRequest
family_request c grant family_id refresh_token issued_at = record {
  id = family_id;
  grant_id = grant.id;
  owner_id = grant.owner_id;
  client_id = grant.client_id;
  resource = grant.resource;
  refresh_token = refresh_token;
  created_at = some issued_at;
  expires_at = some (min (issued_at + c.refresh_ttl) grant.expires_at);
}

-- What the code was issued for: the checks before the grant is read.
unfoldable pub check_code : Config → Params → CodeEntry → Step (Unit {0})
unfolding verifier_ok
check_code c params code = do
  require_string params.client_id
  assert_exact params.client_id code.client_id invalid_grant
  require_string params.redirect_uri
  assert_exact params.redirect_uri code.redirect_uri invalid_grant
  require_string params.resource
  assert_exact params.resource code.resource invalid_target
  require_string params.code_verifier
  require (verifier_ok params.code_verifier) (oauth_error invalid_grant 400)
  require (c.s256 params.code_verifier == code.code_challenge) (oauth_error invalid_grant 400)

-- The rest of the exchange, for a code that passed the checks.
unfoldable pub redeem : Config → CodeEntry → ℕ → String → String → String → Step TokenResponse
unfolding store get_grant grant_for_code create_token_family issue_access_token
redeem c code now family_id refresh_token token = do
  stored ← store unavailable (get_grant code.grant_id (some now))
  grant ← require_some (grant_for_code c code stored) (oauth_error invalid_grant 400)
  family ←
      store unavailable
        (create_token_family c.platform (family_request c grant family_id refresh_token now))
  issue_access_token c code.client_id code.resource code.scopes grant family now refresh_token token

unfoldable pub exchange_code : Config → Params → ℕ → String → String → String → Step TokenResponse
unfolding check_code redeem
exchange_code c params now family_id refresh_token token = do
  require_string params.code
  found ← gets (λ s. find (code_is (digest c params.code)) s.codes)
  code ← require_some found (oauth_error invalid_grant 400)
  modify (drop_code (digest c params.code))
  check_code c params code
  redeem c code now family_id refresh_token token

-- the `catch` of `exchangeRefreshToken`
unfoldable pub refresh_error : AuthError → OauthError
refresh_error (auth_error invalid_refresh_token _) = oauth_error invalid_grant 400
refresh_error (auth_error refresh_inactive _) = oauth_error invalid_grant 400
refresh_error (auth_error refresh_reuse_detected _) = oauth_error invalid_grant 400
refresh_error _ = oauth_error temporarily_unavailable 503

abbrev pub live_family : Option Family → Bool
live_family none = false
live_family (some f) = family_active f.status

-- the grant of a rotation whose family and grant are active
unfoldable pub rotated_grant : Rotated → Option Grant
rotated_grant r = if live_family r.family then active_grant r.grant else none
  where
    active_grant : Option Grant → Option Grant
    active_grant none = none
    active_grant (some g) = if grant_active g.status then some g else none

-- the scopes of a refresh: those asked for, or the grant's
unfoldable pub refresh_scopes : Config → Params → Grant → Result OauthError (List String)
unfolding parse_scope
refresh_scopes c params grant = from params.scope
  where
    from : Option (List String) → Result OauthError (List String)
    from none = ok grant.scopes
    from (some words) = parse_scope (some words) c.scopes

unfoldable pub exchange_refresh : Config → Params → ℕ → String → String → Step TokenResponse
unfolding store rotate_refresh_token refresh_error rotated_grant refresh_scopes same_strings
    issue_access_token
exchange_refresh c params now next_refresh_token token = do
  require_string params.refresh_token
  require_string params.client_id
  require_string params.resource
  assert_exact params.resource c.resource invalid_target
  rotated ← store refresh_error (
      rotate_refresh_token c.platform params.refresh_token next_refresh_token params.client_id
        params.resource (some now))
  grant ← require_some (rotated_grant rotated) (oauth_error invalid_grant 400)
  scopes ← lift (refresh_scopes c params grant)
  require (same_strings scopes grant.scopes) (oauth_error invalid_scope 400)
  issue_access_token c grant.client_id grant.resource grant.scopes grant rotated.family now
      next_refresh_token token

-- `exchange`: the random texts are those that the chosen exchange draws
unfoldable pub exchange : Config → Params → Bool → ℕ → String → String → String → Step TokenResponse
unfolding cleanup exchange_code exchange_refresh
exchange c params has_authorization now family_id refresh_token token = do
  modify (cleanup now)
  require (not has_authorization) (oauth_error invalid_client 401)
  require_string params.grant_type
  by_type (params.grant_type == "authorization_code") (params.grant_type == "refresh_token")
  where
    by_type : Bool → Bool → Step TokenResponse
    by_type true _ = exchange_code c params now family_id refresh_token token
    by_type false true = exchange_refresh c params now refresh_token token
    by_type false false = throw (oauth_error unsupported_grant_type 400)
