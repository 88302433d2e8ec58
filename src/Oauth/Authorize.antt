-- ===== src/Oauth/Authorize.antt =====
-- oauth-spike.js: `persistClient`, `beginAuthorization` and `approve`.
use dp_beget_bridge.Auth.Model.{AuthError, Client, Grant}
use dp_beget_bridge.Base.{
  ltb, eqb, if◌then◌else◌, codes, length, is_id_char, matches_class, Result, ok, err, pure, lift,
  gets, require_some, modify, require, ◌>>=◌, ◌>>◌, find, delete, ℕ, ◌+◌, String, Bool, true, false,
  ◌&&◌, Option, some, List, [], ◌∷◌, ◌==◌,
}
use dp_beget_bridge.Auth.Clients.{register_client}
use dp_beget_bridge.Auth.Grants.{GrantRequest, create_grant}
use dp_beget_bridge.Oauth.Model.{
  invalid_request, unsupported_response_type, invalid_target, invalid_client, access_denied,
  temporarily_unavailable, OauthError, oauth_error, Config, Transaction, CodeEntry, Server, Params,
  Step, digest, require_string, assert_exact, parse_scope, store, cleanup,
}

abbrev pub unavailable : AuthError → OauthError
unavailable _ = oauth_error temporarily_unavailable 503

abbrev pub default_redirect_uri : String
default_redirect_uri = "https://chatgpt.com/connector_platform_oauth_redirect"

unfoldable pub persist_client : Config → String → String → ℕ → Step (Option Client)
unfolding store register_client
persist_client c client_id redirect_uri now =
    store unavailable (register_client c.platform client_id c.owner_id redirect_uri (some now))

-- ^[A-Za-z0-9_-]{43}$
abbrev pub challenge_ok : String → Bool
challenge_ok value = matches_class is_id_char 43 43 value

unfoldable pub starts_with : List ℕ → List ℕ → Bool
starts_with [] cs = true
starts_with (_ ∷ _) [] = false
starts_with (p ∷ ps) (c ∷ cs) = let rest = starts_with ps cs in eqb p c && rest

-- `dcrRegistry.validate` or `clientRegistry.validate`
unfoldable pub validate_registration : Config → String → String → Result OauthError (Unit {0})
unfolding starts_with
validate_registration c client_id redirect_uri =
    if starts_with (codes "dcr_") (codes client_id)
    then (if client_id == c.dcr_client && redirect_uri == default_redirect_uri
        then ok tt
        else err (oauth_error invalid_client 400))
    else c.validate_client client_id redirect_uri

-- `this.transactions.set(digest(id), …)`: a Map keeps one entry for a key
unfoldable pub put_transaction : Transaction → Server → Server
put_transaction t s = record s {
  transactions = t ∷ delete (λ (o : Transaction). o.key == t.key) s.transactions;
}

abbrev pub new_transaction : Config → Params → List String → ℕ → String → Transaction
new_transaction c params scopes now id = record {
  key = digest c id;
  client_id = params.client_id;
  redirect_uri = params.redirect_uri;
  resource = params.resource;
  code_challenge = params.code_challenge;
  scopes = scopes;
  state = params.state;
  expires_at = now + c.transaction_ttl;
}

-- The second half, from the answer of the client registry on; `id` is the random transaction id.
unfoldable pub begin_transaction : Config → Params → ℕ → String → Step String
unfolding persist_client parse_scope put_transaction
begin_transaction c params now id = do
  client ← persist_client c params.client_id params.redirect_uri now
  scopes ← lift (parse_scope params.scope c.scopes)
  pending ← gets (λ s. length s.transactions)
  require (ltb pending c.max_pending) (oauth_error temporarily_unavailable 503)
  modify (put_transaction (new_transaction c params scopes now id))
  pure id

unfoldable pub begin_authorization : Config → Params → ℕ → String → Step String
unfolding cleanup validate_registration begin_transaction
begin_authorization c params now id = do
  modify (cleanup now)
  require_string params.response_type
  assert_exact params.response_type "code" unsupported_response_type
  require_string params.client_id
  require_string params.redirect_uri
  require_string params.resource
  assert_exact params.resource c.resource invalid_target
  require_string params.code_challenge
  require_string params.code_challenge_method
  assert_exact params.code_challenge_method "S256" invalid_request
  require (challenge_ok params.code_challenge) (oauth_error invalid_request 400)
  valid ← lift (validate_registration c params.client_id params.redirect_uri)
  begin_transaction c params now id

-- the grant that `approve` creates; `grant_id` is what `crypto.randomUUID()` gives
abbrev pub grant_request : Config → Transaction → String → ℕ → GrantRequest
grant_request c t grant_id now = record {
  id = grant_id;
  owner_id = c.owner_id;
  client_id = t.client_id;
  resource = t.resource;
  scopes = t.scopes;
  execution_profile = c.execution_profile;
  granted_at = some now;
  expires_at = some (now + c.grant_ttl);
}

abbrev pub code_entry : Config → Transaction → Grant → String → ℕ → CodeEntry
code_entry c t grant code now = record {
  key = digest c code;
  client_id = t.client_id;
  redirect_uri = t.redirect_uri;
  resource = t.resource;
  code_challenge = t.code_challenge;
  scopes = t.scopes;
  grant_id = grant.id;
  owner_id = grant.owner_id;
  execution_profile = grant.execution_profile;
  state = t.state;
  expires_at = now + c.code_ttl;
}

-- What `approve` sends back in the redirect: the code, the state and the redirect URI.
pub record Approval : Type 0 where
  pub redirect_uri : String
  pub code : String
  pub state : String

abbrev pub transaction_is : String → Transaction → Bool
transaction_is key t = t.key == key

abbrev pub drop_transaction : String → Server → Server
drop_transaction key s = record s { transactions = delete (transaction_is key) s.transactions }

-- `this.codes.set(digest(code), …)`
abbrev pub put_code : CodeEntry → Server → Server
put_code e s = record s { codes = e ∷ delete (λ (o : CodeEntry). o.key == e.key) s.codes }

-- The rest of `approve`, for a transaction that was found and removed. A grant that `createGrant`
-- returns is never null, so that `require_some` does not throw.
unfoldable pub approve_found : Config → Transaction → String → ℕ → String → String → Step Approval
unfolding store create_grant
approve_found c t secret now grant_id code = do
  require (secret == c.approval_secret) (oauth_error access_denied 403)
  stored ←
      store unavailable (create_grant c.platform c.store_scopes (grant_request c t grant_id now))
  grant ← require_some stored (oauth_error temporarily_unavailable 503)
  modify (put_code (code_entry c t grant code now))
  pure (record { redirect_uri = t.redirect_uri; code = code; state = t.state })

unfoldable pub approve : Config → String → String → ℕ → String → String → Step Approval
unfolding cleanup approve_found
approve c transaction_id secret now grant_id code = do
  modify (cleanup now)
  found ← gets (λ s. find (transaction_is (digest c transaction_id)) s.transactions)
  t ← require_some found (oauth_error invalid_request 400)
  modify (drop_transaction (digest c transaction_id))
  approve_found c t secret now grant_id code
