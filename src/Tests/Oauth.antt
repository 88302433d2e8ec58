-- ===== src/Tests/Oauth.antt =====
-- oauth-spike.js at concrete inputs.
use dp_beget_bridge.Auth.Scopes.{sort}
use dp_beget_bridge.Base.{
  List, if◌then◌else◌, err, find, delete, ◌<◌, String, ◌≡◌, refl, true, none, some, [], ◌∷◌, ◌==◌,
}
use dp_beget_bridge.Auth.Model.{Grant, Family, grant_active, family_active}
use dp_beget_bridge.Auth.Grants.{select_grant}
use dp_beget_bridge.Auth.Families.{select_family}
use dp_beget_bridge.Oauth.Model.{
  invalid_request, invalid_client, invalid_grant, oauth_error, Config, Transaction, CodeEntry,
  AccessEntry, Server, Params, same_strings, store, cleanup,
}
use dp_beget_bridge.Oauth.Authorize.{default_redirect_uri, begin_authorization, approve}
use dp_beget_bridge.Oauth.Tokens.{
  TokenResponse, issue_access_token, verifier_ok, grant_for_code, code_is, check_code, redeem,
  exchange_code,
}
use dp_beget_bridge.Oauth.Access.{
  access_is, store_or_null, grant_for_access, family_for_access, check_family, after_grant,
  check_access, check_presented, authenticate_token, authenticate,
}
use dp_beget_bridge.Oauth.Calls.{
  OauthCall, authenticate_call, exchange_call, revoke_call, after_all, draws,
}
use dp_beget_bridge.Oauth.Codes.{TokenStored, code_once, exchange_code_sound}
use dp_beget_bridge.Oauth.Bearer.{authenticate_sound}
use dp_beget_bridge.Oauth.Approvals.{approve_once}
use dp_beget_bridge.Tests.Setting.{
  first_token, third_token, demo, client_name, mcp, supported, rotated_once,
}
use dp_beget_bridge.Tests.Auth.{auth_run}

abbrev challenge : String
challenge = "challenge-0123456789-0123456789-0123456789-"

abbrev verifier : String
verifier = "verifier-0123456789-0123456789-0123456789-01"

abbrev config : Config
config = record {
  platform = demo;
  s256 = λ v. if v == verifier then challenge else "";
  validate_client = λ _ _. err (oauth_error invalid_client 400);
  dcr_client = client_name;
  resource = mcp;
  approval_secret = "approval secret of the owner 0123456789";
  scopes = "files:read" ∷ [];
  store_scopes = supported;
  transaction_ttl = 300000;
  code_ttl = 120000;
  access_ttl = 600000;
  refresh_ttl = 2592000000;
  grant_ttl = 86400000;
  max_pending = 128;
  owner_id = "owner";
  execution_profile = "files-read";
}

abbrev code : CodeEntry
code = record {
  key = "ff";
  client_id = client_name;
  redirect_uri = default_redirect_uri;
  resource = mcp;
  code_challenge = challenge;
  scopes = "files:read" ∷ [];
  grant_id = "grant-0001";
  owner_id = "owner";
  execution_profile = "files-read";
  state = "";
  expires_at = 500;
}

abbrev access : AccessEntry
access = record {
  key = "ff";
  client_id = client_name;
  resource = mcp;
  scopes = "files:read" ∷ [];
  grant_id = "grant-0001";
  owner_id = "owner";
  execution_profile = "files-read";
  grant_expires_at = 1000;
  family_id = some "family-0001";
  expires_at = 1000;
}

abbrev pending_transaction : Transaction
pending_transaction = record {
  key = "ff";
  client_id = client_name;
  redirect_uri = default_redirect_uri;
  resource = mcp;
  code_challenge = challenge;
  scopes = "files:read" ∷ [];
  state = "";
  expires_at = 400;
}

abbrev server : Server
server = record {
  transactions = pending_transaction ∷ [];
  codes = code ∷ [];
  tokens = access ∷ [];
  db = rotated_once;
}

abbrev request : Params
request = record {
  response_type = "code";
  client_id = client_name;
  redirect_uri = default_redirect_uri;
  resource = mcp;
  code_challenge = challenge;
  code_challenge_method = "S256";
  scope = none;
  state = "";
  grant_type = "authorization_code";
  code = "the-code";
  code_verifier = verifier;
  refresh_token = "";
  token = "";
}

oauth_run : Unit {0}
unfolding auth_run exchange_code check_code redeem verifier_ok issue_access_token store
    grant_for_code same_strings sort authenticate authenticate_token check_presented check_access
    after_grant check_family store_or_null grant_for_access family_for_access cleanup delete approve
    begin_authorization
oauth_run = tt

-- calls between two exchanges of a code, or two decisions on a transaction
abbrev between : List OauthCall
between =
    authenticate_call (some "the-token") 62
    ∷ exchange_call request true 64 "family-0004" third_token "access2"
    ∷ revoke_call request 66
    ∷ []

code_once_example :
    exchange_code config request 70 "family-0003" first_token "access" (
      after_all config between
        (exchange_code config request 60 "family-0002" third_token "access" server).1)
    ≡ (
      err (oauth_error invalid_grant 400),
      after_all config between
          (exchange_code config request 60 "family-0002" third_token "access" server).1,
    )
unfolding oauth_run draws
code_once_example =
    code_once config request request 60 70 "family-0002" third_token "access" "family-0003"
      first_token "access" server between refl refl refl

abbrev answer : TokenResponse
answer = record {
  access_token = "access";
  expires_in = 0;
  scopes = "files:read" ∷ [];
  refresh_token = third_token;
}

exchange_code_sound_example :
    (c : CodeEntry) × (find (code_is "ff") server.codes ≡ some c)
    × (client_name ≡ c.client_id)
    × (default_redirect_uri ≡ c.redirect_uri)
    × (mcp ≡ c.resource)
    × (challenge ≡ c.code_challenge)
    × (answer.scopes ≡ c.scopes)
    × TokenStored config 60 "access" c.scopes
        (exchange_code config request 60 "family-0002" third_token "access" server).1
        answer
unfolding oauth_run
exchange_code_sound_example =
    exchange_code_sound config request 60 "family-0002" third_token "access" server
      (exchange_code config request 60 "family-0002" third_token "access" server).1 answer refl

authenticate_sound_example :
    (find (access_is "ff") (cleanup 60 server).tokens ≡ some access)
    × (mcp ≡ config.resource)
    × (60 < 1000)
    × ((g : Grant) × (select_grant "grant-0001" rotated_once ≡ some g)
        × (grant_active g.status ≡ true)
        × (60 < g.expires_at)
        × (g.owner_id ≡ "owner")
        × (g.client_id ≡ client_name))
    × ((id : String)
        → some "family-0001" ≡ some id
        → (f : Family) × (select_family id rotated_once ≡ some f)
          × (family_active f.status ≡ true)
          × (60 < f.expires_at)
          × (f.grant_id ≡ "grant-0001"))
unfolding oauth_run
authenticate_sound_example =
    authenticate_sound config "the-token" 60 server
      (authenticate config (some "the-token") 60 server).1 access refl

approve_once_example :
    approve config "the-transaction" "wrong" 70 "grant-0003" "code2" (
      after_all config between
        (approve config "the-transaction" "wrong" 60 "grant-0002" "code1" server).1)
    ≡ (
      err (oauth_error invalid_request 400),
      cleanup 70 (
          after_all config between
            (approve config "the-transaction" "wrong" 60 "grant-0002" "code1" server).1),
    )
unfolding draws
approve_once_example =
    approve_once config "the-transaction" "wrong" "wrong" 60 70 "grant-0002" "code1" "grant-0003"
      "code2" server between refl
