-- ===== src/Oauth/Model.antt =====
-- packages/auth/src/oauth-spike.js: what an `OAuthSpike` with an auth store keeps in memory, its
-- configuration, and the helpers at the top of the file. A time is a number of milliseconds, and a
-- `Map` is the list of its entries, newest first.
use dp_beget_bridge.Auth.Model.{AuthError, AuthDb}
use dp_beget_bridge.Base.{
  leb, if◌then◌else◌, all, Result, ok, err, Action, require, delete, ℕ, String, Bool, true, false,
  not, ◌&&◌, ◌||◌, Option, none, some, List, [], ◌∷◌, ◌==◌,
}
use dp_beget_bridge.Auth.Platform.{Platform}
use dp_beget_bridge.Auth.Scopes.{contains, dedupe, sort}

pub data OauthCode : Type 0 where
  invalid_request unsupported_response_type invalid_target invalid_client invalid_scope : OauthCode
  access_denied invalid_grant unsupported_grant_type temporarily_unavailable : OauthCode

-- `oauthError` without its description
pub data OauthError : Type 0 where
  oauth_error : OauthCode → ℕ → OauthError

-- The constructor's arguments. `validate_client` is the injected `clientRegistry`, `s256` is the
-- base64url text of the SHA-256 digest of a text, `dcr_client` the id of the `dcrRegistry`,
-- and `store_scopes` the `supportedScopes` of the auth store.
pub record Config : Type 0 where
  pub platform : Platform
  pub s256 : String → String
  pub validate_client : String → String → Result OauthError (Unit {0})
  pub dcr_client : String
  pub resource : String
  pub approval_secret : String
  pub scopes : List String
  pub store_scopes : List String
  pub transaction_ttl : ℕ
  pub code_ttl : ℕ
  pub access_ttl : ℕ
  pub refresh_ttl : ℕ
  pub grant_ttl : ℕ
  pub max_pending : ℕ
  pub owner_id : String
  pub execution_profile : String

pub record Transaction : Type 0 where
  pub key : String
  pub client_id : String
  pub redirect_uri : String
  pub resource : String
  pub code_challenge : String
  pub scopes : List String
  pub state : String
  pub expires_at : ℕ

-- An authorization code: its transaction with the grant.
pub record CodeEntry : Type 0 where
  pub key : String
  pub client_id : String
  pub redirect_uri : String
  pub resource : String
  pub code_challenge : String
  pub scopes : List String
  pub grant_id : String
  pub owner_id : String
  pub execution_profile : String
  pub state : String
  pub expires_at : ℕ

pub record AccessEntry : Type 0 where
  pub key : String
  pub client_id : String
  pub resource : String
  pub scopes : List String
  pub grant_id : String
  pub owner_id : String
  pub execution_profile : String
  pub grant_expires_at : ℕ
  pub family_id : Option String
  pub expires_at : ℕ

pub record Server : Type 0 where
  pub transactions : List Transaction
  pub codes : List CodeEntry
  pub tokens : List AccessEntry
  pub db : AuthDb

-- The parameters of a request: "" where one is missing, as `requireString` refuses both. The scope is
-- its words; it is `none` where it is missing or "".
pub record Params : Type 0 where
  pub response_type : String
  pub client_id : String
  pub redirect_uri : String
  pub resource : String
  pub code_challenge : String
  pub code_challenge_method : String
  pub scope : Option (List String)
  pub state : String
  pub grant_type : String
  pub code : String
  pub code_verifier : String
  pub refresh_token : String
  pub token : String

abbrev pub Step : Type 0 → Type 0
Step A = Action Server OauthError A

-- `digest`, in hexadecimal
abbrev pub digest : Config → String → String
digest c value = c.platform.sha256 value

-- `requireString`
abbrev pub require_string : String → Step (Unit {0})
require_string value = require (not (value == "")) (oauth_error invalid_request 400)

-- `assertExact`
abbrev pub assert_exact : String → String → OauthCode → Step (Unit {0})
assert_exact actual expected code = require (actual == expected) (oauth_error code 400)

unfoldable pub same_list : List String → List String → Bool
same_list [] [] = true
same_list (x ∷ xs) (y ∷ ys) = let rest = same_list xs ys in x == y && rest
same_list _ _ = false

-- `sameStrings`: the length of the two is compared by `same_list`, as sorting keeps it
unfoldable pub same_strings : List String → List String → Bool
unfolding same_list sort
same_strings left right = same_list (sort left) (sort right)

requested : Option (List String) → List String → List String
requested none supported = supported
requested (some []) supported = supported
requested (some (x ∷ xs)) supported = x ∷ xs

abbrev is_empty : List String → Bool
is_empty [] = true
is_empty (_ ∷ _) = false

-- `parseScope`
unfoldable pub parse_scope : Option (List String) → List String → Result OauthError (List String)
unfolding requested dedupe contains
parse_scope value supported =
    let scopes = requested value supported in
    if is_empty scopes || not (all (contains supported) scopes)
    then err (oauth_error invalid_scope 400)
    else ok (dedupe scopes)

-- The `catch` around a method of the auth store.
abbrev pub on_error :
    {A : Type 0} → (AuthError → OauthError) → Result AuthError A → Result OauthError A
on_error handler (ok a) = ok a
on_error handler (err e) = err (handler e)

-- A method of the auth store: what it writes stays.
unfoldable pub store : {A : Type 0} → (AuthError → OauthError) → Action AuthDb AuthError A → Step A
store handler method s = let r = method s.db in (on_error handler r.0, record s { db = r.1 })

-- `cleanup()`
unfoldable pub cleanup : ℕ → Server → Server
cleanup now s = record s {
  transactions = delete (λ (t : Transaction). leb t.expires_at now) s.transactions;
  codes = delete (λ (c : CodeEntry). leb c.expires_at now) s.codes;
  tokens = delete (λ (a : AccessEntry). leb a.expires_at now) s.tokens;
}
