-- ===== src/Auth/Context.antt =====
-- packages/auth/src/agent-context.js: the signed context that the MCP server sends to the agent with a
-- request. A value is the list of its parts between full stops.
pub mod Signed
use dp_beget_bridge.Base.{
  ltb, leb, eqb, if◌then◌else◌, Bool-cases, Option-cases, is_some, Ends, Ends-pure, Ends-throw,
  Ends-lift, Ends-gets, Ends-transaction, Ends-recover, Ends-modify, Ends-require, after-bind,
  after-lift, after-gets, after-require_some, after-require_some_found, after-require_passed,
  after-require, after-modify, Ends-commit, returned-bind, returned-lift, returned-gets,
  returned-require_some, returned-require, returned-modify, returned-transaction,
  returned-modify-pure, returned-gets_last, bind_ok, bind_err, returned_unique, codes, length,
  units, utf16_length, all, any, is_lower, is_upper, is_digit, is_id_char, matches_class,
  count_split, count_le_left, count-update_on, find-update_on, find-update_by, find-update_off,
  update_absent, count-update_one, count-update-le, count-delete-le, count-delete_self,
  find-delete_other, All, All-append, All-update, All-find, All-delete, All-map, Result, ok, err,
  Action, pure, throw, lift, gets, require_some, settle, transaction, recover, modify, require,
  continue, ◌>>=◌, ◌>>◌, find, amend, update, delete, count, or_row, find_sound, find-update,
  find-append, count-update, count-append, count-eq-zero, find-eq-none, count-pos, count-and-le,
  count-and, any-find, map-eq-some, count-pos_of, find_unique, unique_append, length-update,
  find_by_key, ℕ, zero, suc, ◌+◌, ◌-◌, ◌*◌, ◌/◌, ◌%◌, ◌^◌, ◌≤◌, ◌<◌, min, max, String, ◌≡◌, refl,
  sym, ap, subst, ◌∙◌, ◌≢◌, ◌↔◌, ◌⊎◌, inl, inr, Bool, true, false, not, ◌&&◌, ◌||◌, Option, none,
  some, List, [], ◌∷◌, ◌++◌, map, arith, ◌==◌, eq_iff, eq_refl,
}
use dp_beget_bridge.Auth.Platform.{
  Url, Platform, Stamp, iso_time, owner_id_ok, grant_id_ok, refresh_token_ok, opaque_client_ok,
  scope_ok, profile_ok, decode_hex, same_bytes, equal_digest, hash_secret, hash_refresh_token,
  exact_https_url, client_identifier, iso_time_lem,
}
use dp_beget_bridge.Auth.Scopes.{
  contains, dedupe_after, dedupe, codes_le, insert_sorted, sort, normalize_scopes, scopes_ok,
}

pub data ContextError : Type 0 where
  agent_context_unavailable invalid_agent_context expired_agent_context : ContextError
  agent_context_mismatch : ContextError

pub record Payload : Type 0 where
  pub sub : String
  pub grt : String
  pub scp : List String
  pub prf : String
  pub mth : String
  pub pth : String
  pub iat : ℕ
  pub exp : ℕ
  pub jti : String

-- `encode` is JSON and base64url; `decode` undoes them, and is `none` where they fail or the fields do
-- not have the version and types that `validatePayload` asks for, which throws the same error. `mac` is
-- the HMAC of `signature`, and `upper` is `toUpperCase`.
pub record Signing : Type 0 where
  pub encode : Payload → String
  pub decode : String → Option Payload
  pub mac : String → String → String
  pub upper : String → String

-- typeof secret === "string" && secret.length >= 32
abbrev pub secret_ok : String → Bool
secret_ok secret = leb 32 (utf16_length secret)

abbrev pub absolute : List ℕ → Bool
absolute [] = false
absolute (c ∷ _) = eqb c b'/'

abbrev pub has_scope : List String → Bool
has_scope [] = false
has_scope (_ ∷ _) = true

-- `validatePayload`, negated
unfoldable pub payload_ok : Payload → Bool
unfolding scope_ok profile_ok
payload_ok x =
    owner_id_ok x.sub
    && grant_id_ok x.grt
    && has_scope x.scp
    && all scope_ok x.scp
    && profile_ok x.prf
    && absolute (codes x.pth)
    && leb 16 (utf16_length x.jti)

abbrev pub ceil_seconds : ℕ → ℕ
ceil_seconds ms = (ms + 999) / 1000

pub record Authorization : Type 0 where
  pub owner_id : String
  pub grant_id : String
  pub scopes : List String
  pub execution_profile : String

-- `String(method || "GET").toUpperCase()`
abbrev pub method_text : Signing → String → String
method_text g method = g.upper (if method == "" then "GET" else method)

unfoldable pub new_payload : Signing → Authorization → String → String → ℕ → ℕ → String → Payload
unfolding sort
new_payload g a method path now ttl jti = record {
  sub = a.owner_id;
  grt = a.grant_id;
  scp = sort a.scopes;
  prf = a.execution_profile;
  mth = method_text g method;
  pth = path;
  iat = now / 1000;
  exp = ceil_seconds (now + ttl);
  jti = jti;
}

-- `jti` is what `crypto.randomUUID()` gives
unfoldable pub create_agent_context :
    Signing
    → String
    → Authorization
    → String
    → String
    → ℕ
    → ℕ
    → String
    → Result ContextError (List String)
unfolding payload_ok
create_agent_context g secret a method path now ttl jti =
    let payload = new_payload g a method path now ttl jti in
    if not (secret_ok secret)
    then err agent_context_unavailable
    else if ltb ttl 1 || ltb 30000 ttl
    then err invalid_agent_context
    else if not (payload_ok payload)
    then err invalid_agent_context
    else ok (g.encode payload ∷ g.mac secret (g.encode payload) ∷ [])

-- the length of the text of a value
abbrev pub value_length : List String → ℕ
value_length [] = 0
value_length (p ∷ []) = utf16_length p
value_length (p ∷ q ∷ ps) = utf16_length p + 1 + value_length (q ∷ ps)

pub record Claims : Type 0 where
  pub owner_id : String
  pub grant_id : String
  pub scopes : List String
  pub execution_profile : String
  pub context_id : String

abbrev pub claims_of : Payload → Claims
claims_of x = record {
  owner_id = x.sub;
  grant_id = x.grt;
  scopes = x.scp;
  execution_profile = x.prf;
  context_id = x.jti;
}

-- payload.iat > nowSeconds + skewSeconds || payload.exp <= nowSeconds || payload.exp - payload.iat > 35
unfoldable pub out_of_time : Payload → ℕ → ℕ → Bool
out_of_time x now skew =
    ltb (now / 1000 + ceil_seconds skew) x.iat || leb x.exp (now / 1000) || ltb 35 (x.exp - x.iat)

unfoldable pub check_payload :
    Signing → Option Payload → String → String → ℕ → ℕ → Result ContextError Claims
unfolding payload_ok out_of_time
check_payload g none method path now skew = err invalid_agent_context
check_payload g (some x) method path now skew =
    if not (payload_ok x)
    then err invalid_agent_context
    else if out_of_time x now skew
    then err expired_agent_context
    else if not (x.mth == method_text g method && x.pth == path)
    then err agent_context_mismatch
    else ok (claims_of x)

unfoldable pub verify_parts :
    Signing → String → List String → String → String → ℕ → ℕ → Result ContextError Claims
unfolding check_payload
verify_parts g secret (encoded ∷ given ∷ []) method path now skew =
    if g.mac secret encoded == given
    then check_payload g (g.decode encoded) method path now skew
    else err invalid_agent_context
verify_parts g secret _ method path now skew = err invalid_agent_context

unfoldable pub verify_agent_context :
    Signing → String → List String → String → String → ℕ → ℕ → Result ContextError Claims
unfolding verify_parts
verify_agent_context g secret value method path now skew =
    if not (secret_ok secret)
    then err agent_context_unavailable
    else if ltb 4096 (value_length value)
    then err invalid_agent_context
    else verify_parts g secret value method path now skew
