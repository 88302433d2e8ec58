-- ===== src/Oauth/Codes.antt =====
-- What an authorization code is good for.
use mathlib.Core.Path.{subst}
use Prim.Native.Char.{code}
use dp_beget_bridge.Base.{
  leb, Option-cases, Ends, Ends-pure, Ends-require, after-bind, after-gets, after-require_some,
  after-require_some_found, after-require_passed, after-require, after-modify, returned-bind,
  returned-gets, returned-require_some, returned-require, returned-modify, returned-modify-pure,
  codes, all, count-delete-le, count-delete_self, ok, err, Action, require, ◌>>=◌, find, delete,
  count-eq-zero, find-eq-none, ℕ, ◌+◌, ◌*◌, ◌≤◌, ◌<◌, String, ◌≡◌, refl, sym, ap, subst, ◌∙◌, inl,
  inr, Bool, true, false, not, Option, none, some, List, arith, ◌==◌, eq_iff, eq_refl,
}
use dp_beget_bridge.Auth.Model.{AuthError, Grant, Family, AuthDb}
use dp_beget_bridge.Oauth.Model.{
  invalid_grant, OauthError, oauth_error, Config, CodeEntry, AccessEntry, Server, Params, digest,
  store, cleanup,
}
use dp_beget_bridge.Oauth.Authorize.{unavailable, put_transaction}
use dp_beget_bridge.Oauth.Tokens.{
  TokenResponse, access_expiry, access_entry, issue_access_token, code_is, drop_code, check_code,
  redeem, exchange_code,
}
use dp_beget_bridge.Oauth.Access.{access_is}
use dp_beget_bridge.Oauth.Calls.{OauthCall, after_all, draws, Stable, after_all-Stable}

-- no code has the key
abbrev Spent : String → Server → Type 0
Spent key s = find (code_is key) s.codes ≡ none

store-Spent :
    {A : Type 0} (key : String) (handler : AuthError → OauthError)
    (method : Action AuthDb AuthError A) (s : Server)
    → Spent key s
    → Ends (Spent key) (store handler method) s
unfolding store
store-Spent key handler method s h = record { at = h }

check_code-Spent :
    (key : String) (c : Config) (params : Params) (code : CodeEntry) (s : Server)
    → Spent key s
    → Ends (Spent key) (check_code c params code) s
unfolding check_code
check_code-Spent key c params code s h = after-require _ s _ _ h λ _. after-require _ s _ _ h λ _.
    after-require _ s _ _ h λ _. after-require _ s _ _ h λ _. after-require _ s _ _ h λ _.
      after-require _ s _ _ h
        λ _. after-require _ s _ _ h λ _. after-require _ s _ _ h λ _. Ends-require _ _ s h

redeem-Spent :
    (key : String) (c : Config) (code : CodeEntry) (now : ℕ)
    (family_id refresh_token token : String) (s : Server)
    → Spent key s
    → Ends (Spent key) (redeem c code now family_id refresh_token token) s
unfolding redeem issue_access_token
redeem-Spent key c code now family_id refresh_token token s h =
    after-bind _ s _ (store-Spent key unavailable _ s h) λ stored u _ k.
      after-require_some _ u _ _ k λ grant _.
        after-bind _ u _ (store-Spent key unavailable _ u k)
          λ family v _ j. after-require _ v _ _ j λ _. after-modify _ v _ (Ends-pure _ _ j)

spent :
    (c : Config) (params : Params) (now : ℕ) (family_id refresh_token token : String) (s : Server)
    → (params.code == "") ≡ false
    → Ends
        (Spent (digest c params.code))
        (exchange_code c params now family_id refresh_token token)
        s
unfolding exchange_code
spent c params now family_id refresh_token token s given =
    elim (Option-cases (find (code_is (digest c params.code)) s.codes)) [
      | inl absent ↦ after-require _ s _ _ absent λ _.
          after-gets _ s _
            (after-require_some _ s _ _ absent λ code e. let bad = sym absent ∙ e in cc)
      | inr (code, found) ↦ after-require_passed _ s _ _ (rw given refl) (
          after-gets _ s _ (
            after-require_some_found _ s _ _ code found (
              after-modify _ s (drop_code (digest c params.code)) (
                after-bind _ _ (check_code c params code)
                  (check_code-Spent (digest c params.code) c params code _ dropped)
                  λ _ u _ k.
                    redeem-Spent (digest c params.code) c code now family_id refresh_token token u
                      k))))
    ]
  where
    dropped : Spent (digest c params.code) (drop_code (digest c params.code) s)
    dropped =
        find-eq-none (code_is (digest c params.code)) _
          (count-delete_self (code_is (digest c params.code)) s.codes)

-- an exchange of a code that is not stored
unknown_code :
    (c : Config) (params : Params) (now : ℕ) (f r t : String) (s : Server)
    → (params.code == "") ≡ false
    → Spent (digest c params.code) s
    → exchange_code c params now f r t s ≡ (err (oauth_error invalid_grant 400), s)
unfolding exchange_code ◌>>=◌
unknown_code c params now f r t s given absent = rw (given, absent) refl

still_Spent :
    (key : String) (q : CodeEntry → Bool) (codes : List CodeEntry)
    → find (code_is key) codes ≡ none
    → find (code_is key) (delete q codes) ≡ none
still_Spent key q codes h =
    find-eq-none (code_is key) (delete q codes)
      (omega (arith, count-eq-zero (code_is key) codes h, count-delete-le (code_is key) q codes))

-- No call brings a code back, but an approval that draws it again.
Spent-Stable :
    (c : Config) (key : String)
    → Stable c (Spent key) (λ id. true) (λ code. not (digest c code == key))
unfolding cleanup put_transaction
Spent-Stable c key = record {
  with_db = λ s db h. h;
  with_tokens = λ s tokens h. h;
  cleaned = λ now s h. still_Spent key (λ (o : CodeEntry). leb o.expires_at now) s.codes h;
  no_transaction = λ other s h. h;
  no_code = λ other s h. still_Spent key (code_is other) s.codes h;
  new_code = λ t g code now s fresh h.
      unfold find in
      let e : (digest c code == key) ≡ false = ground arith in
      rw e (still_Spent key (λ (o : CodeEntry). o.key == digest c code) s.codes h);
  new_transaction_put = λ params scopes now id s fresh h. h;
}

-- An authorization code is good for one exchange: after an exchange of it, whether it returned or threw,
-- and any calls of the server, of which no approval draws a code with its digest, an exchange of it again
-- throws invalid_grant and changes nothing, whatever its time and its other parameters are.
pub code_once :
    (c : Config) (params again : Params) (now later : ℕ) (f r t f' r' t' : String) (s : Server)
    (calls : List OauthCall)
    → (params.code == "") ≡ false
    → again.code ≡ params.code
    → all (draws (λ id. true) (λ code. not (digest c code == digest c params.code))) calls ≡ true
    → exchange_code c again later f' r' t'
        (after_all c calls (exchange_code c params now f r t s).1)
      ≡ (
        err (oauth_error invalid_grant 400),
        after_all c calls (exchange_code c params now f r t s).1,
      )
code_once c params again now later f r t f' r' t' s calls given same fresh =
    let key = digest c params.code in
    let u = after_all c calls (exchange_code c params now f r t s).1 in
    let gone : Spent key u =
      after_all-Stable c (Spent key) (λ id. true) (λ code. not (digest c code == key))
        (Spent-Stable c key) calls (exchange_code c params now f r t s).1 fresh
        (spent c params now f r t s given).at in
    unknown_code c again later f' r' t' u (rw same given)
      (subst (λ k. Spent (digest c k) u) (sym same) gone)

checked_code :
    (c : Config) (params : Params) (code : CodeEntry) (s s' : Server)
    → check_code c params code s ≡ (ok tt, s')
    → (params.client_id ≡ code.client_id)
      × (params.redirect_uri ≡ code.redirect_uri)
      × (params.resource ≡ code.resource)
      × (c.s256 params.code_verifier ≡ code.code_challenge)
unfolding check_code require
checked_code c params code s s' e =
    let (_, e1) = returned-require _ s _ _ e in
    let (client, e2) = returned-require _ s _ _ e1 in
    let (_, e3) = returned-require _ s _ _ e2 in
    let (redirect, e4) = returned-require _ s _ _ e3 in
    let (_, e5) = returned-require _ s _ _ e4 in
    let (resource, e6) = returned-require _ s _ _ e5 in
    let (_, e7) = returned-require _ s _ _ e6 in
    let (_, e8) = returned-require _ s _ _ e7 in
    (
      (eq_iff _ _).0 client,
      (eq_iff _ _).0 redirect,
      (eq_iff _ _).0 resource,
      (eq_iff _ _).0 (passed _ _ e8),
    )
  where
    passed : (b : Bool) (x : OauthError) → require {S = Server} b x s ≡ (ok tt, s') → b ≡ true
    passed true x r = refl
    passed false x r = cc

-- The token of an exchange is stored: with its scopes, for no longer than the configured time, and at
-- least until the time that the answer tells.
pub record TokenStored (c : Config) (now : ℕ) (token : String) (scopes : List String) (s : Server)
    (answer : TokenResponse) : Type 0 where
  pub entry : AccessEntry
  pub found : find (access_is (digest c token)) s.tokens ≡ some entry
  pub same_scopes : entry.scopes ≡ scopes
  pub short : entry.expires_at ≤ now + c.access_ttl
  pub told : now + answer.expires_in * 1000 ≤ entry.expires_at

issued_lem :
    (c : Config) (client_id resource : String) (scopes : List String) (grant : Grant)
    (family : Option Family) (now : ℕ) (refresh token : String) (s s' : Server)
    (answer : TokenResponse)
    → issue_access_token c client_id resource scopes grant family now refresh token s
      ≡ (ok answer, s')
    → (answer.scopes ≡ scopes) × TokenStored c now token scopes s' answer
unfolding issue_access_token
issued_lem c client_id resource scopes grant family now refresh token s s' answer e =
    let (later, e1) = returned-require _ s _ _ e in
    let (given, is_s') = returned-modify-pure _ _ s e1 in
    (
      ap (λ a. a.scopes) given,
      record {
        entry = access_entry c client_id resource scopes grant family now token;
        found =
            ap (λ (u : Server). find (access_is (digest c token)) u.tokens) is_s'
            ∙ unfold find in rw (eq_refl (digest c token)) refl;
        same_scopes = refl;
        short = omega arith;
        told =
            let fits : now < access_expiry c grant now = ground arith in
            omega (arith, fits, ap (λ a. a.expires_in) given);
      },
    )

redeemed_scopes :
    (c : Config) (code : CodeEntry) (now : ℕ) (f r t : String) (s s' : Server)
    (answer : TokenResponse)
    → redeem c code now f r t s ≡ (ok answer, s')
    → (answer.scopes ≡ code.scopes) × TokenStored c now t code.scopes s' answer
unfolding redeem
redeemed_scopes c code now f r t s s' answer e =
    let (stored, u, _, e1) = returned-bind _ s _ e in
    let (grant, _, e2) = returned-require_some _ u _ _ e1 in
    let (family, v, _, e3) = returned-bind _ u _ e2 in
    issued_lem c code.client_id code.resource code.scopes grant family now r t v s' answer e3

-- An exchange of a code that returns was for a stored code, by the client, with the redirect URI and
-- for the resource that the code was issued for, and its verifier has the code's challenge. The scopes
-- of the answer are those that the owner approved. The access token is then stored with these scopes; it
-- expires when the configured time has passed, at the latest, and not before the time in the answer.
pub exchange_code_sound :
    (c : Config) (params : Params) (now : ℕ) (f r t : String) (s s' : Server)
    (answer : TokenResponse)
    → exchange_code c params now f r t s ≡ (ok answer, s')
    → (code : CodeEntry) × (find (code_is (digest c params.code)) s.codes ≡ some code)
      × (params.client_id ≡ code.client_id)
      × (params.redirect_uri ≡ code.redirect_uri)
      × (params.resource ≡ code.resource)
      × (c.s256 params.code_verifier ≡ code.code_challenge)
      × (answer.scopes ≡ code.scopes)
      × TokenStored c now t code.scopes s' answer
unfolding exchange_code
exchange_code_sound c params now f r t s s' answer e =
    let (_, e1) = returned-require _ s _ _ e in
    let e2 = returned-gets _ s (λ u. find (code_is (digest c params.code)) u.codes) e1 in
    let (code, found, e3) = returned-require_some _ s _ _ e2 in
    let e4 = returned-modify _ s (drop_code (digest c params.code)) e3 in
    let (_, u, checked, redeemed) = returned-bind _ _ (check_code c params code) e4 in
    let (client, redirect, resource, challenge) = checked_code c params code _ u checked in
    let (scopes, stored) = redeemed_scopes c code now f r t u s' answer redeemed in
    (code, found, client, redirect, resource, challenge, scopes, stored)
