-- ===== src/Oauth/Calls.antt =====
-- The methods of `OAuthSpike` in oauth-spike.js, as calls, and what a sequence of calls leaves as it was.
use Prim.Native.Char.{code}
use dp_beget_bridge.Base.{
  Bool-cases, Ends, Ends-pure, Ends-throw, Ends-require, after-bind, after-lift, after-gets,
  after-require_some, after-require, after-modify, all, Action, ℕ, String, ◌≡◌, inl, inr, Bool,
  true, false, Option, none, some, List, [], ◌∷◌, arith, ◌==◌,
}
use dp_beget_bridge.Auth.Model.{AuthError, Grant, Family, AuthDb}
use dp_beget_bridge.Auth.Grants.{get_grant}
use dp_beget_bridge.Auth.Families.{get_token_family}
use dp_beget_bridge.Oauth.Model.{
  OauthError, Config, Transaction, CodeEntry, AccessEntry, Server, Params, digest, store, cleanup,
}
use dp_beget_bridge.Oauth.Authorize.{
  persist_client, put_transaction, new_transaction, begin_transaction, begin_authorization,
  code_entry, drop_transaction, put_code, approve_found, approve,
}
use dp_beget_bridge.Oauth.Tokens.{
  issue_access_token, drop_code, check_code, redeem, exchange_code, exchange_refresh, exchange,
}
use dp_beget_bridge.Oauth.Access.{
  drop_access, revoke_family_of, revoke_presented, revoke, store_or_null, check_family, after_grant,
  check_access, check_presented, authenticate_token, authenticate,
}

-- The methods, with what the clock and the random generator give them.
pub data OauthCall : Type 0 where
  begin_call : Params → ℕ → String → OauthCall
  approve_call : String → String → ℕ → String → String → OauthCall
  exchange_call : Params → Bool → ℕ → String → String → String → OauthCall
  revoke_call : Params → ℕ → OauthCall
  authenticate_call : Option String → ℕ → OauthCall

-- The server after a call, whether it returns or throws.
unfoldable pub after_call : Config → OauthCall → Server → Server
after_call c (begin_call params now id) s = (begin_authorization c params now id s).1
after_call c (approve_call id secret now grant_id code) s =
    (approve c id secret now grant_id code s).1
after_call c (exchange_call params has_authorization now family_id refresh_token token) s =
    (exchange c params has_authorization now family_id refresh_token token s).1
after_call c (revoke_call params now) s = (revoke c params now s).1
after_call c (authenticate_call presented now) s = (authenticate c presented now s).1

unfoldable pub after_all : Config → List OauthCall → Server → Server
unfolding after_call
after_all c [] s = s
after_all c (call ∷ calls) s = after_all c calls (after_call c call s)

-- The random texts that a call stores an entry under: `id` of a transaction, and `code` of a code.
unfoldable pub draws : (String → Bool) → (String → Bool) → OauthCall → Bool
draws id_ok code_ok (begin_call params now id) = id_ok id
draws id_ok code_ok (approve_call id secret now grant_id code) = code_ok code
draws id_ok code_ok (exchange_call params has_authorization now family_id refresh_token token) =
    true
draws id_ok code_ok (revoke_call params now) = true
draws id_ok code_ok (authenticate_call presented now) = true

-- What each change of the maps keeps, with the texts that are drawn.
pub record Stable (c : Config) (P : Server → Type 0) (id_ok code_ok : String → Bool) : Type 0 where
  pub with_db : (s : Server) (db : AuthDb) → P s → P (record s { db = db })
  pub with_tokens :
      (s : Server) (tokens : List AccessEntry) → P s → P (record s { tokens = tokens })
  pub cleaned : (now : ℕ) (s : Server) → P s → P (cleanup now s)
  pub no_transaction : (key : String) (s : Server) → P s → P (drop_transaction key s)
  pub no_code : (key : String) (s : Server) → P s → P (drop_code key s)
  pub new_code :
      (t : Transaction) (g : Grant) (code : String) (now : ℕ) (s : Server)
      → code_ok code ≡ true
      → P s
      → P (put_code (code_entry c t g code now) s)
  pub new_transaction_put :
      (params : Params) (scopes : List String) (now : ℕ) (id : String) (s : Server)
      → id_ok id ≡ true
      → P s
      → P (put_transaction (new_transaction c params scopes now id) s)

module _ (c : Config) (P : Server → Type 0) (id_ok code_ok : String → Bool)
    (stable : Stable c P id_ok code_ok) where
  stored :
      {A : Type 0} (handler : AuthError → OauthError) (method : Action AuthDb AuthError A)
      (s : Server)
      → P s
      → Ends P (store handler method) s
  unfolding store
  stored handler method s h = record { at = stable.with_db s (method s.db).1 h }

  stored_or_null :
      {A : Type 0} (method : Action AuthDb AuthError (Option A)) (s : Server)
      → P s
      → Ends P (store_or_null method) s
  unfolding store_or_null
  stored_or_null method s h = record { at = stable.with_db s (method s.db).1 h }

  begun :
      (params : Params) (now : ℕ) (id : String) (s : Server)
      → id_ok id ≡ true
      → P s
      → Ends P (begin_authorization c params now id) s
  unfolding begin_authorization begin_transaction persist_client
  begun params now id s drawn h =
      let k = stable.cleaned now s h in
      after-modify _ s (cleanup now) (
        after-require _ _ _ _ k λ _. after-require _ _ _ _ k λ _. after-require _ _ _ _ k λ _.
          after-require _ _ _ _ k λ _. after-require _ _ _ _ k λ _. after-require _ _ _ _ k λ _.
            after-require _ _ _ _ k λ _. after-require _ _ _ _ k λ _. after-require _ _ _ _ k λ _.
              after-require _ _ _ _ k λ _. after-lift _ _ _ k λ _ _.
                after-bind _ _ _ (stored _ _ (cleanup now s) k) λ client u _ l.
                  after-lift _ u _ l λ scopes _. after-gets _ u _ (
                    after-require _ u _ _ l λ room.
                      after-modify _ u _ (
                        Ends-pure id _
                          (stable.new_transaction_put params scopes now id u drawn l))))

  approved_call :
      (id secret : String) (now : ℕ) (grant_id code : String) (s : Server)
      → code_ok code ≡ true
      → P s
      → Ends P (approve c id secret now grant_id code) s
  unfolding approve approve_found
  approved_call id secret now grant_id code s drawn h =
      let k = stable.cleaned now s h in
      after-modify _ s (cleanup now) (
        after-gets _ _ _ (
          after-require_some _ _ _ _ k λ t _.
            let l = stable.no_transaction (digest c id) (cleanup now s) k in
            after-modify _ _ (drop_transaction (digest c id)) (
              after-require _ _ _ _ l λ _. after-bind _ _ _ (stored _ _ _ l) λ found u _ m.
                after-require_some _ u _ _ m λ grant _.
                  after-modify _ u _ (Ends-pure _ _ (stable.new_code t grant code now u drawn m)))))

  issued :
      (client_id resource : String) (scopes : List String) (grant : Grant) (family : Option Family)
      (now : ℕ) (refresh token : String) (s : Server)
      → P s
      → Ends P (issue_access_token c client_id resource scopes grant family now refresh token) s
  unfolding issue_access_token
  issued client_id resource scopes grant family now refresh token s h =
      after-require _ s _ _ h λ _. after-modify _ s _ (Ends-pure _ _ (stable.with_tokens s _ h))

  code_exchanged :
      (params : Params) (now : ℕ) (family_id refresh token : String) (s : Server)
      → P s
      → Ends P (exchange_code c params now family_id refresh token) s
  unfolding exchange_code check_code redeem
  code_exchanged params now family_id refresh token s h = after-require _ s _ _ h λ _.
      after-gets _ s _ (
        after-require_some _ s _ _ h λ code _.
          let k = stable.no_code (digest c params.code) s h in
          after-modify _ s (drop_code (digest c params.code)) (
            after-bind _ _ (check_code c params code) (checked params code _ k) λ _ u _ l.
              after-bind _ u _ (stored _ _ u l) λ found v _ m.
                after-require_some _ v _ _ m λ grant _.
                  after-bind _ v _ (stored _ _ v m) λ family w _ n.
                    issued code.client_id code.resource code.scopes grant family now refresh token w
                      n))
    where
      checked :
          (params : Params) (code : CodeEntry) (s : Server)
          → P s
          → Ends P (check_code c params code) s
      checked params code s h = after-require _ s _ _ h λ _. after-require _ s _ _ h λ _.
          after-require _ s _ _ h λ _. after-require _ s _ _ h λ _. after-require _ s _ _ h λ _.
            after-require _ s _ _ h
              λ _. after-require _ s _ _ h λ _. after-require _ s _ _ h λ _. Ends-require _ _ s h

  refreshed :
      (params : Params) (now : ℕ) (refresh token : String) (s : Server)
      → P s
      → Ends P (exchange_refresh c params now refresh token) s
  unfolding exchange_refresh
  refreshed params now refresh token s h = after-require _ s _ _ h λ _. after-require _ s _ _ h λ _.
      after-require _ s _ _ h λ _. after-require _ s _ _ h λ _.
        after-bind _ s _ (stored _ _ s h) λ rotated u _ k. after-require_some _ u _ _ k λ grant _.
          after-lift _ u _ k λ scopes _. after-require _ u _ _ k λ _.
            issued grant.client_id grant.resource grant.scopes grant rotated.family now refresh
              token u k

  exchanged :
      (params : Params) (has_authorization : Bool) (now : ℕ) (family_id refresh token : String)
      (s : Server)
      → P s
      → Ends P (exchange c params has_authorization now family_id refresh token) s
  unfolding exchange
  exchanged params has_authorization now family_id refresh token s h =
      let k = stable.cleaned now s h in
      after-modify _ s (cleanup now) (
        after-require _ _ _ _ k λ _. after-require _ _ _ _ k λ _.
          elim (Bool-cases (params.grant_type == "authorization_code")) [
            | inl code ↦
                rw code (code_exchanged params now family_id refresh token (cleanup now s) k)
            | inr other ↦ elim (Bool-cases (params.grant_type == "refresh_token")) [
              | inl again ↦ rw (other, again) (refreshed params now refresh token (cleanup now s) k)
              | inr unknown ↦ rw (other, unknown) (Ends-throw _ (cleanup now s) k)
            ]
          ])

  family_revoked :
      (e : AccessEntry) (family_id : Option String) (now : ℕ) (s : Server)
      → P s
      → Ends P (revoke_family_of e family_id now) s
  unfolding revoke_family_of
  family_revoked e none now s h = Ends-pure tt s h
  family_revoked e (some family_id) now s h =
      after-bind _ s _ (stored _ _ s h) λ _ u _ k. Ends-pure tt u k

  revoked_presented :
      (params : Params) (access : Option AccessEntry) (now : ℕ) (s : Server)
      → P s
      → Ends P (revoke_presented c params access now) s
  unfolding revoke_presented
  revoked_presented params (some e) now s h =
      after-modify _ s (drop_access (digest c params.token))
        (family_revoked e e.family_id now _ (stable.with_tokens s _ h))
  revoked_presented params none now s h =
      after-bind _ s _ (stored _ _ s h) λ _ u _ k. Ends-pure tt u k

  revoked_call : (params : Params) (now : ℕ) (s : Server) → P s → Ends P (revoke c params now) s
  unfolding revoke
  revoked_call params now s h =
      let k = stable.cleaned now s h in
      after-modify _ s (cleanup now)
        (after-require _ _ _ _ k λ _. after-gets _ _ _ (revoked_presented params _ now _ k))

  family_checked :
      (e : AccessEntry) (family_id : Option String) (now : ℕ) (s : Server)
      → P s
      → Ends P (check_family e family_id now) s
  unfolding check_family
  family_checked e none now s h = Ends-pure true s h
  family_checked e (some family_id) now s h =
      after-bind _ s _ (stored_or_null (get_token_family family_id (some now)) s h)
        λ family u _ k. Ends-pure _ u k

  grant_checked :
      (e : AccessEntry) (now : ℕ) (good : Bool) (s : Server)
      → P s
      → Ends P (after_grant e now good) s
  unfolding after_grant
  grant_checked e now false s h = Ends-pure none s h
  grant_checked e now true s h =
      after-bind _ s _ (family_checked e e.family_id now s h) λ live u _ k. Ends-pure _ u k

  presented_checked :
      (found : Option AccessEntry) (now : ℕ) (s : Server)
      → P s
      → Ends P (check_presented found now) s
  unfolding check_presented check_access
  presented_checked none now s h = Ends-pure none s h
  presented_checked (some e) now s h =
      after-bind _ s _ (stored_or_null (get_grant e.grant_id (some now)) s h)
        λ grant u _ k. grant_checked e now _ u k

  authenticated :
      (presented : Option String) (now : ℕ) (s : Server)
      → P s
      → Ends P (authenticate c presented now) s
  unfolding authenticate authenticate_token
  authenticated none now s h =
      after-modify _ s (cleanup now) (Ends-pure none _ (stable.cleaned now s h))
  authenticated (some token) now s h =
      after-modify _ s (cleanup now)
        (after-gets _ _ _ (presented_checked _ now (cleanup now s) (stable.cleaned now s h)))

  after_call-Stable :
      (call : OauthCall) (s : Server)
      → draws id_ok code_ok call ≡ true
      → P s
      → P (after_call c call s)
  unfolding after_call draws
  after_call-Stable (begin_call params now id) s drawn h = (begun params now id s drawn h).at
  after_call-Stable (approve_call id secret now grant_id code) s drawn h =
      (approved_call id secret now grant_id code s drawn h).at
  after_call-Stable (exchange_call params has_authorization now family_id refresh token) s drawn h =
      (exchanged params has_authorization now family_id refresh token s h).at
  after_call-Stable (revoke_call params now) s drawn h = (revoked_call params now s h).at
  after_call-Stable (authenticate_call presented now) s drawn h =
      (authenticated presented now s h).at

  -- What every call keeps, a sequence of calls keeps.
  pub after_all-Stable :
      (calls : List OauthCall) (s : Server)
      → all (draws id_ok code_ok) calls ≡ true
      → P s
      → P (after_all c calls s)
  unfolding after_all
  after_all-Stable [] s drawn h = h
  after_all-Stable (call ∷ calls) s drawn h =
      after_all-Stable calls (after_call c call s) (ground arith)
        (after_call-Stable call s (ground arith) h)
