-- ===== src/Oauth/Approvals.antt =====
-- Pending authorizations: how many there are, and that one is approved once.
use Prim.Native.Char.{code}
use dp_beget_bridge.Base.{
  ltb, leb, Option-cases, Ends, Ends-pure, after-bind, after-lift, after-gets, after-require_some,
  after-require_some_found, after-require, after-modify, length, all, count-delete-le,
  count-delete_self, err, ◌>>=◌, find, delete, count-eq-zero, find-eq-none, ℕ, ◌≤◌, String, ◌≡◌,
  refl, sym, ◌∙◌, inl, inr, Bool, true, false, not, none, List, [], ◌∷◌, arith, ◌==◌,
}
use dp_beget_bridge.Oauth.Model.{
  invalid_request, oauth_error, Config, Transaction, Server, Params, digest, store, cleanup,
}
use dp_beget_bridge.Oauth.Authorize.{
  persist_client, put_transaction, new_transaction, begin_transaction, begin_authorization,
  transaction_is, drop_transaction, approve_found, approve,
}
use dp_beget_bridge.Oauth.Calls.{OauthCall, after_all, draws, Stable, after_all-Stable}

length-delete-le : {A : Type 0} (q : A → Bool) (xs : List A) → length (delete q xs) ≤ length xs
unfolding delete
length-delete-le q [] = omega arith
length-delete-le q (x ∷ xs) = ground (arith, length-delete-le q xs)

abbrev Bounded : Config → Server → Type 0
Bounded c s = length s.transactions ≤ c.max_pending

cleaned-Bounded : (c : Config) (now : ℕ) (s : Server) → Bounded c s → Bounded c (cleanup now s)
unfolding cleanup
cleaned-Bounded c now s h =
    omega (arith, h, length-delete-le (λ (t : Transaction). leb t.expires_at now) s.transactions)

put-Bounded :
    (c : Config) (t : Transaction) (s : Server)
    → ltb (length s.transactions) c.max_pending ≡ true
    → Bounded c (put_transaction t s)
unfolding put_transaction
put-Bounded c t s room =
    let less = length-delete-le (λ (o : Transaction). o.key == t.key) s.transactions in
    ground (arith, less)

begin_transaction-Bounded :
    (c : Config) (params : Params) (now : ℕ) (id : String) (s : Server)
    → Bounded c s
    → Ends (Bounded c) (begin_transaction c params now id) s
unfolding begin_transaction persist_client store
begin_transaction-Bounded c params now id s h =
    after-bind _ s _ (record { at = h })
      λ client u _ k. after-lift _ u _ k λ scopes _. after-gets _ u _ (
        after-require _ u _ _ k λ room.
          after-modify _ u _
            (Ends-pure id _ (put-Bounded c (new_transaction c params scopes now id) u room)))

begin_authorization-Bounded :
    (c : Config) (params : Params) (now : ℕ) (id : String) (s : Server)
    → Bounded c s
    → Ends (Bounded c) (begin_authorization c params now id) s
unfolding begin_authorization
begin_authorization-Bounded c params now id s h =
    let k = cleaned-Bounded c now s h in
    after-modify _ s (cleanup now) (
      after-require _ _ _ _ k λ _. after-require _ _ _ _ k λ _. after-require _ _ _ _ k λ _.
        after-require _ _ _ _ k λ _. after-require _ _ _ _ k λ _. after-require _ _ _ _ k λ _.
          after-require _ _ _ _ k λ _. after-require _ _ _ _ k λ _. after-require _ _ _ _ k λ _.
            after-require _ _ _ _ k λ _.
              after-lift _ _ _ k λ _ _. begin_transaction-Bounded c params now id (cleanup now s) k)

-- Beginning an authorization, whether it returns or throws, keeps the number of pending transactions
-- within the configured maximum.
pub begin_bounded :
    (c : Config) (params : Params) (now : ℕ) (id : String) (s : Server)
    → length s.transactions ≤ c.max_pending
    → length (begin_authorization c params now id s).1.transactions ≤ c.max_pending
begin_bounded c params now id s h = (begin_authorization-Bounded c params now id s h).at

abbrev Approved : String → Server → Type 0
Approved key s = find (transaction_is key) s.transactions ≡ none

Approved-rest :
    (key : String) (c : Config) (t : Transaction) (secret : String) (now : ℕ)
    (grant_id code : String) (s : Server)
    → Approved key s
    → Ends (Approved key) (approve_found c t secret now grant_id code) s
unfolding approve_found store
Approved-rest key c t secret now grant_id code s h = after-require _ s _ _ h λ _.
    after-bind _ s _ (record { at = h })
      λ stored u _ k. after-require_some _ u _ _ k λ grant _. after-modify _ u _ (Ends-pure _ _ k)

approved :
    (c : Config) (id secret : String) (now : ℕ) (grant_id code : String) (s : Server)
    → Ends (Approved (digest c id)) (approve c id secret now grant_id code) s
unfolding approve
approved c id secret now grant_id code s =
    let key = digest c id in
    after-modify _ s (cleanup now) (
      after-gets _ _ _
        (elim (Option-cases (find (transaction_is (digest c id)) (cleanup now s).transactions)) [
          | inl absent ↦ after-require_some _ _ _ _ absent λ t e. (let bad = sym absent ∙ e in cc)
          | inr (t, found) ↦ after-require_some_found _ _ _ _ t found (
              after-modify _ _ (drop_transaction (digest c id)) (
                Approved-rest (digest c id) c t secret now grant_id code _ (
                  find-eq-none (transaction_is (digest c id)) _ (
                    count-delete_self (transaction_is (digest c id))
                      (cleanup now s).transactions))))
        ]))

unknown_transaction :
    (c : Config) (id secret : String) (now : ℕ) (grant_id code : String) (s : Server)
    → Approved (digest c id) s
    → approve c id secret now grant_id code s
      ≡ (err (oauth_error invalid_request 400), cleanup now s)
unfolding approve ◌>>=◌ cleanup
unknown_transaction c id secret now grant_id code s absent = rw still refl
  where
    still : find (transaction_is (digest c id)) (cleanup now s).transactions ≡ none
    still = find-eq-none (transaction_is (digest c id)) _ (
        omega (
          arith,
          count-eq-zero (transaction_is (digest c id)) s.transactions absent,
          count-delete-le (transaction_is (digest c id)) (λ (t : Transaction). leb t.expires_at now)
              s.transactions,
        ))

still_Approved :
    (key : String) (q : Transaction → Bool) (transactions : List Transaction)
    → find (transaction_is key) transactions ≡ none
    → find (transaction_is key) (delete q transactions) ≡ none
still_Approved key q transactions h = find-eq-none (transaction_is key) (delete q transactions) (
    omega (
      arith,
      count-eq-zero (transaction_is key) transactions h,
      count-delete-le (transaction_is key) q transactions,
    ))

-- No call brings a transaction back, but a beginning that draws its id again.
Approved-Stable :
    (c : Config) (key : String)
    → Stable c (Approved key) (λ id. not (digest c id == key)) (λ code. true)
unfolding cleanup put_transaction
Approved-Stable c key = record {
  with_db = λ s db h. h;
  with_tokens = λ s tokens h. h;
  cleaned =
      λ now s h. still_Approved key (λ (o : Transaction). leb o.expires_at now) s.transactions h;
  no_transaction = λ other s h. still_Approved key (transaction_is other) s.transactions h;
  no_code = λ other s h. h;
  new_code = λ t g code now s fresh h. h;
  new_transaction_put = λ params scopes now id s fresh h.
      unfold find in
      let e : (digest c id == key) ≡ false = ground arith in
      rw e (still_Approved key (λ (o : Transaction). o.key == digest c id) s.transactions h);
}

-- A transaction is decided once: after `approve` for it, whether the secret was accepted or not, and any
-- calls of the server, of which no beginning draws an id with its digest, an `approve` for it throws
-- invalid_request and does no more than the cleanup, whatever its secret and its time are.
pub approve_once :
    (c : Config) (id secret secret' : String) (now later : ℕ) (g code g' code' : String)
    (s : Server) (calls : List OauthCall)
    → all (draws (λ other. not (digest c other == digest c id)) (λ code. true)) calls ≡ true
    → approve c id secret' later g' code' (after_all c calls (approve c id secret now g code s).1)
      ≡ (
        err (oauth_error invalid_request 400),
        cleanup later (after_all c calls (approve c id secret now g code s).1),
      )
approve_once c id secret secret' now later g code g' code' s calls fresh =
    let key = digest c id in
    unknown_transaction c id secret' later g' code'
      (after_all c calls (approve c id secret now g code s).1)
      (after_all-Stable c (Approved key) (λ other. not (digest c other == key)) (λ code. true)
        (Approved-Stable c key) calls (approve c id secret now g code s).1 fresh
        (approved c id secret now g code s).at)
