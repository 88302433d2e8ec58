-- ===== src/Auth/Clients.antt =====
-- auth-store.js: the OAuth clients that an owner has registered.
pub mod Registration
use dp_beget_bridge.Base.{
  eqb, if◌then◌else◌, is_some, Result, ok, err, Action, ◌>>=◌, ◌>>◌, pure, throw, lift, gets,
  modify, require, find, update, count, ℕ, String, Bool, false, not, ◌&&◌, Option, none, some, [],
  ◌∷◌, ◌++◌, ◌==◌,
}
use dp_beget_bridge.Auth.Model.{
  owner_not_bootstrapped, client_conflict, AuthError, auth_error, unique_violation,
  foreign_key_violation, Standing, Owner, Client, AuthDb, is_active,
}
use dp_beget_bridge.Auth.Platform.{Platform, Stamp, iso_time, exact_https_url, client_identifier}
use dp_beget_bridge.Auth.Owners.{get_owner}

abbrev pub client_is : String → Client → Bool
client_is id row = row.client_id == id

unfoldable pub get_client : String → AuthDb → Option Client
get_client id db = find (client_is id) db.clients

-- INSERT INTO oauth_clients: PRIMARY KEY (client_id), owner_id REFERENCES owners(id)
unfoldable pub insert_client : Client → Action AuthDb AuthError (Unit {0})
unfolding get_client get_owner
insert_client row = do
  same ← gets (get_client row.client_id)
  owner ← gets (get_owner row.owner_id)
  require (not (is_some same)) unique_violation
  require (is_some owner) foreign_key_violation
  modify (λ db. record db { clients = db.clients ++ row ∷ [] })

-- `!owner || owner.status !== "ACTIVE" || !owner.bootstrapConsumedAt`, negated
unfoldable pub is_bootstrapped : Option Owner → Bool
is_bootstrapped none = false
is_bootstrapped (some owner) = is_active owner.status && is_some owner.bootstrap_consumed_at

abbrev pub disabled_row : String → String → String → Client → Bool
disabled_row client_id owner_id callback row =
    client_is client_id row
    && row.owner_id == owner_id
    && row.redirect_uri == callback
    && not (is_active row.status)

abbrev pub reactivated : ℕ → Client → Client
reactivated created row = record row { status = Standing.active; created_at = created }

abbrev pub conflict : Action AuthDb AuthError (Option Client)
conflict = throw (auth_error client_conflict 409)

-- the `UPDATE … WHERE status = 'DISABLED'` and the test of its changes
unfoldable pub reactivate : String → String → String → ℕ → Action AuthDb AuthError (Option Client)
unfolding get_client
reactivate client_id owner_id callback created = do
  changes ← gets (λ db. count (disabled_row client_id owner_id callback) db.clients)
  modify (λ db. record db {
    clients = update (disabled_row client_id owner_id callback) (reactivated created) db.clients;
  })
  require (eqb changes 1) (auth_error client_conflict 409)
  gets (get_client client_id)

-- the `catch` of `registerClient` on a UNIQUE error
unfoldable pub on_existing :
    Option Client → String → String → String → ℕ → Action AuthDb AuthError (Option Client)
on_existing none client_id owner_id callback created = conflict
on_existing (some existing) client_id owner_id callback created =
    if existing.owner_id == owner_id && existing.redirect_uri == callback
    then (if is_active existing.status
        then pure (some existing)
        else reactivate client_id owner_id callback created)
    else conflict

unfoldable pub after_insert :
    Result AuthError (Unit {0})
    → String
    → String
    → String
    → ℕ
    → Action AuthDb AuthError (Option Client)
unfolding on_existing reactivate get_client
after_insert (ok _) client_id owner_id callback created = gets (get_client client_id)
after_insert (err unique_violation) client_id owner_id callback created = do
  existing ← gets (get_client client_id)
  on_existing existing client_id owner_id callback created
after_insert (err e) client_id owner_id callback created = throw e

-- the insertion, with its error as a value
unfoldable pub attempt :
    Action AuthDb AuthError (Unit {0}) → Action AuthDb AuthError (Result AuthError (Unit {0}))
attempt body db = let r = body db in (ok r.0, r.1)

module _ (p : Platform) where
  unfoldable pub register_client :
      String → String → String → Stamp → Action AuthDb AuthError (Option Client)
  unfolding after_insert attempt insert_client client_identifier exact_https_url
  register_client client_id owner_id redirect_uri created_at = do
    normalized ← lift (client_identifier p client_id)
    owner ← gets (get_owner owner_id)
    require (is_bootstrapped owner) (auth_error owner_not_bootstrapped 403)
    created ← lift (iso_time created_at)
    callback ← lift (exact_https_url p redirect_uri)
    inserted ← attempt (
        insert_client (record {
          client_id = normalized;
          owner_id = owner_id;
          redirect_uri = callback;
          created_at = created;
          status = Standing.active;
        }))
    after_insert inserted normalized owner_id callback created
