-- ===== src/Auth/Owners.antt =====
-- auth-store.js: the owner of the installation and its one-time bootstrap secret.
pub mod Bootstrap
use dp_beget_bridge.Base.{
  ltb, leb, eqb, is_some, utf16_length, Result, ok, err, Action, ◌>>=◌, ◌>>◌, lift, gets, modify,
  require, recover, require_some, find, update, count, ℕ, String, Bool, not, ◌&&◌, Option, none,
  some, List, [], ◌∷◌, ◌==◌,
}
use dp_beget_bridge.Auth.Model.{
  invalid_owner, invalid_bootstrap, owner_already_exists, bootstrap_unavailable, bootstrap_expired,
  bootstrap_denied, AuthError, auth_error, unique_violation, Standing, Owner, AuthDb, is_active,
}
use dp_beget_bridge.Auth.Platform.{
  Platform, Stamp, iso_time, owner_id_ok, equal_digest, hash_secret,
}

abbrev pub owner_is : String → Owner → Bool
owner_is id row = row.id == id

unfoldable pub get_owner : String → AuthDb → Option Owner
get_owner id db = find (owner_is id) db.owners

-- INSERT INTO owners: PRIMARY KEY (id) and UNIQUE (singleton). As the column `singleton` is always
-- 1, any row at all is a conflict.
unfoldable pub insert_owner_into : List Owner → Owner → Action AuthDb AuthError (Unit {0})
insert_owner_into [] row db = (ok tt, record db { owners = row ∷ [] })
insert_owner_into (_ ∷ _) row db = (err unique_violation, db)

-- the `catch` of `createOwnerBootstrap`
unfoldable pub owner_exists : Result AuthError (Unit {0}) → Result AuthError (Unit {0})
owner_exists (err unique_violation) = err (auth_error owner_already_exists 409)
owner_exists r = r

-- the row that `consumeOwnerBootstrap` selects
abbrev pub unconsumed : Owner → Bool
unconsumed row = is_active row.status && not (is_some row.bootstrap_consumed_at)

abbrev pub with_consumed : ℕ → Owner → Owner
with_consumed now row = record row { bootstrap_consumed_at = some now }

module _ (p : Platform) where
  unfoldable pub create_owner_bootstrap :
      String → String → Stamp → Stamp → Action AuthDb AuthError (Option Owner)
  unfolding insert_owner_into owner_exists get_owner hash_secret
  create_owner_bootstrap owner_id secret created_at expires_at = do
    require (owner_id_ok owner_id) (auth_error invalid_owner 400)
    require (leb 32 (utf16_length secret)) (auth_error invalid_bootstrap 400)
    created ← lift (iso_time created_at)
    expires ← lift (iso_time expires_at)
    require (ltb created expires) (auth_error invalid_bootstrap 400)
    owners ← gets (λ db. db.owners)
    recover owner_exists (
        insert_owner_into owners (record {
          id = owner_id;
          created_at = created;
          bootstrap_digest = hash_secret p secret;
          bootstrap_expires_at = expires;
          bootstrap_consumed_at = none;
          status = Standing.active;
        }))
    gets (get_owner owner_id)

  unfoldable pub consume_owner_bootstrap : String → Stamp → Action AuthDb AuthError (Option Owner)
  unfolding get_owner hash_secret equal_digest
  consume_owner_bootstrap secret now = do
    current ← lift (iso_time now)
    found ← gets (λ db. find unconsumed db.owners)
    row ← require_some found (auth_error bootstrap_unavailable 409)
    require (ltb current row.bootstrap_expires_at) (auth_error bootstrap_expired 410)
    require (equal_digest (hash_secret p secret) row.bootstrap_digest)
        (auth_error bootstrap_denied 403)
    changes ← gets (λ db. count (λ o. owner_is row.id o && unconsumed o) db.owners)
    modify (λ db. record db {
      owners = update (λ o. owner_is row.id o && unconsumed o) (with_consumed current) db.owners;
    })
    require (eqb changes 1) (auth_error bootstrap_unavailable 409)
    gets (get_owner row.id)
