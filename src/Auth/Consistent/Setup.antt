-- ===== src/Auth/Consistent/Setup.antt =====
-- Owners and clients: what their methods write keeps the database consistent.
use dp_beget_bridge.Base.{
  ltb, leb, Bool-cases, is_some, Ends, Ends-pure, Ends-throw, Ends-gets, Ends-recover, Ends-modify,
  after-bind, after-lift, after-gets, after-require_some, after-require, after-modify, utf16_length,
  Result, ok, err, find, update, count-update, unique_append, length-update, ℕ, String, refl, inl,
  inr, not, ◌&&◌, Option, none, some, List, [], ◌∷◌, arith, ◌==◌,
}
use dp_beget_bridge.Auth.Model.{AuthError, unique_violation, Owner, Client, AuthDb, is_active}
use dp_beget_bridge.Auth.Platform.{
  Platform, Stamp, iso_time, owner_id_ok, equal_digest, hash_secret, exact_https_url,
  client_identifier,
}
use dp_beget_bridge.Auth.Owners.{
  owner_is, get_owner, insert_owner_into, owner_exists, unconsumed, with_consumed,
  create_owner_bootstrap, consume_owner_bootstrap,
}
use dp_beget_bridge.Auth.Clients.{
  client_is, get_client, insert_client, is_bootstrapped, disabled_row, reactivated, on_existing,
  after_insert, register_client,
}
use dp_beget_bridge.Auth.Consistent.{IsConsistent, IsConsistent-same}

pub create_owner_bootstrap-IsConsistent :
    (p : Platform) (id secret : String) (created_at expires_at : Stamp) (db : AuthDb)
    → IsConsistent db
    → Ends IsConsistent (create_owner_bootstrap p id secret created_at expires_at) db
unfolding create_owner_bootstrap
create_owner_bootstrap-IsConsistent p id secret created_at expires_at db h =
    after-require _ db (owner_id_ok id) _ h λ _.
      after-require _ db (leb 32 (utf16_length secret)) _ h λ _.
        after-lift _ db (iso_time created_at) h λ created _.
          after-lift _ db (iso_time expires_at) h λ expires _.
            after-require _ db (ltb created expires) _ h λ _.
              after-gets _ db (λ s. s.owners)
                (after-bind _ db _ (Ends-recover owner_exists _ db (inserted db.owners _))
                  λ _ db' _ h'. Ends-gets (get_owner id) db' h')
  where
    inserted : (rows : List Owner) (row : Owner) → Ends IsConsistent (insert_owner_into rows row) db
    inserted [] row = record {
      at = IsConsistent-same h refl refl refl (omega arith) h.clients_unique;
    }
    inserted (_ ∷ _) row = record { at = h }

pub consume_owner_bootstrap-IsConsistent :
    (p : Platform) (secret : String) (now : Stamp) (db : AuthDb)
    → IsConsistent db
    → Ends IsConsistent (consume_owner_bootstrap p secret now) db
unfolding consume_owner_bootstrap
consume_owner_bootstrap-IsConsistent p secret now db h =
    after-lift _ db (iso_time now) h λ current _.
      after-gets _ db (λ s. find unconsumed s.owners)
        (after-require_some _ db (find unconsumed db.owners) _ h λ row _.
          after-require _ db (ltb current row.bootstrap_expires_at) _ h λ _.
            after-require _ db (equal_digest (hash_secret p secret) row.bootstrap_digest) _ h λ _.
              after-gets _ db _ (
                after-modify _ db _ (
                  after-require _ _ _ _ (written current row)
                    λ _. Ends-gets (get_owner row.id) _ (written current row))))
  where
    written :
        (current : ℕ) (row : Owner)
        → IsConsistent (record db {
          owners =
              update (λ o. owner_is row.id o && unconsumed o) (with_consumed current) db.owners;
        })
    written current row =
        IsConsistent-same h refl refl refl
          (rw
            (length-update (λ o. owner_is row.id o && unconsumed o) (with_consumed current)
              db.owners)
            h.one_owner)
          h.clients_unique

insert_client-IsConsistent :
    (row : Client) (db : AuthDb) → IsConsistent db → Ends IsConsistent (insert_client row) db
unfolding insert_client get_client
insert_client-IsConsistent row db h = after-gets _ db (get_client row.client_id) (
    after-gets _ db (get_owner row.owner_id) (
      after-require _ db (not (is_some (get_client row.client_id db))) _ h λ fresh.
        after-require _ db (is_some (get_owner row.owner_id db)) _ h λ _. Ends-modify _ db (
          IsConsistent-same h refl refl refl h.one_owner λ id.
            unique_append (λ r. r.client_id) db.clients row h.clients_unique (ground arith) id)))

after_insert-IsConsistent :
    (r : Result AuthError (Unit {0})) (client_id owner_id callback : String) (created : ℕ)
    (db : AuthDb)
    → IsConsistent db
    → Ends IsConsistent (after_insert r client_id owner_id callback created) db
unfolding after_insert
after_insert-IsConsistent (ok _) client_id owner_id callback created db h =
    Ends-gets (get_client client_id) db h
after_insert-IsConsistent (err unique_violation) client_id owner_id callback created db h =
    after-gets _ db (get_client client_id) (existing (get_client client_id db))
  where
    reactivated_rows : IsConsistent (record db {
      clients = update (disabled_row client_id owner_id callback) (reactivated created) db.clients;
    })
    reactivated_rows = IsConsistent-same h refl refl refl h.one_owner λ id.
        rw
          (count-update (client_is id) (disabled_row client_id owner_id callback)
            (reactivated created) db.clients (λ c. refl))
          (h.clients_unique id)

    existing :
        (row : Option Client)
        → Ends IsConsistent (on_existing row client_id owner_id callback created) db
    existing none = Ends-throw _ db h
    existing (some row) =
        elim (Bool-cases (row.owner_id == owner_id && row.redirect_uri == callback)) [
          | inl same ↦ rw same (elim (Bool-cases (is_active row.status)) [
            | inl on ↦ rw on (Ends-pure (some row) db h)
            | inr off ↦ rw off (
                after-gets _ db _ (
                  after-modify _ db _ (
                    after-require _ _ _ _ reactivated_rows
                      λ _. Ends-gets (get_client client_id) _ reactivated_rows)))
          ])
          | inr differ ↦ rw differ (Ends-throw _ db h)
        ]
after_insert-IsConsistent (err e) client_id owner_id callback created db h = Ends-throw e db h

pub register_client-IsConsistent :
    (p : Platform) (client_id owner_id redirect_uri : String) (created_at : Stamp) (db : AuthDb)
    → IsConsistent db
    → Ends IsConsistent (register_client p client_id owner_id redirect_uri created_at) db
unfolding register_client
register_client-IsConsistent p client_id owner_id redirect_uri created_at db h =
    after-lift _ db (client_identifier p client_id) h λ normalized _.
      after-gets _ db (get_owner owner_id) (
        after-require _ db (is_bootstrapped (get_owner owner_id db)) _ h λ _.
          after-lift _ db (iso_time created_at) h λ created _.
            after-lift _ db (exact_https_url p redirect_uri) h λ callback _.
              after-bind _ db _ (record { at = (insert_client-IsConsistent _ db h).at })
                λ r db' _ h'.
                  after_insert-IsConsistent r normalized owner_id callback created db' h')
