-- ===== src/Auth/Grants/Creation.antt =====
-- What `createGrant` has checked when it returns, and the row that it leaves.
use dp_beget_bridge.Base.{
  ltb, returned-bind, returned-lift, returned-gets, returned-require, returned_unique, length, ok,
  ◌>>=◌, ℕ, ◌<◌, String, ◌≡◌, refl, ap, ◌∙◌, true, false, not, ◌&&◌, Option, none, some, List, [],
  ◌∷◌, ◌++◌, arith, eq_iff, eq_refl,
}
use dp_beget_bridge.Auth.Model.{Standing, GrantStatus, Client, Grant, AuthDb}
use dp_beget_bridge.Auth.Platform.{Platform, iso_time, grant_id_ok, profile_ok, exact_https_url}
use dp_beget_bridge.Auth.Clients.{get_client}
use dp_beget_bridge.Auth.Scopes.{contains, normalize_scopes, scopes_ok}
use dp_beget_bridge.Auth.Scopes.Laws.{IsDistinct, normalize_scopes_lem, scopes_ok_lem}
use dp_beget_bridge.Auth.Grants.{
  grant_is, select_grant, insert_grant, get_grant, client_usable, GrantRequest, create_grant,
}
use dp_beget_bridge.Auth.Rotation.Success.{get_grant_live}
use dp_beget_bridge.Auth.Consistent.Appending.{find-append_new}

insert_grant_lem :
    (row : Grant) (db : AuthDb) {a : Unit {0}} {db' : AuthDb}
    → insert_grant row db ≡ (ok a, db')
    → (select_grant row.id db ≡ none) × (db' ≡ record db { grants = db.grants ++ row ∷ [] })
unfolding insert_grant ◌>>=◌
insert_grant_lem row db h = ground arith

-- A new grant that is active and has not expired is read back as it was stored.
insert_grant-get_grant :
    (row : Grant) (now : ℕ) (db : AuthDb) {a : Unit {0}} {db' : AuthDb}
    → insert_grant row db ≡ (ok a, db')
    → now < row.expires_at
    → (select_grant row.id db ≡ none)
      × (select_grant row.id db' ≡ some row)
      × (get_grant row.id (some now) db' ≡ (ok (some row), db'))
insert_grant-get_grant row now db {a} {db'} inserted live =
    let (fresh, is_db) = insert_grant_lem row db inserted in
    let stored : select_grant row.id db' ≡ some row =
      ap (select_grant row.id) is_db
      ∙ find-append_new (grant_is row.id) db.grants row fresh (eq_refl row.id) in
    (fresh, stored, get_grant_live row.id now db' row stored (ground arith))

client_usable_lem :
    (c : Option Client) (owner_id : String)
    → client_usable c owner_id ≡ true
    → (row : Client) × (c ≡ some row) × (row.status ≡ Standing.active) × (row.owner_id ≡ owner_id)
unfolding client_usable
client_usable_lem none owner_id e = ground arith
client_usable_lem (some row) owner_id e =
    (row, refl, ground arith, ground (arith, eq_iff row.owner_id owner_id))

-- A grant that `createGrant` returns is active and new, and stored. It is for the requested owner and
-- client, which is registered and active for this owner. A scope is granted exactly if it is requested,
-- and then it is supported; no scope is granted twice. The grant expires after it is granted.
pub create_grant_sound :
    (p : Platform) (supported : List String) (request : GrantRequest) (db : AuthDb)
    (o : Option Grant) (db' : AuthDb) (s : String)
    → create_grant p supported request db ≡ (ok o, db')
    → (g : Grant) × (o ≡ some g)
      × (select_grant request.id db ≡ none)
      × (g.status ≡ GrantStatus.active)
      × (g.granted_at < g.expires_at)
      × IsDistinct g.scopes
      × (contains g.scopes s ≡ contains request.scopes s)
      × ((contains g.scopes s && not (contains supported s)) ≡ false)
      × (g.id ≡ request.id)
      × (g.owner_id ≡ request.owner_id)
      × (g.client_id ≡ request.client_id)
      × (select_grant request.id db' ≡ some g)
      × ((c : Client) × (get_client request.client_id db ≡ some c)
          × (c.status ≡ Standing.active)
          × (c.owner_id ≡ request.owner_id))
unfolding create_grant
create_grant_sound p supported request db o db' s e =
    let scopes = normalize_scopes request.scopes in
    let (_, e1) = returned-require _ db (grant_id_ok request.id) _ e in
    let e2 = returned-gets _ db (get_client request.client_id) e1 in
    let (usable, e3) =
      returned-require _ db (client_usable (get_client request.client_id db) request.owner_id) _
        e2 in
    let (_, e4) = returned-require _ db (ltb 0 (length request.scopes)) _ e3 in
    let (good, e5) = returned-require _ db (scopes_ok supported scopes) _ e4 in
    let (granted, _, e6) = returned-lift _ db (iso_time request.granted_at) e5 in
    let (expires, _, e7) = returned-lift _ db (iso_time request.expires_at) e6 in
    let (order, e8) = returned-require _ db (ltb granted expires) _ e7 in
    let (_, e9) = returned-require _ db (profile_ok request.execution_profile) _ e8 in
    let (resource, _, e10) = returned-lift _ db (exact_https_url p request.resource) e9 in
    let g : Grant = record {
      id = request.id;
      owner_id = request.owner_id;
      client_id = request.client_id;
      resource = resource;
      scopes = scopes;
      execution_profile = request.execution_profile;
      granted_at = granted;
      expires_at = expires;
      status = GrantStatus.active;
    } in
    let (_, db1, inserted, e11) = returned-bind _ db (insert_grant g) e10 in
    let (fresh, stored, read) = insert_grant-get_grant g granted db inserted (ground arith) in
    let (is_o, is_db') = returned_unique e11 read in
    let (distinct, same) = normalize_scopes_lem request.scopes s in
    (
      g,
      is_o,
      fresh,
      refl,
      ground arith,
      distinct,
      same,
      ground (arith, scopes_ok_lem supported scopes s good),
      refl,
      refl,
      refl,
      ap (select_grant request.id) is_db' ∙ stored,
      client_usable_lem (get_client request.client_id db) request.owner_id usable,
    )
