-- ===== src/Auth/Consistent/Making.antt =====
-- `createGrant` and `createTokenFamily` keep the database consistent.
use dp_beget_bridge.Base.{
  ltb, leb, Ends, after-bind, after-lift, after-gets, after-require_some, after-require,
  Ends-commit, returned-bind, length, ok, ◌>>=◌, ℕ, String, ◌≡◌, refl, ◌∙◌, true, ◌&&◌, Option,
  none, some, List, arith, eq_iff, eq_refl,
}
use dp_beget_bridge.Auth.Model.{Grant, Family, Token, AuthDb, family_active}
use dp_beget_bridge.Auth.Platform.{
  Platform, Stamp, iso_time, grant_id_ok, profile_ok, hash_refresh_token, exact_https_url,
}
use dp_beget_bridge.Auth.Clients.{get_client}
use dp_beget_bridge.Auth.Scopes.{normalize_scopes, scopes_ok}
use dp_beget_bridge.Auth.Grants.{
  select_grant, insert_grant, get_grant, client_usable, GrantRequest, create_grant,
}
use dp_beget_bridge.Auth.Families.{
  family_is, select_family, storage_failure, insert_family, FamilyRequest, grant_matches,
  new_family, family_body, create_token_family,
}
use dp_beget_bridge.Auth.Consistent.{FamilyOk, IsConsistent}
use dp_beget_bridge.Auth.Consistent.Lookups.{get_grant-IsConsistent, get_token_family-IsConsistent}
use dp_beget_bridge.Auth.Consistent.Appending.{
  find-append_new, insert_grant-IsConsistent, appended_family, appended_token, insert_family_lem,
  insert_token_lem,
}

pub create_grant-IsConsistent :
    (p : Platform) (supported : List String) (request : GrantRequest) (db : AuthDb)
    → IsConsistent db
    → Ends IsConsistent (create_grant p supported request) db
unfolding create_grant
create_grant-IsConsistent p supported request db h =
    after-require _ db (grant_id_ok request.id) _ h λ _.
      after-gets _ db (get_client request.client_id) (
        after-require _ db (client_usable (get_client request.client_id db) request.owner_id) _ h
          λ _. after-require _ db (ltb 0 (length request.scopes)) _ h λ _.
            after-require _ db (scopes_ok supported (normalize_scopes request.scopes)) _ h λ _.
              after-lift _ db (iso_time request.granted_at) h λ granted _.
                after-lift _ db (iso_time request.expires_at) h λ expires _.
                  after-require _ db (ltb granted expires) _ h λ _.
                    after-require _ db (profile_ok request.execution_profile) _ h λ _.
                      after-lift _ db (exact_https_url p request.resource) h λ resource _.
                        after-bind _ db (insert_grant _) (insert_grant-IsConsistent _ db h)
                          λ _ db' _ h'. get_grant-IsConsistent request.id (some granted) db' h')

-- What `getGrant` returns is what the table then holds.
pub get_grant_lem :
    (id : String) (now : Stamp) (db : AuthDb) {row : Option Grant} {db' : AuthDb}
    → get_grant id now db ≡ (ok row, db')
    → select_grant id db' ≡ row
unfolding get_grant ◌>>=◌
get_grant_lem id (some current) db e = cc
get_grant_lem id none db e = cc

-- The two insertions of `createTokenFamily`, when both succeed.
family_body-IsConsistent :
    (family : Family) (token : Token) (db : AuthDb) {a : Unit {0}} {db' : AuthDb}
    → IsConsistent db
    → FamilyOk db family
    → token.family_id ≡ family.id
    → token.generation ≡ family.current_generation
    → token.expires_at ≡ family.expires_at
    → family_active family.status ≡ true
    → family_body family token db ≡ (ok a, db')
    → IsConsistent db'
family_body-IsConsistent family token db h fam same gen exp act e =
    let (_, db1, first, second) = returned-bind _ db (insert_family family) e in
    let (fresh, db1_is) = insert_family_lem family db first in
    let (new, alone, db2_is) = insert_token_lem token db1 second in
    let h1 : IsConsistent db1 = rw db1_is (appended_family family db h fam fresh) in
    let stored : select_family token.family_id db1 ≡ some family =
      rw (same, db1_is)
        (find-append_new (family_is family.id) db.families family fresh (eq_refl family.id)) in
    rw db2_is (
      appended_token token db1 h1
        (record {
          family = family;
          found = stored;
          bounded = omega arith;
          expiry = exp;
          open_family = λ _. act;
          newest = λ _. gen;
        })
        new alone)

-- The grant that `createTokenFamily` has tested fits the new family.
matching_FamilyOk :
    (request : FamilyRequest) (grant : Grant) (resource : String) (created expires : ℕ)
    (db : AuthDb)
    → select_grant request.grant_id db ≡ some grant
    → grant_matches grant request resource ≡ true
    → (ltb created expires && leb expires grant.expires_at) ≡ true
    → FamilyOk db (new_family request resource created expires)
unfolding grant_matches
matching_FamilyOk request grant resource created expires db found matches within = record {
  grant = grant;
  found = found;
  owner = ground (arith, eq_iff grant.owner_id request.owner_id);
  client = ground (arith, eq_iff grant.client_id request.client_id);
  resource = ground (arith, eq_iff grant.resource resource);
  expiry = ground arith;
}

pub create_token_family-IsConsistent :
    (p : Platform) (request : FamilyRequest) (db : AuthDb)
    → IsConsistent db
    → Ends IsConsistent (create_token_family p request) db
unfolding create_token_family
create_token_family-IsConsistent p request db h =
    after-require _ db (grant_id_ok request.id) _ h λ _.
      after-lift _ db (iso_time request.created_at) h λ created _.
        after-lift _ db (iso_time request.expires_at) h λ expires _.
          after-lift _ db (exact_https_url p request.resource) h λ resource _.
            after-lift _ db (hash_refresh_token p request.refresh_token) h λ digest _.
              after-bind _ db _ (get_grant-IsConsistent request.grant_id (some created) db h)
                λ found db1 read h1. after-require_some _ db1 found _ h1 λ grant is_found.
                  after-require _ db1 (grant_matches grant request resource) _ h1 λ matches.
                    after-require _ db1 (ltb created expires && leb expires grant.expires_at) _ h1
                      λ within.
                        after-bind _ db1 _
                          (Ends-commit storage_failure _ db1 h1 λ a db2 done.
                            family_body-IsConsistent (new_family request resource created expires) _
                              db1 h1
                              (matching_FamilyOk request grant resource created expires db1
                                (get_grant_lem request.grant_id (some created) db read ∙ is_found)
                                matches within)
                              refl refl refl refl done)
                          λ _ db2 _ h2.
                            get_token_family-IsConsistent request.id (some created) db2 h2
