-- ===== src/Auth/Consistent/Revoking.antt =====
-- Revocation and reset keep the database consistent.
use dp_beget_bridge.Base.{
  ltb, leb, if◌then◌else◌, Bool-cases, is_some, Ends, Ends-pure, Ends-gets, Ends-transaction,
  Ends-require, after-bind, after-lift, after-gets, after-require_some, after-require, after-modify,
  utf16_length, pure, count-update, length-update, ℕ, String, refl, inl, inr, true, false, Option,
  none, some, arith, ◌==◌, eq_iff,
}
use dp_beget_bridge.Auth.Model.{FamilyStatus, Family, AuthDb}
use dp_beget_bridge.Auth.Platform.{Platform, Stamp, iso_time, hash_refresh_token}
use dp_beget_bridge.Auth.Owners.{owner_is, get_owner}
use dp_beget_bridge.Auth.Clients.{client_is}
use dp_beget_bridge.Auth.Grants.{select_grant, set_grants}
use dp_beget_bridge.Auth.Families.{select_family, select_token, active_token_of}
use dp_beget_bridge.Auth.Revocation.{
  owned_family, revoke_found, revoke_token_family, family_of_token, client_allows, revoke_by_token,
  revoke_refresh_token, revoked_grant, owned_grant, open_family_of_grant, token_in, of_grant,
  revoke_grant_rows, owned_by, revoke_grant, active_grant_of, open_family_of_owner, of_owner,
  revoke_owner_rows, owner_access_summary, revoke_owner_access, disabled_client, reset_owner,
  reset_clients, reset_owners, reset_body, reset_owner_access,
}
use dp_beget_bridge.Auth.Consistent.{IsConsistent, IsConsistent-same}
use dp_beget_bridge.Auth.Consistent.Statements.{set_grants-IsConsistent}
use dp_beget_bridge.Auth.Consistent.Retire.{retire-IsConsistent}
use dp_beget_bridge.Auth.Consistent.Lookups.{
  KeepsBinding-revoked_grant, covers_family, covers_subselect, get_grant-IsConsistent,
}

revoke_found-IsConsistent :
    (row : Option Family) (id owner_id : String) (now : ℕ) (reason : String) (db : AuthDb)
    → IsConsistent db
    → Ends IsConsistent (revoke_found row id owner_id now reason) db
unfolding revoke_found
revoke_found-IsConsistent none id owner_id now reason db h = Ends-pure false db h
revoke_found-IsConsistent (some row) id owner_id now reason db h =
    elim (Bool-cases (row.owner_id == owner_id)) [
      | inl mine ↦ rw mine (
          after-modify _ db _ (
            Ends-pure true _ (
              retire-IsConsistent _ FamilyStatus.revoked now reason (λ _. active_token_of id) db h
                (covers_family (owned_family id owner_id) id FamilyStatus.revoked now reason db
                  (λ f e. ground (arith, eq_iff f.id id))))))
      | inr other ↦ rw other (Ends-pure false db h)
    ]

pub revoke_token_family-IsConsistent :
    (id owner_id : String) (at : Stamp) (reason : String) (db : AuthDb)
    → IsConsistent db
    → Ends IsConsistent (revoke_token_family id owner_id at reason) db
unfolding revoke_token_family
revoke_token_family-IsConsistent id owner_id at reason db h =
    after-lift _ db (iso_time at) h λ now _.
      after-gets _ db (select_family id)
        (revoke_found-IsConsistent (select_family id db) id owner_id now reason db h)

revoke_by_token-IsConsistent :
    (p : Platform) (row : Option Family) (client_id : Option String) (now : ℕ) (reason : String)
    (db : AuthDb)
    → IsConsistent db
    → Ends IsConsistent (revoke_by_token p row client_id now reason) db
unfolding revoke_by_token
revoke_by_token-IsConsistent p none client_id now reason db h = Ends-pure false db h
revoke_by_token-IsConsistent p (some row) client_id now reason db h =
    after-lift _ db (client_allows p client_id row) h λ allowed _.
      elim allowed
        as (λ b.
          Ends IsConsistent
            (if b then revoke_token_family row.id row.owner_id (some now) reason else pure false)
            db) [
              | true ↦ revoke_token_family-IsConsistent row.id row.owner_id (some now) reason db h
              | false ↦ Ends-pure false db h
            ]

pub revoke_refresh_token-IsConsistent :
    (p : Platform) (token : String) (client_id : Option String) (at : Stamp) (reason : String)
    (db : AuthDb)
    → IsConsistent db
    → Ends IsConsistent (revoke_refresh_token p token client_id at reason) db
unfolding revoke_refresh_token
revoke_refresh_token-IsConsistent p token client_id at reason db h =
    after-lift _ db (iso_time at) h λ now _.
      after-lift _ db (hash_refresh_token p token) h λ digest _.
        after-gets _ db (select_token digest) (
          after-gets _ db (family_of_token (select_token digest db))
            (revoke_by_token-IsConsistent p _ client_id now reason db h))

revoke_grant_rows-IsConsistent :
    (grant_id owner_id : String) (now : ℕ) (reason : String) (db : AuthDb)
    → IsConsistent db
    → IsConsistent (revoke_grant_rows grant_id owner_id now reason db)
unfolding revoke_grant_rows
revoke_grant_rows-IsConsistent grant_id owner_id now reason db h =
    retire-IsConsistent _ FamilyStatus.revoked now reason (token_in (of_grant grant_id))
      (set_grants (owned_grant grant_id owner_id) revoked_grant db)
      (set_grants-IsConsistent _ KeepsBinding-revoked_grant db h)
      (covers_subselect (open_family_of_grant grant_id) (of_grant grant_id) FamilyStatus.revoked now
        reason (set_grants (owned_grant grant_id owner_id) revoked_grant db) (λ f e. ground arith)
        (λ f. refl))

revoke_owner_rows-IsConsistent :
    (owner_id : String) (status : FamilyStatus) (now : ℕ) (reason : String) (db : AuthDb)
    → IsConsistent db
    → IsConsistent (revoke_owner_rows owner_id status now reason db)
unfolding revoke_owner_rows
revoke_owner_rows-IsConsistent owner_id status now reason db h =
    retire-IsConsistent _ status now reason (token_in (of_owner owner_id))
      (set_grants (active_grant_of owner_id) revoked_grant db)
      (set_grants-IsConsistent _ KeepsBinding-revoked_grant db h)
      (covers_subselect (open_family_of_owner owner_id) (of_owner owner_id) status now reason
        (set_grants (active_grant_of owner_id) revoked_grant db) (λ f e. ground arith) (λ f. refl))

pub revoke_grant-IsConsistent :
    (grant_id owner_id : String) (at : Stamp) (reason : String) (db : AuthDb)
    → IsConsistent db
    → Ends IsConsistent (revoke_grant grant_id owner_id at reason) db
unfolding revoke_grant
revoke_grant-IsConsistent grant_id owner_id at reason db h =
    after-lift _ db (iso_time at) h λ now _. after-gets _ db (select_grant grant_id) (
      after-require _ db (owned_by (select_grant grant_id db) owner_id) _ h λ _.
        after-modify _ db (revoke_grant_rows grant_id owner_id now reason) (
          get_grant-IsConsistent grant_id (some now) _
            (revoke_grant_rows-IsConsistent grant_id owner_id now reason db h)))

owner_access_summary-IsConsistent :
    (owner_id : String) (db : AuthDb)
    → IsConsistent db
    → Ends IsConsistent (owner_access_summary owner_id) db
unfolding owner_access_summary
owner_access_summary-IsConsistent owner_id db h =
    after-gets _ db (get_owner owner_id)
      (after-require_some _ db (get_owner owner_id db) _ h λ owner _. Ends-gets _ db h)

pub revoke_owner_access-IsConsistent :
    (owner_id : String) (at : Stamp) (reason : String) (db : AuthDb)
    → IsConsistent db
    → Ends IsConsistent (revoke_owner_access owner_id at reason) db
unfolding revoke_owner_access
revoke_owner_access-IsConsistent owner_id at reason db h = after-lift _ db (iso_time at) h λ now _.
    after-gets _ db (get_owner owner_id) (
      after-require _ db (is_some (get_owner owner_id db)) _ h λ _.
        after-modify _ db (revoke_owner_rows owner_id FamilyStatus.revoked now reason) (
          owner_access_summary-IsConsistent owner_id _
            (revoke_owner_rows-IsConsistent owner_id FamilyStatus.revoked now reason db h)))

reset_clients-IsConsistent :
    (owner_id : String) (db : AuthDb) → IsConsistent db → IsConsistent (reset_clients owner_id db)
reset_clients-IsConsistent owner_id db h = IsConsistent-same h refl refl refl h.one_owner λ id.
    rw
      (count-update (client_is id) (λ c. c.owner_id == owner_id) disabled_client db.clients
        (λ c. refl))
      (h.clients_unique id)

reset_owners-IsConsistent :
    (owner_id digest : String) (expires : ℕ) (db : AuthDb)
    → IsConsistent db
    → IsConsistent (reset_owners owner_id digest expires db)
reset_owners-IsConsistent owner_id digest expires db h =
    IsConsistent-same h refl refl refl
      (rw (length-update (owner_is owner_id) (reset_owner digest expires) db.owners) h.one_owner)
      h.clients_unique

pub reset_owner_access-IsConsistent :
    (p : Platform) (owner_id secret : String) (at expires_at : Stamp) (db : AuthDb)
    → IsConsistent db
    → Ends IsConsistent (reset_owner_access p owner_id secret at expires_at) db
unfolding reset_owner_access reset_body
reset_owner_access-IsConsistent p owner_id secret at expires_at db h =
    after-require _ db (leb 32 (utf16_length secret)) _ h λ _.
      after-lift _ db (iso_time at) h λ now _. after-lift _ db (iso_time expires_at) h λ expires _.
        after-require _ db (ltb now expires) _ h λ _. after-gets _ db (get_owner owner_id) (
          after-require _ db (is_some (get_owner owner_id db)) _ h λ _.
            after-bind _ db _
              (Ends-transaction _ _ db h (
                after-modify _ db (revoke_owner_rows owner_id FamilyStatus.reset now "owner_reset")
                  (after-modify _ _ (reset_clients owner_id) (
                    after-gets _ _ _ (
                      after-modify _ _ _ (
                        Ends-require _ _ _ (
                          reset_owners-IsConsistent owner_id _ expires _ (
                            reset_clients-IsConsistent owner_id _ (
                              revoke_owner_rows-IsConsistent owner_id FamilyStatus.reset now
                                "owner_reset" db h)))))))))
              λ _ db' _ h'. Ends-gets (get_owner owner_id) db' h')
