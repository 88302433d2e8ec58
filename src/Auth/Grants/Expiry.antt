-- ===== src/Auth/Grants/Expiry.antt =====
-- The lookups never hand out a row that is active past its expiry.
use dp_beget_bridge.Auth.Families.{
  family_is, select_family, active_family_is, active_token_of, expire_family, get_token_family,
}
use dp_beget_bridge.Auth.Consistent.Retire.{select-family_retire}
use dp_beget_bridge.Auth.Model.{
  GrantStatus, FamilyStatus, Grant, Family, AuthDb, grant_active, family_active,
}
use dp_beget_bridge.Base.{
  ok, ◌>>=◌, find_sound, find-update, ℕ, ◌<◌, String, ◌≡◌, refl, ap, true, Option, none, some,
  arith, eq_iff, eq_refl,
}
use dp_beget_bridge.Auth.Grants.{
  grant_is, select_grant, active_grant_is, expired_grant, expire_grant, get_grant,
}

expired_grant_lem :
    (row : Option Grant) (id : String) (now : ℕ) (db : AuthDb) (g : Grant)
    → select_grant id db ≡ row
    → select_grant id (expire_grant row now db) ≡ some g
    → grant_active g.status ≡ true
    → now < g.expires_at
unfolding expire_grant
expired_grant_lem none id now db g e found active = ground arith
expired_grant_lem (some row) id now db g e found active =
    let here = (eq_iff row.id id).0 (find_sound (grant_is id) db.grants row e) in
    let out =
      find-update (grant_is id) (active_grant_is row.id) expired_grant db.grants (λ x. refl) in
    ground (arith, here, out, e, eq_refl row.id)

-- A grant that `getGrant` returns as active expires after the time of the call.
pub get_grant_unexpired :
    (id : String) (now : ℕ) (db : AuthDb) (g : Grant) (db' : AuthDb)
    → get_grant id (some now) db ≡ (ok (some g), db')
    → g.status ≡ GrantStatus.active
    → now < g.expires_at
unfolding get_grant ◌>>=◌
get_grant_unexpired id now db g db' e active =
    expired_grant_lem (select_grant id db) id now db g refl (cc e) (ap grant_active active)

expired_family_lem :
    (row : Option Family) (id : String) (now : ℕ) (db : AuthDb) (f : Family)
    → select_family id db ≡ row
    → select_family id (expire_family row now db) ≡ some f
    → family_active f.status ≡ true
    → now < f.expires_at
unfolding expire_family
expired_family_lem none id now db f e found active = ground arith
expired_family_lem (some row) id now db f e found active =
    let here = (eq_iff row.id id).0 (find_sound (family_is id) db.families row e) in
    let out =
      select-family_retire (active_family_is row.id) FamilyStatus.expired now "expired"
        (λ _. active_token_of row.id) db id in
    ground (arith, here, out, e, eq_refl row.id)

-- A token family that `getTokenFamily` returns as active expires after the time of the call.
pub get_token_family_unexpired :
    (id : String) (now : ℕ) (db : AuthDb) (f : Family) (db' : AuthDb)
    → get_token_family id (some now) db ≡ (ok (some f), db')
    → f.status ≡ FamilyStatus.active
    → now < f.expires_at
unfolding get_token_family ◌>>=◌
get_token_family_unexpired id now db f db' e active =
    expired_family_lem (select_family id db) id now db f refl (cc e) (ap family_active active)
