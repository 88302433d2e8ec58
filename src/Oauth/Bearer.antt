-- ===== src/Oauth/Bearer.antt =====
-- What a bearer token is good for.
use mathlib.Core.Option
use dp_beget_bridge.Base.{
  leb, Bool-cases, Option-cases, returned-gets, returned-modify, ok, pure, ◌>>=◌, find, find_sound,
  find-update, ℕ, ◌<◌, String, ◌≡◌, refl, sym, ap, subst, ◌∙◌, inl, inr, true, ◌&&◌, Option, none,
  some, arith, eq_iff, eq_refl,
}
use dp_beget_bridge.Auth.Model.{FamilyStatus, Grant, Family, AuthDb, grant_active, family_active}
use dp_beget_bridge.Auth.Grants.{
  grant_is, select_grant, active_grant_is, expired_grant, expire_grant, get_grant,
}
use dp_beget_bridge.Auth.Families.{
  family_is, select_family, active_family_is, active_token_of, expire_family, get_token_family,
}
use dp_beget_bridge.Auth.Consistent.Retire.{select-family_retire}
use dp_beget_bridge.Oauth.Model.{Config, AccessEntry, Server, digest, cleanup}
use dp_beget_bridge.Oauth.Access.{
  access_is, kept_if, store_or_null, grant_for_access, family_for_access, check_family, answered,
  after_grant, check_access, check_presented, usable, authenticate_token, authenticate,
}

-- an active grant that `getGrant` returns is stored as it is
read_grant_stored :
    (row : Option Grant) (id : String) (now : ℕ) (db : AuthDb) (g : Grant)
    → select_grant id db ≡ row
    → select_grant id (expire_grant row now db) ≡ some g
    → grant_active g.status ≡ true
    → (select_grant id db ≡ some g) × (now < g.expires_at)
unfolding expire_grant
read_grant_stored none id now db g e found active = ground arith
read_grant_stored (some row) id now db g e found active =
    let here = (eq_iff row.id id).0 (find_sound (grant_is id) db.grants row e) in
    let out =
      find-update (grant_is id) (active_grant_is row.id) expired_grant db.grants (λ x. refl) in
    elim (Bool-cases (grant_active row.status && leb row.expires_at now)) [
      | inl on ↦ ground (arith, here, out, e, eq_refl row.id)
      | inr off ↦ let same = rw off at found in (same, ground (arith, same, e))
    ]

read_family_stored :
    (row : Option Family) (id : String) (now : ℕ) (db : AuthDb) (f : Family)
    → select_family id db ≡ row
    → select_family id (expire_family row now db) ≡ some f
    → family_active f.status ≡ true
    → (select_family id db ≡ some f) × (now < f.expires_at)
unfolding expire_family
read_family_stored none id now db f e found active = ground arith
read_family_stored (some row) id now db f e found active =
    let here = (eq_iff row.id id).0 (find_sound (family_is id) db.families row e) in
    let out =
      select-family_retire (active_family_is row.id) FamilyStatus.expired now "expired"
        (λ _. active_token_of row.id) db id in
    elim (Bool-cases (family_active row.status && leb row.expires_at now)) [
      | inl on ↦ ground (arith, here, out, e, eq_refl row.id)
      | inr off ↦ let same = rw off at found in (same, ground (arith, same, e))
    ]

expire_grant_families :
    (row : Option Grant) (now : ℕ) (db : AuthDb) → (expire_grant row now db).families ≡ db.families
unfolding expire_grant
expire_grant_families none now db = refl
expire_grant_families (some row) now db =
    elim (Bool-cases (grant_active row.status && leb row.expires_at now)) [
      | inl on ↦ rw on refl
      | inr off ↦ rw off refl
    ]

-- The grant that an access token stands on.
abbrev Granted : AccessEntry → ℕ → AuthDb → Type 0
Granted e now db =
    (g : Grant) × (select_grant e.grant_id db ≡ some g)
    × (grant_active g.status ≡ true)
    × (now < g.expires_at)
    × (g.owner_id ≡ e.owner_id)
    × (g.client_id ≡ e.client_id)

-- The family that it was issued in.
abbrev InFamily : AccessEntry → String → ℕ → AuthDb → Type 0
InFamily e id now db =
    (f : Family) × (select_family id db ≡ some f)
    × (family_active f.status ≡ true)
    × (now < f.expires_at)
    × (f.grant_id ≡ e.grant_id)

Granted-by :
    (read : Option Grant) (e : AccessEntry) (now : ℕ) (db : AuthDb)
    → select_grant e.grant_id (expire_grant (select_grant e.grant_id db) now db) ≡ read
    → grant_for_access e read ≡ true
    → Granted e now db
unfolding grant_for_access
Granted-by none e now db found ok_grant = ground arith
Granted-by (some g) e now db found ok_grant =
    let active : grant_active g.status ≡ true = ground arith in
    let (stored, unexpired) =
      read_grant_stored (select_grant e.grant_id db) e.grant_id now db g refl found active in
    (
      g,
      stored,
      active,
      unexpired,
      (eq_iff g.owner_id e.owner_id).0 (ground arith),
      (eq_iff g.client_id e.client_id).0 (ground arith),
    )

family_by :
    (read : Option Family) (e : AccessEntry) (id : String) (now : ℕ) (db : AuthDb)
    → select_family id (expire_family (select_family id db) now db) ≡ read
    → family_for_access e read ≡ true
    → InFamily e id now db
unfolding family_for_access
family_by none e id now db found ok_family = ground arith
family_by (some f) e id now db found ok_family =
    let active : family_active f.status ≡ true = ground arith in
    let (stored, unexpired) =
      read_family_stored (select_family id db) id now db f refl found active in
    (f, stored, active, unexpired, (eq_iff f.grant_id e.grant_id).0 (ground arith))

-- the database after `getGrant`
abbrev read_db : AccessEntry → ℕ → AuthDb → AuthDb
read_db e now db = expire_grant (select_grant e.grant_id db) now db

check_access_reads :
    (e : AccessEntry) (now : ℕ) (s : Server)
    → check_access e now s
      ≡ after_grant e now
          (grant_for_access e (select_grant e.grant_id (read_db e now s.db)))
          (record s { db = read_db e now s.db })
unfolding check_access store_or_null get_grant ◌>>=◌
check_access_reads e now s = refl

family_checked :
    (family : Option String) (e given : AccessEntry) (now : ℕ) (s t : Server)
    → (check_family e family now >>= λ live. pure (answered e live)) s ≡ (ok (some given), t)
    → (given ≡ e) × ((id : String) → family ≡ some id → InFamily e id now s.db)
unfolding check_family store_or_null get_token_family ◌>>=◌
family_checked none e given now s t returned = (cc, λ id bad. cc)
family_checked (some id) e given now s t returned =
    elim (Bool-cases
      (family_for_access e (select_family id (expire_family (select_family id s.db) now s.db)))) [
        | inl live ↦
            let out = rw live at returned in
            (
              cc,
              λ k same.
                  subst (λ i. InFamily e i now s.db) (Option.some-injective _ _ same)
                    (family_by (select_family id (expire_family (select_family id s.db) now s.db)) e
                      id now s.db refl live),
            )
        | inr dead ↦ let out = rw dead at returned in cc
      ]

access_checked :
    (e given : AccessEntry) (now : ℕ) (s t : Server)
    → check_access e now s ≡ (ok (some given), t)
    → (given ≡ e)
      × Granted e now s.db
      × ((id : String) → e.family_id ≡ some id → InFamily e id now s.db)
unfolding after_grant pure
access_checked e given now s t returned =
    let read = select_grant e.grant_id (read_db e now s.db) in
    let steps = sym (check_access_reads e now s) ∙ returned in
    elim (Bool-cases (grant_for_access e read)) [
      | inr refused ↦ let out = rw refused at steps in cc
      | inl granted ↦
          let (same, family) =
            family_checked e.family_id e given now (record s { db = read_db e now s.db }) t
              (rw granted at steps) in
          (
            same,
            Granted-by read e now s.db refl granted,
            λ id has.
                let (f, stored, active, unexpired, grant) = family id has in
                (
                  f,
                  ap (find (family_is id))
                        (sym (expire_grant_families (select_grant e.grant_id s.db) now s.db))
                      ∙ stored,
                  active,
                  unexpired,
                  grant,
                ),
          )
    ]

-- A bearer token that `authenticate` accepts is stored, for this server's resource and not expired, and
-- at that time its grant is stored in the auth store, active and not expired, with the owner and client
-- of the token. If the token was issued in a family, the family is stored too, active, not expired and
-- of that grant: so neither a revoked grant nor a revoked or compromised family lets a token in.
pub authenticate_sound :
    (c : Config) (token : String) (now : ℕ) (s t : Server) (e : AccessEntry)
    → authenticate c (some token) now s ≡ (ok (some e), t)
    → (find (access_is (digest c token)) (cleanup now s).tokens ≡ some e)
      × (e.resource ≡ c.resource)
      × (now < e.expires_at)
      × Granted e now s.db
      × ((id : String) → e.family_id ≡ some id → InFamily e id now s.db)
unfolding authenticate authenticate_token check_presented pure cleanup
authenticate_sound c token now s t e returned =
    let u = cleanup now s in
    let e1 = returned-modify _ s (cleanup now) returned in
    let e2 =
      returned-gets _ u (λ v. kept_if (usable c now) (find (access_is (digest c token)) v.tokens))
        e1 in
    elim (Option-cases (find (access_is (digest c token)) u.tokens)) [
      | inl absent ↦ let out = rw absent at e2 in cc
      | inr (stored, found) ↦ elim (Bool-cases (usable c now stored)) [
        | inr unusable ↦ let out = rw (found, unusable) at e2 in cc
        | inl fit ↦
            let (same, granted, family) = access_checked stored e now u t (rw (found, fit) at e2) in
            subst
              (λ x.
                (find (access_is (digest c token)) u.tokens ≡ some x)
                × (x.resource ≡ c.resource)
                × (now < x.expires_at)
                × Granted x now s.db
                × ((id : String) → x.family_id ≡ some id → InFamily x id now s.db))
              (sym same)
              (
                found,
                (eq_iff stored.resource c.resource).0 (ground arith),
                ground arith,
                granted,
                family,
              )
      ]
    ]
