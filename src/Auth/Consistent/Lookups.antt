-- ===== src/Auth/Consistent/Lookups.antt =====
-- The methods that look a row up, with its lazy expiry, and the revocations keep the database
-- consistent.
use dp_beget_bridge.Base.{
  leb, Bool-cases, Ends, Ends-gets, after-lift, after-gets, after-modify, amend, update, find_sound,
  find-update, any-find, ℕ, String, ◌≡◌, refl, sym, ◌∙◌, inl, inr, Bool, true, ◌&&◌, Option, none,
  some, arith, eq_iff,
}
use dp_beget_bridge.Auth.Model.{FamilyStatus, Grant, Family, AuthDb, grant_active, family_active}
use dp_beget_bridge.Auth.Platform.{Stamp, iso_time}
use dp_beget_bridge.Auth.Grants.{select_grant, expire_grant, get_grant}
use dp_beget_bridge.Auth.Families.{
  family_is, select_family, active_family_is, active_token_of, retired, retire_family,
  expire_family, get_token_family,
}
use dp_beget_bridge.Auth.Revocation.{revoked_grant, token_in}
use dp_beget_bridge.Auth.Consistent.{IsConsistent}
use dp_beget_bridge.Auth.Consistent.Statements.{
  KeepsBinding, KeepsBinding-expired_grant, set_grants-IsConsistent,
}
use dp_beget_bridge.Auth.Consistent.Retire.{Covers, retire-IsConsistent}

pub KeepsBinding-revoked_grant : KeepsBinding revoked_grant
KeepsBinding-revoked_grant = record {
  id = λ g. refl;
  owner = λ g. refl;
  client = λ g. refl;
  resource = λ g. refl;
  expiry = λ g. refl;
}

-- The test of a lookup holds of what it finds.
pub family_id-select :
    (id : String) (db : AuthDb) (f : Family) → select_family id db ≡ some f → f.id ≡ id
family_id-select id db f e = (eq_iff f.id id).0 (find_sound (family_is id) db.families f e)

-- Statements on one family reach the tokens of that family.
pub covers_family :
    (q : Family → Bool) (id : String) (status : FamilyStatus) (now : ℕ) (reason : String)
    (db : AuthDb)
    → ((f : Family) → q f ≡ true → f.id ≡ id)
    → Covers q status now reason (λ _. active_token_of id) db
covers_family q id status now reason db one t f found chosen active =
    let same : t.family_id ≡ id = sym (family_id-select t.family_id db f found) ∙ one f chosen in
    ground (arith, (eq_iff t.family_id id).1 same)

-- Statements on the families that pass a test reach, by the subselect, the tokens of those.
pub covers_subselect :
    (q chosen : Family → Bool) (status : FamilyStatus) (now : ℕ) (reason : String) (db : AuthDb)
    → ((f : Family) → q f ≡ true → chosen f ≡ true)
    → ((f : Family) → chosen (retired status now reason f) ≡ chosen f)
    → Covers q status now reason (token_in chosen) db
covers_subselect q chosen status now reason db implies stable t f found picked active =
    let kept : chosen (amend q (retired status now reason) f) ≡ true =
      rw (picked) (stable f ∙ implies f picked) in
    let there =
      any-find (family_is t.family_id) chosen (update q (retired status now reason) db.families)
        (amend q (retired status now reason) f)
        (find-update (family_is t.family_id) q (retired status now reason) db.families (λ f'. refl)
          ∙ rw found refl)
        kept in
    rw there active

expire_grant-IsConsistent :
    (row : Option Grant) (now : ℕ) (db : AuthDb)
    → IsConsistent db
    → IsConsistent (expire_grant row now db)
unfolding expire_grant
expire_grant-IsConsistent none now db h = h
expire_grant-IsConsistent (some row) now db h =
    elim (Bool-cases (grant_active row.status && leb row.expires_at now)) [
      | inl due ↦ rw due (set_grants-IsConsistent _ KeepsBinding-expired_grant db h)
      | inr live ↦ rw live h
    ]

pub get_grant-IsConsistent :
    (id : String) (now : Stamp) (db : AuthDb)
    → IsConsistent db
    → Ends IsConsistent (get_grant id now) db
unfolding get_grant
get_grant-IsConsistent id now db h = after-lift _ db (iso_time now) h λ current _.
    after-gets _ db (select_grant id) (
      after-modify _ db (expire_grant (select_grant id db) current) (
        Ends-gets (select_grant id) _
          (expire_grant-IsConsistent (select_grant id db) current db h)))

pub retire_family-IsConsistent :
    (status : FamilyStatus) (now : ℕ) (reason id : String) (db : AuthDb)
    → IsConsistent db
    → IsConsistent (retire_family status now reason id db)
retire_family-IsConsistent status now reason id db h =
    retire-IsConsistent _ status now reason _ db h (
      covers_family (active_family_is id) id status now reason db
        (λ f e. ground (arith, eq_iff f.id id)))

pub expire_family-IsConsistent :
    (row : Option Family) (now : ℕ) (db : AuthDb)
    → IsConsistent db
    → IsConsistent (expire_family row now db)
unfolding expire_family
expire_family-IsConsistent none now db h = h
expire_family-IsConsistent (some row) now db h =
    elim (Bool-cases (family_active row.status && leb row.expires_at now)) [
      | inl due ↦ rw due (retire_family-IsConsistent FamilyStatus.expired now "expired" row.id db h)
      | inr live ↦ rw live h
    ]

pub get_token_family-IsConsistent :
    (id : String) (now : Stamp) (db : AuthDb)
    → IsConsistent db
    → Ends IsConsistent (get_token_family id now) db
unfolding get_token_family
get_token_family-IsConsistent id now db h = after-lift _ db (iso_time now) h λ current _.
    after-gets _ db (select_family id) (
      after-modify _ db (expire_family (select_family id db) current) (
        Ends-gets (select_family id) _
          (expire_family-IsConsistent (select_family id db) current db h)))
