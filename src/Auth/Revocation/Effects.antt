-- ===== src/Auth/Revocation/Effects.antt =====
-- What revocation leaves: nothing of the grant, or of the owner, is active.
use mathlib.Core.Option.{none-ne-some, some-injective}
use mathlib.Core.Option
use dp_beget_bridge.Base.{
  is_some, returned-lift, returned-gets, returned-require_some, returned-require, returned-modify,
  returned-gets_last, ok, amend, update, count, find_sound, find-update, ℕ, String, ◌≡◌, refl, sym,
  ap, ◌∙◌, Bool, true, false, ◌&&◌, Option, none, some, List, [], ◌∷◌, arith, eq_iff,
}
use dp_beget_bridge.Auth.Rotation.Success.{get_grant_live}
use dp_beget_bridge.Auth.Platform.{iso_time}
use dp_beget_bridge.Auth.Owners.{get_owner}
use dp_beget_bridge.Auth.Revocation.{
  revoked_grant, owned_grant, open_family_of_grant, token_in, of_grant, revoke_grant_rows, owned_by,
  revoke_grant, active_grant_of, open_family_of_owner, of_owner, revoke_owner_rows, Summary,
  active_family_of, owner_access_summary, revoke_owner_access,
}
use dp_beget_bridge.Auth.Model.{
  FamilyStatus, Grant, Family, Token, AuthDb, grant_active, family_active,
}
use dp_beget_bridge.Auth.Grants.{grant_is, select_grant, set_grants}
use dp_beget_bridge.Auth.Families.{select_family, retired, revoked_token, retire}
use dp_beget_bridge.Auth.Consistent.Retire.{select-family_retire}

revoked_grant_lem :
    (grant_id owner_id : String) (now : ℕ) (reason : String) (db : AuthDb) (g : Grant)
    → select_grant grant_id db ≡ some g
    → g.owner_id ≡ owner_id
    → (g' : Grant) × (select_grant grant_id (revoke_grant_rows grant_id owner_id now reason db)
        ≡ some g')
      × (grant_active g'.status ≡ false)
unfolding revoke_grant_rows
revoked_grant_lem grant_id owner_id now reason db g found mine =
    let q = owned_grant grant_id owner_id in
    let sel : select_grant grant_id (revoke_grant_rows grant_id owner_id now reason db)
        ≡ Option.map (amend q revoked_grant) (select_grant grant_id db) =
      find-update (grant_is grant_id) q revoked_grant db.grants (λ x. refl) in
    (
      amend q revoked_grant g,
      sel ∙ rw found refl,
      ground (
        arith,
        find_sound (grant_is grant_id) db.grants g found,
        (eq_iff g.owner_id owner_id).1 mine,
      ),
    )

owned_by_lem :
    (row : Option Grant) (owner_id : String)
    → owned_by row owner_id ≡ true
    → (g : Grant) × (row ≡ some g) × (g.owner_id ≡ owner_id)
unfolding owned_by
owned_by_lem none owner_id e = ground arith
owned_by_lem (some g) owner_id e = (g, refl, (eq_iff g.owner_id owner_id).0 e)

-- What a revocation of a grant that returns leaves.
revoke_grant_lem :
    (grant_id owner_id : String) (now : ℕ) (reason : String) (db : AuthDb) (r : Option Grant)
    (db' : AuthDb)
    → revoke_grant grant_id owner_id (some now) reason db ≡ (ok r, db')
    → (db' ≡ revoke_grant_rows grant_id owner_id now reason db)
      × ((g : Grant) × (select_grant grant_id db' ≡ some g) × (grant_active g.status ≡ false))
unfolding revoke_grant
revoke_grant_lem grant_id owner_id now reason db r db' e =
    let (current, is_now, e1) = returned-lift _ db (iso_time (some now)) e in
    let e2 = returned-gets _ db (select_grant grant_id) e1 in
    let (mine, e3) = returned-require _ db (owned_by (select_grant grant_id db) owner_id) _ e2 in
    let (g, found, owner) = owned_by_lem (select_grant grant_id db) owner_id mine in
    let e4 = returned-modify _ db (revoke_grant_rows grant_id owner_id current reason) e3 in
    let same : current ≡ now = cc in
    let (g', found', off) = revoked_grant_lem grant_id owner_id current reason db g found owner in
    let rows = revoke_grant_rows grant_id owner_id current reason db in
    let read = get_grant_live grant_id current rows g' found' (rw off refl) in
    let is_db' : db' ≡ rows = cc in
    (
      is_db' ∙ ap (λ n. revoke_grant_rows grant_id owner_id n reason db) same,
      (g', ap (select_grant grant_id) is_db' ∙ found', off),
    )

-- An update that takes every row of a test out of it leaves none.
count-update_none {ℓ} :
    {A : Type ℓ} (p q : A → Bool) (f : A → A) (xs : List A)
    → ((x : A) → p (amend q f x) ≡ false)
    → count p (update q f xs) ≡ 0
unfolding count update
count-update_none p q f [] out = refl
count-update_none p q f (x ∷ xs) out = rw (out x) (omega (arith, count-update_none p q f xs out))

-- the active families of a grant, and the active tokens of such a family
abbrev pub active_family_of_grant : String → Family → Bool
active_family_of_grant grant_id f = of_grant grant_id f && family_active f.status

abbrev pub active_token_of_grant : String → AuthDb → Token → Bool
active_token_of_grant grant_id db = token_in (of_grant grant_id) db

-- After `revokeGrant` has returned, the grant is stored and not active, no token family of the grant is
-- active, and no refresh token of a family of the grant is active.
pub revoke_grant_blocks :
    (grant_id owner_id : String) (now : ℕ) (reason : String) (db : AuthDb) (r : Option Grant)
    (db' : AuthDb)
    → revoke_grant grant_id owner_id (some now) reason db ≡ (ok r, db')
    → ((g : Grant) × (select_grant grant_id db' ≡ some g) × (grant_active g.status ≡ false))
      × (count (active_family_of_grant grant_id) db'.families ≡ 0)
      × (count (active_token_of_grant grant_id db') db'.tokens ≡ 0)
unfolding revoke_grant_rows retire
revoke_grant_blocks grant_id owner_id now reason db r db' e =
    let (is_db', grant_off) = revoke_grant_lem grant_id owner_id now reason db r db' e in
    let rows = revoke_grant_rows grant_id owner_id now reason db in
    (
      grant_off,
      ap (λ (x : AuthDb). count (active_family_of_grant grant_id) x.families) is_db'
          ∙ count-update_none (active_family_of_grant grant_id) (open_family_of_grant grant_id)
              (retired FamilyStatus.revoked now reason) db.families (λ f. ground arith),
      ap (λ (x : AuthDb). count (active_token_of_grant grant_id x) x.tokens) is_db'
          ∙ count-update_none (active_token_of_grant grant_id rows)
              (active_token_of_grant grant_id rows) revoked_token db.tokens (λ t. ground arith),
    )

-- What a revocation of an owner's access that returns leaves.
revoke_owner_lem :
    (owner_id : String) (now : ℕ) (reason : String) (db : AuthDb) (s : Summary) (db' : AuthDb)
    → revoke_owner_access owner_id (some now) reason db ≡ (ok s, db')
    → (db' ≡ revoke_owner_rows owner_id FamilyStatus.revoked now reason db)
      × (s.active_grants ≡ count (active_grant_of owner_id) db'.grants)
      × (s.active_token_families ≡ count (active_family_of owner_id) db'.families)
unfolding revoke_owner_access owner_access_summary
revoke_owner_lem owner_id now reason db s db' e =
    let (current, is_now, e1) = returned-lift _ db (iso_time (some now)) e in
    let e2 = returned-gets _ db (get_owner owner_id) e1 in
    let (_, e3) = returned-require _ db (is_some (get_owner owner_id db)) _ e2 in
    let rows = revoke_owner_rows owner_id FamilyStatus.revoked current reason db in
    let e4 =
      returned-modify _ db (revoke_owner_rows owner_id FamilyStatus.revoked current reason) e3 in
    let e5 = returned-gets _ rows (get_owner owner_id) e4 in
    let (owner, _, e6) = returned-require_some _ rows (get_owner owner_id rows) _ e5 in
    let (is_s, is_db') = returned-gets_last _ rows e6 in
    let same : current ≡ now = cc in
    (
      is_db' ∙ ap (λ n. revoke_owner_rows owner_id FamilyStatus.revoked n reason db) same,
      ap (λ x. x.active_grants) is_s
          ∙ ap (λ x. count (active_grant_of owner_id) x.grants) (sym is_db'),
      ap (λ x. x.active_token_families) is_s
          ∙ ap (λ x. count (active_family_of owner_id) x.families) (sym is_db'),
    )

-- The summary that `revokeOwnerAccess` returns counts no active grant and no active token family. Each
-- active grant of the owner is revoked, each family of the owner that is active or compromised is
-- revoked at that time for the reason, and every other grant and family is as it was.
pub revoke_owner_summary :
    (owner_id : String) (now : ℕ) (reason : String) (db : AuthDb) (s : Summary) (db' : AuthDb)
    (grant_id family_id : String)
    → revoke_owner_access owner_id (some now) reason db ≡ (ok s, db')
    → (s.active_grants ≡ 0)
      × (s.active_token_families ≡ 0)
      × (select_grant grant_id db'
          ≡ Option.map (amend (active_grant_of owner_id) revoked_grant) (select_grant grant_id db))
      × (select_family family_id db'
          ≡ Option.map
              (amend (open_family_of_owner owner_id) (retired FamilyStatus.revoked now reason))
              (select_family family_id db))
unfolding revoke_owner_rows retire
revoke_owner_summary owner_id now reason db s db' grant_id family_id e =
    let (is_db', grants, families) = revoke_owner_lem owner_id now reason db s db' e in
    (
      grants
          ∙ ap (λ x. count (active_grant_of owner_id) x.grants) is_db'
          ∙ count-update_none (active_grant_of owner_id) (active_grant_of owner_id) revoked_grant
              db.grants (λ g. ground arith),
      families
          ∙ ap (λ x. count (active_family_of owner_id) x.families) is_db'
          ∙ count-update_none (active_family_of owner_id) (open_family_of_owner owner_id)
              (retired FamilyStatus.revoked now reason) db.families (λ f. ground arith),
      ap (select_grant grant_id) is_db'
          ∙ find-update (grant_is grant_id) (active_grant_of owner_id) revoked_grant db.grants
              (λ g. refl),
      ap (select_family family_id) is_db'
          ∙ select-family_retire (open_family_of_owner owner_id) FamilyStatus.revoked now reason
              (token_in (of_owner owner_id))
              (set_grants (active_grant_of owner_id) revoked_grant db) family_id,
    )
