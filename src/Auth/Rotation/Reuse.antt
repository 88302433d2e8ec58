-- ===== src/Auth/Rotation/Reuse.antt =====
-- A refresh token that is presented again: the family is compromised and loses its active token.
use dp_beget_bridge.Base.{
  err, ◌>>=◌, map-eq-some, ℕ, String, ◌≡◌, refl, sym, ap, ◌∙◌, true, false, some, arith, eq_iff,
  eq_refl,
}
use dp_beget_bridge.Auth.Model.{
  refresh_reuse_detected, auth_error, FamilyStatus, Token, AuthDb, token_active,
}
use dp_beget_bridge.Auth.Platform.{Platform}
use dp_beget_bridge.Auth.Families.{
  select_family, select_token, active_family_is, active_token_of, retired, retire_family,
}
use dp_beget_bridge.Auth.Rotation.{
  Joined, select_joined, binding_matches, is_live, is_current, rotate_row, rotate_refresh_token,
}
use dp_beget_bridge.Auth.Rotation.Outcomes.{decide_reused}
use dp_beget_bridge.Auth.Rotation.Success.{Reads, rotate-Reads}
use dp_beget_bridge.Auth.Consistent.Lookups.{family_id-select}
use dp_beget_bridge.Auth.Consistent.Retire.{select-family_retire, select-token_retire}
use dp_beget_bridge.Auth.Consistent.Joining.{select_joined_lem}

-- After the statements on one family, no token of it is active.
pub retire_family_tokens :
    (status : FamilyStatus) (now : ℕ) (reason id : String) (db : AuthDb) (d : String) (t : Token)
    → select_token d (retire_family status now reason id db) ≡ some t
    → t.family_id ≡ id
    → token_active t.status ≡ false
retire_family_tokens status now reason id db d t e same =
    let (old, found, is_amended) = map-eq-some _ _ (
      sym
        (select-token_retire (active_family_is id) status now reason (λ _. active_token_of id) db d)
      ∙ e) in
    ground (arith, (eq_iff t.family_id id).1 same, is_amended, eq_iff old.family_id id)

abbrev pub compromised_db : ℕ → Joined → AuthDb → AuthDb
compromised_db now row db =
    retire_family FamilyStatus.compromised now "refresh_reuse" row.family.id db

-- Where the presented token is found with a live family that is bound to the given
-- client and resource, but is no longer the active current token: the rotation throws
-- refresh_reuse_detected, the family is then stored as COMPROMISED, and no stored token of the family,
-- the newest included, is active.
pub reuse_compromises :
    (p : Platform) (token next client resource : String) (now : ℕ) (db : AuthDb)
    (digest next_digest client_id resource_url : String) (row : Joined)
    → Reads p token next client resource digest next_digest client_id resource_url
    → select_joined digest db ≡ some row
    → binding_matches row client_id resource_url ≡ true
    → is_live row now ≡ true
    → is_current row ≡ false
    → (d : String) (t : Token) → select_token d (compromised_db now row db) ≡ some t
    → t.family_id ≡ row.family.id
    → (rotate_refresh_token p token next client resource (some now) db
        ≡ (err (auth_error refresh_reuse_detected 400), compromised_db now row db))
      × (select_family row.family.id (compromised_db now row db)
          ≡ some (retired FamilyStatus.compromised now "refresh_reuse" row.family))
      × (token_active t.status ≡ false)
unfolding is_live rotate_row ◌>>=◌
reuse_compromises p token next client resource now db digest next_digest client_id resource_url row
      reads found bound live reused d t stored same =
    let joined = select_joined_lem digest db found in
    let id_row = family_id-select row.token.family_id db row.family joined.family in
    (
      rotate-Reads p token next client resource now db reads
          ∙ ap (λ r. rotate_row r client_id resource_url digest next_digest now db) found
          ∙ rw
              (decide_reused row client_id resource_url digest next_digest now db bound live reused)
              refl,
      select-family_retire (active_family_is row.family.id) FamilyStatus.compromised now
            "refresh_reuse" (λ _. active_token_of row.family.id) db row.family.id
          ∙ rw (ap (λ i. select_family i db) id_row ∙ joined.family)
              (ground (arith, eq_refl row.family.id)),
      retire_family_tokens FamilyStatus.compromised now "refresh_reuse" row.family.id db d t stored
          same,
    )
