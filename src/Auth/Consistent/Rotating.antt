-- ===== src/Auth/Consistent/Rotating.antt =====
-- `rotateRefreshToken` keeps the database consistent, on each of its outcomes.
use dp_beget_bridge.Base.{
  Bool-cases, Ends, Ends-pure, Ends-throw, after-bind, after-lift, after-gets, after-require,
  Ends-commit, ok, ℕ, String, ◌≡◌, refl, sym, ◌∙◌, inl, inr, true, not, Option, none, some, arith,
  ◌==◌,
}
use dp_beget_bridge.Auth.Model.{AuthError, FamilyStatus, AuthDb, family_active}
use dp_beget_bridge.Auth.Platform.{
  Platform, Stamp, iso_time, hash_refresh_token, exact_https_url, client_identifier,
}
use dp_beget_bridge.Auth.Families.{retire_family, storage_failure, expire_family}
use dp_beget_bridge.Auth.Rotation.{
  Joined, select_joined, binding_matches, is_live, is_current, advance, decide, throw_failure,
  rotate_row, rotate_refresh_token,
}
use dp_beget_bridge.Auth.Rotation.Outcomes.{
  decide_unbound, decide_dead, decide_reused, decide_current,
}
use dp_beget_bridge.Auth.Consistent.{IsConsistent}
use dp_beget_bridge.Auth.Consistent.Lookups.{
  get_grant-IsConsistent, retire_family-IsConsistent, expire_family-IsConsistent,
  get_token_family-IsConsistent,
}
use dp_beget_bridge.Auth.Consistent.Joining.{IsJoined, select_joined_lem, advance_lem}
use dp_beget_bridge.Auth.Consistent.Advancing.{advanced-IsConsistent}

module _ (row : Joined) (client_id resource digest next_digest : String) (now : ℕ) (db : AuthDb)
    (h : IsConsistent db) (joined : IsJoined digest row db) where
  advance-IsConsistent :
      is_live row now ≡ true
      → is_current row ≡ true
      → (a : Option AuthError) (db' : AuthDb) → advance row digest next_digest now db ≡ (ok a, db')
      → IsConsistent db'
  advance-IsConsistent live current a db' e =
      let (fresh, alone, _, is_db') = advance_lem row digest next_digest now db e in
      let active : family_active row.family.status ≡ true = unfold is_live in ground arith in
      rw is_db'
        (advanced-IsConsistent row digest next_digest now db h joined active current fresh alone)

  decide-IsConsistent :
      (a : Option AuthError) (db' : AuthDb)
      → decide row client_id resource digest next_digest now db ≡ (ok a, db')
      → IsConsistent db'
  decide-IsConsistent a db' e = elim (Bool-cases (binding_matches row client_id resource)) [
    | inr differs ↦
        let out = decide_unbound row client_id resource digest next_digest now db differs in
        let same : db' ≡ db = cc (out, e) in rw same h
    | inl matches ↦ elim (Bool-cases (is_live row now)) [
      | inr dead ↦
          let out = decide_dead row client_id resource digest next_digest now db matches dead in
          let same : db' ≡ expire_family (some row.family) now db = cc (out, e) in
          rw same (expire_family-IsConsistent (some row.family) now db h)
      | inl live ↦ elim (Bool-cases (is_current row)) [
        | inr reused ↦
            let out =
              decide_reused row client_id resource digest next_digest now db matches live reused in
            let same : db'
                ≡ retire_family FamilyStatus.compromised now "refresh_reuse" row.family.id db =
              cc (out, e) in
            rw same (
              retire_family-IsConsistent FamilyStatus.compromised now "refresh_reuse" row.family.id
                db h)
        | inl current ↦
            let out =
              decide_current row client_id resource digest next_digest now db matches live
                current in
            advance-IsConsistent live current a db' (sym out ∙ e)
      ]
    ]
  ]

rotate_row-IsConsistent :
    (row : Option Joined) (client_id resource digest next_digest : String) (now : ℕ) (db : AuthDb)
    → IsConsistent db
    → select_joined digest db ≡ row
    → Ends IsConsistent (rotate_row row client_id resource digest next_digest now) db
unfolding rotate_row
rotate_row-IsConsistent none client_id resource digest next_digest now db h e = Ends-throw _ db h
rotate_row-IsConsistent (some row) client_id resource digest next_digest now db h e =
    after-bind _ db _
      (Ends-commit storage_failure _ db h (
        decide-IsConsistent row client_id resource digest next_digest now db h
          (select_joined_lem digest db e)))
      λ failure db1 _ h1.
        after-bind _ db1 (throw_failure failure) (thrown failure db1 h1) λ _ db2 _ h2.
          after-bind _ db2 _ (get_token_family-IsConsistent row.family.id (some now) db2 h2)
            λ family db3 _ h3.
              after-bind _ db3 _ (get_grant-IsConsistent row.family.grant_id (some now) db3 h3)
                λ grant db4 _ h4. Ends-pure _ db4 h4
  where
    thrown :
        (failure : Option AuthError) (s : AuthDb)
        → IsConsistent s
        → Ends IsConsistent (throw_failure failure) s
    thrown none s k = Ends-pure tt s k
    thrown (some x) s k = Ends-throw x s k

pub rotate_refresh_token-IsConsistent :
    (p : Platform) (refresh_token next_refresh_token client_id resource : String) (now : Stamp)
    (db : AuthDb)
    → IsConsistent db
    → Ends IsConsistent
        (rotate_refresh_token p refresh_token next_refresh_token client_id resource now)
        db
unfolding rotate_refresh_token
rotate_refresh_token-IsConsistent p refresh_token next_refresh_token client_id resource now db h =
    after-lift _ db (iso_time now) h λ current _.
      after-lift _ db (hash_refresh_token p refresh_token) h λ digest _.
        after-lift _ db (hash_refresh_token p next_refresh_token) h λ next_digest _.
          after-require _ db (not (digest == next_digest)) _ h λ _.
            after-lift _ db (client_identifier p client_id) h λ normalized_client _.
              after-lift _ db (exact_https_url p resource) h λ normalized_resource _.
                after-gets _ db (select_joined digest) (
                  rotate_row-IsConsistent (select_joined digest db) normalized_client
                    normalized_resource digest next_digest current db h refl)
