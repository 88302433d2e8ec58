-- ===== src/Auth/Rotation/Success.antt =====
-- A rotation that succeeds: what it requires, what it returns and what it leaves.
use mathlib.Core.Option
use mathlib.Core.Path.{subst}
use dp_beget_bridge.Base.{
  leb, Option-cases, ok, ◌>>=◌, find, count, find_sound, find-update, count-and, find_by_key, ℕ,
  ◌+◌, ◌≤◌, String, ◌≡◌, refl, sym, ap, ◌∙◌, inl, inr, true, false, ◌&&◌, none, some, List, arith,
  ◌==◌, eq_iff, eq_refl,
}
use dp_beget_bridge.Auth.Model.{
  Grant, Family, Token, AuthDb, grant_active, family_active, token_active,
}
use dp_beget_bridge.Auth.Platform.{Platform, hash_refresh_token, exact_https_url, client_identifier}
use dp_beget_bridge.Auth.Grants.{select_grant, expire_grant, get_grant}
use dp_beget_bridge.Auth.Families.{
  family_is, select_family, token_is, select_token, expire_family, get_token_family, at_generation,
  insert_token,
}
use dp_beget_bridge.Auth.Rotation.{
  Joined, select_joined, binding_matches, is_live, is_current, consumed_token, active_digest_is,
  family_at, next_generation, advance, rotate_row, rotate_refresh_token,
}
use dp_beget_bridge.Auth.Rotation.Outcomes.{decide_current}
use dp_beget_bridge.Auth.Consistent.Appending.{find-append_some, find-append_new}
use dp_beget_bridge.Auth.Consistent.{IsConsistent}
use dp_beget_bridge.Auth.Consistent.Lookups.{family_id-select}
use dp_beget_bridge.Auth.Consistent.Joining.{
  IsJoined, select_joined_lem, consumed_db, next_token, advanced_db,
}

-- A lookup that finds a row in its time changes nothing.
pub get_grant_live :
    (id : String) (now : ℕ) (db : AuthDb) (row : Grant)
    → select_grant id db ≡ some row
    → (grant_active row.status && leb row.expires_at now) ≡ false
    → get_grant id (some now) db ≡ (ok (some row), db)
unfolding get_grant ◌>>=◌
get_grant_live id now db row found live = rw found (rw (live, expire_grant) (rw found refl))

pub get_token_family_live :
    (id : String) (now : ℕ) (db : AuthDb) (row : Family)
    → select_family id db ≡ some row
    → (family_active row.status && leb row.expires_at now) ≡ false
    → get_token_family id (some now) db ≡ (ok (some row), db)
unfolding get_token_family ◌>>=◌
get_token_family_live id now db row found live = rw found (rw (live, expire_family) (rw found refl))

-- The arguments of a rotation, as the checks before its transaction read them.
pub record Reads (p : Platform) (token next client resource : String)
    (digest next_digest client_id resource_url : String) : Type 0 where
  pub token_read : hash_refresh_token p token ≡ ok digest
  pub next_read : hash_refresh_token p next ≡ ok next_digest
  pub differ : (digest == next_digest) ≡ false
  pub client_read : client_identifier p client ≡ ok client_id
  pub resource_read : exact_https_url p resource ≡ ok resource_url

pub rotate-Reads :
    (p : Platform) (token next client resource : String) (now : ℕ) (db : AuthDb)
    {digest next_digest client_id resource_url : String}
    → Reads p token next client resource digest next_digest client_id resource_url
    → rotate_refresh_token p token next client resource (some now) db
      ≡ rotate_row (select_joined digest db) client_id resource_url digest next_digest now db
unfolding rotate_refresh_token ◌>>=◌
rotate-Reads p token next client resource now db r =
    rw r.token_read (rw r.next_read (rw r.differ (rw r.client_read (rw r.resource_read refl))))

module _ (row : Joined) (digest next_digest : String) (now : ℕ) (db : AuthDb) (h : IsConsistent db)
    (joined : IsJoined digest row db) (live : is_live row now ≡ true)
    (current : is_current row ≡ true) (fresh : select_token next_digest db ≡ none) where
  abbrev tokens' : List Token
  tokens' = (consumed_db row digest next_digest now db).tokens

  one_consumed : count (active_digest_is digest) db.tokens ≡ 1
  unfolding is_current
  one_consumed =
      count-and (token_is digest) (λ t. token_active t.status) db.tokens row.token
        (h.tokens_unique digest) joined.token
      ∙ ground arith

  fresh' : find (token_is next_digest) tokens' ≡ none
  fresh' =
      find-update (token_is next_digest) (active_digest_is digest) (consumed_token now) db.tokens
        (λ t. refl)
      ∙ rw fresh refl

  id_row : row.family.id ≡ row.token.family_id
  id_row = family_id-select row.token.family_id db row.family joined.family

  -- No token of the family has the next generation yet.
  no_later :
      (t : Token)
      → find (at_generation row.family.id (row.family.current_generation + 1)) db.tokens ≡ some t
      → ⊥
  no_later t found =
      let p = at_generation row.family.id (row.family.current_generation + 1) in
      let k =
        h.token_ok t.digest t
          (find_by_key (λ x. x.digest) p db.tokens t found (h.tokens_unique t.digest)) in
      let here = find_sound p db.tokens t found in
      let same : t.family_id ≡ row.token.family_id =
        ground (arith, eq_iff t.family_id row.family.id, id_row) in
      let one : k.family ≡ row.family =
        Option.some-injective _ _
          (sym k.found ∙ ap (λ i. select_family i db) same ∙ joined.family) in
      let bound : t.generation ≤ row.family.current_generation =
        subst (λ f. t.generation ≤ f.current_generation) one k.bounded in
      ground arith

  alone' : find (at_generation row.family.id (row.family.current_generation + 1)) tokens' ≡ none
  alone' =
      let p = at_generation row.family.id (row.family.current_generation + 1) in
      find-update p (active_digest_is digest) (consumed_token now) db.tokens (λ t. refl)
      ∙ elim (Option-cases (find p db.tokens)) [
        | inl nothing ↦ rw nothing refl
        | inr (t, found) ↦ absurd (no_later t found)
      ]

  family_stored : select_family row.family.id db ≡ some row.family
  family_stored = ap (λ i. select_family i db) id_row ∙ joined.family

  pub advance_succeeds :
      advance row digest next_digest now db ≡ (ok none, advanced_db row digest next_digest now db)
  unfolding advance insert_token ◌>>=◌
  advance_succeeds = rw one_consumed (rw fresh' (rw alone' (rw family_stored refl)))

  -- what the lookups find after the rotation
  abbrev next_family : Family
  next_family = next_generation (row.family.current_generation + 1) row.family

  abbrev after : AuthDb
  after = advanced_db row digest next_digest now db

  family_after : select_family row.family.id after ≡ some next_family
  unfolding is_live
  family_after =
      let n = row.family.current_generation in
      find-update (family_is row.family.id) (family_at row.family.id n) (next_generation (n + 1))
        db.families (λ f. refl)
      ∙ rw family_stored (ground (arith, eq_refl row.family.id))

  pub token_after : select_token digest after ≡ some (consumed_token now row.token)
  unfolding is_current
  token_after =
      find-append_some (token_is digest) tokens' (next_token row digest next_digest now db)
        (consumed_token now row.token)
        (find-update (token_is digest) (active_digest_is digest) (consumed_token now) db.tokens
            (λ t. refl)
          ∙ rw joined.token
              (ground (arith, find_sound (token_is digest) db.tokens row.token joined.token)))

  pub next_after : select_token next_digest after ≡ some (next_token row digest next_digest now db)
  next_after =
      find-append_new (token_is next_digest) tokens' (next_token row digest next_digest now db)
        fresh' (eq_refl next_digest)

  pub rotate_row_succeeds :
      (client_id resource : String)
      → binding_matches row client_id resource ≡ true
      → rotate_row (some row) client_id resource digest next_digest now db
        ≡ (ok (record { family = some next_family; grant = some row.grant }), after)
  unfolding rotate_row is_live ◌>>=◌
  rotate_row_succeeds client_id resource bound =
      rw (decide_current row client_id resource digest next_digest now db bound live current) (
        rw advance_succeeds (
          rw (get_token_family_live row.family.id now after next_family family_after (ground arith))
            (rw (get_grant_live row.family.grant_id now after row.grant joined.grant (ground arith))
              refl)))

-- In a consistent database, a rotation whose token is the active current one of a live family bound
-- to the given client and resource, with a next token that is not stored, succeeds. It returns the
-- family with the next generation and the grant. Of the database it changes three rows: the old token is
-- consumed, the next one is stored as active, with the next generation and the family's expiry, and
-- the family has the next generation.
pub rotate_succeeds :
    (p : Platform) (token next client resource : String) (now : ℕ) (db : AuthDb)
    (digest next_digest client_id resource_url : String) (row : Joined)
    → Reads p token next client resource digest next_digest client_id resource_url
    → IsConsistent db
    → select_joined digest db ≡ some row
    → binding_matches row client_id resource_url ≡ true
    → is_live row now ≡ true
    → is_current row ≡ true
    → select_token next_digest db ≡ none
    → (rotate_refresh_token p token next client resource (some now) db ≡ (
      ok (record {
        family = some (next_generation (row.family.current_generation + 1) row.family);
        grant = some row.grant;
      }),
      advanced_db row digest next_digest now db,
    ))
      × (select_token digest (advanced_db row digest next_digest now db)
          ≡ some (consumed_token now row.token))
      × (select_token next_digest (advanced_db row digest next_digest now db)
          ≡ some (next_token row digest next_digest now db))
rotate_succeeds p token next client resource now db digest next_digest client_id resource_url row
      reads h found bound live current fresh =
    let joined = select_joined_lem digest db found in
    (
      rotate-Reads p token next client resource now db reads
          ∙ ap (λ r. rotate_row r client_id resource_url digest next_digest now db) found
          ∙ rotate_row_succeeds row digest next_digest now db h joined live current fresh client_id
              resource_url bound,
      token_after row digest next_digest now db h joined live current fresh,
      next_after row digest next_digest now db h joined live current fresh,
    )
