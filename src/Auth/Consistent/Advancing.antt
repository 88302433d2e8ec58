-- ===== src/Auth/Consistent/Advancing.antt =====
-- A rotation that succeeds keeps the database consistent: the token that it consumes was the only
-- one of its generation, so the family's new generation has the only active token.
use mathlib.Core.Option
use mathlib.Core.Path.{subst}
use mathlib.Core.Bool.{false≢true}
use dp_beget_bridge.Base.{
  Bool-cases, find, amend, count, find_sound, find-update, count-update, map-eq-some, find_unique,
  unique_append, ℕ, ◌+◌, ◌≤◌, String, ◌≡◌, refl, sym, ap, ◌∙◌, inl, inr, true, false, none, some,
  arith, eq_iff, eq_refl,
}
use dp_beget_bridge.Auth.Model.{Family, Token, AuthDb, family_active, token_active}
use dp_beget_bridge.Auth.Families.{family_is, select_family, token_is, select_token, at_generation}
use dp_beget_bridge.Auth.Rotation.{
  Joined, is_current, consumed_token, active_digest_is, family_at, next_generation,
}
use dp_beget_bridge.Auth.Consistent.{TokenOk, FamilyOk, IsConsistent}
use dp_beget_bridge.Auth.Consistent.Lookups.{family_id-select}
use dp_beget_bridge.Auth.Consistent.Appending.{find-append-cases, generation_append}
use dp_beget_bridge.Auth.Consistent.Joining.{IsJoined, consumed_db, next_token, advanced_db}

-- What the update of the families and that of the tokens do to the columns.
module _ (id : String) (n : ℕ) (f : Family) where
  abbrev bumped : Family
  bumped = amend (family_at id n) (next_generation (n + 1)) f

  generation-bumped : f.current_generation ≤ bumped.current_generation
  generation-bumped = ground arith

  generation-bumped_same :
      family_at id n f ≡ false → bumped.current_generation ≡ f.current_generation
  generation-bumped_same e = ground arith

  status-bumped : bumped.status ≡ f.status
  status-bumped = ground arith

  expires_at-bumped : bumped.expires_at ≡ f.expires_at
  expires_at-bumped = ground arith

module _ (digest : String) (now : ℕ) (t : Token) where
  abbrev spent : Token
  spent = amend (active_digest_is digest) (consumed_token now) t

  family_id-spent : spent.family_id ≡ t.family_id
  family_id-spent = ground arith

  generation-spent : spent.generation ≡ t.generation
  generation-spent = ground arith

  expires_at-spent : spent.expires_at ≡ t.expires_at
  expires_at-spent = ground arith

  active-spent :
      token_active spent.status ≡ true
      → (token_active t.status ≡ true) × (token_is digest t ≡ false)
  active-spent e = ground arith

module _ (row : Joined) (digest next_digest : String) (now : ℕ) (db : AuthDb) (h : IsConsistent db)
    (joined : IsJoined digest row db) (live : family_active row.family.status ≡ true)
    (current : is_current row ≡ true) where
  abbrev db' : AuthDb
  db' = advanced_db row digest next_digest now db

  select-family_advanced :
      (id : String)
      → select_family id db'
        ≡ Option.map
            (amend
              (family_at row.family.id row.family.current_generation)
              (next_generation (row.family.current_generation + 1)))
            (select_family id db)
  select-family_advanced id = find-update (family_is id) _ _ db.families (λ f. refl)

  -- An active token of the family's generation is the one that the rotation consumes.
  only_active :
      (d : String) (t : Token) (k : TokenOk db t)
      → select_token d db ≡ some t
      → token_active t.status ≡ true
      → family_at row.family.id row.family.current_generation k.family ≡ true
      → token_is digest t ≡ true
  unfolding is_current
  only_active d t k found active at =
      let id_k = family_id-select t.family_id db k.family k.found in
      let id_row = family_id-select row.token.family_id db row.family joined.family in
      let same_id : k.family.id ≡ row.family.id =
        ground (arith, eq_iff k.family.id row.family.id) in
      let same_family : t.family_id ≡ row.token.family_id = sym id_k ∙ same_id ∙ id_row in
      let same_generation : t.generation ≡ row.token.generation = k.newest active ∙ ground arith in
      let one : t ≡ row.token =
        find_unique (at_generation row.token.family_id row.token.generation) (token_is d)
          (token_is digest) db.tokens t row.token
          (h.generations_unique row.token.family_id row.token.generation) found joined.token
          (ground (arith, (eq_iff t.family_id row.token.family_id).1 same_family))
          (ground (arith, eq_refl row.token.family_id)) in
      rw one (find_sound (token_is digest) db.tokens row.token joined.token)

  -- A token that is still active was not consumed, so its family was left alone.
  still_active :
      (d : String) (t : Token) (k : TokenOk db t)
      → select_token d db ≡ some t
      → token_active (spent digest now t).status ≡ true
      → (token_active t.status ≡ true)
        × (family_at row.family.id row.family.current_generation k.family ≡ false)
  still_active d t k found e =
      let (was, other) = active-spent digest now t e in
      elim (Bool-cases (family_at row.family.id row.family.current_generation k.family)) [
        | inl at ↦ absurd (false≢true (sym other ∙ only_active d t k found was at))
        | inr away ↦ (was, away)
      ]

  spent-TokenOk :
      (d : String) (t : Token) → select_token d db ≡ some t → TokenOk db' (spent digest now t)
  spent-TokenOk d t found =
      let k = h.token_ok d t found in
      let n = row.family.current_generation in
      let id = row.family.id in
      record {
        family = bumped id n k.family;
        found =
            rw (family_id-spent digest now t)
              (rw (select-family_advanced t.family_id) (rw k.found refl));
        bounded =
            omega
              (arith, k.bounded, generation-spent digest now t, generation-bumped id n k.family);
        expiry = expires_at-spent digest now t ∙ k.expiry ∙ sym (expires_at-bumped id n k.family);
        open_family = λ e.
            let (was, away) = still_active d t k found e in
            ap family_active (status-bumped id n k.family) ∙ k.open_family was;
        newest = λ e.
            let (was, away) = still_active d t k found e in
            generation-spent digest now t
            ∙ k.newest was
            ∙ sym (generation-bumped_same id n k.family away);
      }

  at_self : family_at row.family.id row.family.current_generation row.family ≡ true
  at_self = ground (arith, live, eq_refl row.family.id)

  next_TokenOk : TokenOk db' (next_token row digest next_digest now db)
  next_TokenOk =
      let n = row.family.current_generation in
      let id = row.family.id in
      let id_row = family_id-select row.token.family_id db row.family joined.family in
      record {
        family = next_generation (n + 1) row.family;
        found =
            rw (select-family_advanced id)
              (rw (ap (λ i. select_family i db) id_row ∙ joined.family) (rw at_self refl));
        bounded = omega arith;
        expiry = refl;
        open_family = λ _. live;
        newest = λ _. refl;
      }

  bumped-FamilyOk :
      (f : Family)
      → FamilyOk db f
      → FamilyOk db' (bumped row.family.id row.family.current_generation f)
  bumped-FamilyOk f k =
      elim (Bool-cases (family_at row.family.id row.family.current_generation f)) [
        | inl at ↦ rw at (record {
          grant = k.grant;
          found = k.found;
          owner = k.owner;
          client = k.client;
          resource = k.resource;
          expiry = k.expiry;
        })
        | inr away ↦ rw away (record {
          grant = k.grant;
          found = k.found;
          owner = k.owner;
          client = k.client;
          resource = k.resource;
          expiry = k.expiry;
        })
      ]

  -- The last update touches no token, so the tokens are those of `consumed_db` with the new one.
  advanced_generations :
      find
          (at_generation row.family.id (row.family.current_generation + 1))
          (consumed_db row digest next_digest now db).tokens
        ≡ none
      → (id : String) (g : ℕ) → count (at_generation id g) db'.tokens ≤ 1
  advanced_generations alone id g =
      generation_append (consumed_db row digest next_digest now db).tokens
        (next_token row digest next_digest now db)
        (λ i n.
          rw
            (count-update (at_generation i n) (active_digest_is digest) (consumed_token now)
              db.tokens (λ t. refl))
            (h.generations_unique i n))
        alone id g

  pub advanced-IsConsistent :
      select_token next_digest (consumed_db row digest next_digest now db) ≡ none
      → find
          (at_generation row.family.id (row.family.current_generation + 1))
          (consumed_db row digest next_digest now db).tokens
        ≡ none
      → IsConsistent db'
  advanced-IsConsistent fresh alone = record {
    one_owner = h.one_owner;
    clients_unique = h.clients_unique;
    grants_unique = h.grants_unique;
    families_unique = λ id.
        rw
          (count-update (family_is id) (family_at row.family.id row.family.current_generation)
            (next_generation (row.family.current_generation + 1)) db.families (λ f. refl))
          (h.families_unique id);
    tokens_unique =
        unique_append (λ t. t.digest) (consumed_db row digest next_digest now db).tokens
          (next_token row digest next_digest now db)
          (λ d.
            rw
              (count-update (token_is d) (active_digest_is digest) (consumed_token now) db.tokens
                (λ t. refl))
              (h.tokens_unique d))
          fresh;
    generations_unique = advanced_generations alone;
    token_ok = λ d t e.
        elim (find-append-cases (token_is d) (consumed_db row digest next_digest now db).tokens
          (next_token row digest next_digest now db) t e) [
            | inl old ↦
                let (t0, found, is_spent) = map-eq-some _ _ (
                  sym (
                    find-update (token_is d) (active_digest_is digest) (consumed_token now)
                      db.tokens (λ t'. refl))
                  ∙ old) in
                subst (λ x. TokenOk db' x) is_spent (spent-TokenOk d t0 found)
            | inr new ↦ subst (λ x. TokenOk db' x) new next_TokenOk
          ];
    family_ok = λ id f e.
        let (f0, found, is_bumped) = map-eq-some _ _ (sym (select-family_advanced id) ∙ e) in
        subst (λ x. FamilyOk db' x) is_bumped (bumped-FamilyOk f0 (h.family_ok id f0 found));
  }
