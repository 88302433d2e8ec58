-- ===== src/Auth/Consistent/Retire.antt =====
-- `retire` keeps the database consistent when the tokens that it revokes cover the families that it
-- takes out of use.
use mathlib.Core.Option
use mathlib.Core.Path.{subst}
use mathlib.Core.Bool.{false≢true}
use dp_beget_bridge.Base.{
  Bool-cases, amend, find-update, count-update, map-eq-some, ℕ, String, ◌≡◌, refl, sym, ◌∙◌, inl,
  inr, Bool, true, false, some, arith,
}
use dp_beget_bridge.Auth.Model.{FamilyStatus, Family, Token, AuthDb, family_active, token_active}
use dp_beget_bridge.Auth.Families.{
  family_is, select_family, token_is, select_token, set_families, retired, revoked_token, retire,
  at_generation,
}
use dp_beget_bridge.Auth.Consistent.{TokenOk, FamilyOk, IsConsistent}

-- What an update under a test does to the columns.
module _ (q : Family → Bool) (status : FamilyStatus) (now : ℕ) (reason : String) (f : Family) where
  abbrev family' : Family
  family' = amend q (retired status now reason) f

  generation-family' : family'.current_generation ≡ f.current_generation
  generation-family' = ground arith

  expires_at-family' : family'.expires_at ≡ f.expires_at
  expires_at-family' = ground arith

  grant_id-family' : family'.grant_id ≡ f.grant_id
  grant_id-family' = ground arith

  owner_id-family' : family'.owner_id ≡ f.owner_id
  owner_id-family' = ground arith

  client_id-family' : family'.client_id ≡ f.client_id
  client_id-family' = ground arith

  resource-family' : family'.resource ≡ f.resource
  resource-family' = ground arith

  active-family' : q f ≡ false → family_active family'.status ≡ family_active f.status
  active-family' e = ground arith

module _ (r : Token → Bool) (t : Token) where
  abbrev token' : Token
  token' = amend r revoked_token t

  family_id-token' : token'.family_id ≡ t.family_id
  family_id-token' = ground arith

  generation-token' : token'.generation ≡ t.generation
  generation-token' = ground arith

  expires_at-token' : token'.expires_at ≡ t.expires_at
  expires_at-token' = ground arith

  -- An active token after the update was active, and was not chosen.
  active-token' : token_active token'.status ≡ true → (token_active t.status ≡ true) × (r t ≡ false)
  active-token' e = ground arith

module _ (q : Family → Bool) (status : FamilyStatus) (now : ℕ) (reason : String)
    (r : AuthDb → Token → Bool) (db : AuthDb) where
  abbrev pub retired_db : AuthDb
  retired_db = set_families q (retired status now reason) db

  abbrev pub after_retire : AuthDb
  after_retire = retire q status now reason r db

  pub select-family_retire :
      (id : String)
      → select_family id after_retire
        ≡ Option.map (amend q (retired status now reason)) (select_family id db)
  unfolding retire
  select-family_retire id =
      find-update (family_is id) q (retired status now reason) db.families (λ f. refl)

  pub select-token_retire :
      (d : String)
      → select_token d after_retire
        ≡ Option.map (amend (r retired_db) revoked_token) (select_token d db)
  unfolding retire
  select-token_retire d =
      find-update (token_is d) (r retired_db) revoked_token db.tokens (λ t. refl)

  -- Every active token of a family that the statement takes out of use is revoked with it.
  abbrev pub Covers : Type 0
  Covers =
      (t : Token) (f : Family)
      → select_family t.family_id db ≡ some f
      → q f ≡ true
      → token_active t.status ≡ true
      → r retired_db t ≡ true

  -- A token that is still active belongs to a family that was left alone.
  untouched :
      (t : Token) (k : TokenOk db t)
      → Covers
      → token_active (token' (r retired_db) t).status ≡ true
      → (token_active t.status ≡ true) × (q k.family ≡ false)
  untouched t k covers e =
      let (was, not_chosen) = active-token' (r retired_db) t e in
      elim (Bool-cases (q k.family)) [
        | inl chosen ↦ absurd (false≢true (sym not_chosen ∙ covers t k.family k.found chosen was))
        | inr other ↦ (was, other)
      ]

  retired_TokenOk :
      (t : Token) → TokenOk db t → Covers → TokenOk after_retire (token' (r retired_db) t)
  retired_TokenOk t k covers = record {
    family = family' q status now reason k.family;
    found =
        rw (family_id-token' (r retired_db) t)
          (rw (select-family_retire t.family_id) (rw k.found refl));
    bounded =
        rw (generation-token' (r retired_db) t)
          (rw (generation-family' q status now reason k.family) k.bounded);
    expiry =
        expires_at-token' (r retired_db) t
        ∙ k.expiry
        ∙ sym (expires_at-family' q status now reason k.family);
    open_family = λ e.
        let (was, other) = untouched t k covers e in
        active-family' q status now reason k.family other ∙ k.open_family was;
    newest = λ e.
        let (was, other) = untouched t k covers e in
        generation-token' (r retired_db) t
        ∙ k.newest was
        ∙ sym (generation-family' q status now reason k.family);
  }

  retired_FamilyOk :
      (f : Family) → FamilyOk db f → FamilyOk after_retire (family' q status now reason f)
  unfolding retire
  retired_FamilyOk f k = record {
    grant = k.grant;
    found = rw (grant_id-family' q status now reason f) k.found;
    owner = owner_id-family' q status now reason f ∙ k.owner;
    client = client_id-family' q status now reason f ∙ k.client;
    resource = resource-family' q status now reason f ∙ k.resource;
    expiry = rw (expires_at-family' q status now reason f) k.expiry;
  }

  pub retire-IsConsistent : IsConsistent db → Covers → IsConsistent after_retire
  unfolding retire
  retire-IsConsistent h covers = record {
    one_owner = h.one_owner;
    clients_unique = h.clients_unique;
    grants_unique = h.grants_unique;
    families_unique = λ id.
        rw (count-update (family_is id) q (retired status now reason) db.families (λ f. refl))
          (h.families_unique id);
    tokens_unique = λ d.
        rw (count-update (token_is d) (r retired_db) revoked_token db.tokens (λ t. refl))
          (h.tokens_unique d);
    generations_unique = λ id g.
        rw (count-update (at_generation id g) (r retired_db) revoked_token db.tokens (λ t. refl))
          (h.generations_unique id g);
    token_ok = λ d t e.
        let (old, here, is_amended) = map-eq-some _ _ (sym (select-token_retire d) ∙ e) in
        subst (λ x. TokenOk after_retire x) is_amended
          (retired_TokenOk old (h.token_ok d old here) covers);
    family_ok = λ id f e.
        let (old, here, is_amended) = map-eq-some _ _ (sym (select-family_retire id) ∙ e) in
        subst (λ x. FamilyOk after_retire x) is_amended
          (retired_FamilyOk old (h.family_ok id old here));
  }
