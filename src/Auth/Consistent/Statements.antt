-- ===== src/Auth/Consistent/Statements.antt =====
-- The statements that several methods of auth-store.js share keep the database consistent.
use mathlib.Core.Option
use dp_beget_bridge.Base.{
  Bool-cases, amend, find-update, count-update, String, ◌≡◌, refl, sym, ◌∙◌, inl, inr, Bool, arith,
}
use dp_beget_bridge.Auth.Model.{Grant, Family, AuthDb}
use dp_beget_bridge.Auth.Grants.{grant_is, select_grant, expired_grant, set_grants}
use dp_beget_bridge.Auth.Consistent.{FamilyOk, IsConsistent}

-- An update of grants that leaves all but the status alone.
pub record KeepsBinding (f : Grant → Grant) : Type 0 where
  pub id : (g : Grant) → (f g).id ≡ g.id
  pub owner : (g : Grant) → (f g).owner_id ≡ g.owner_id
  pub client : (g : Grant) → (f g).client_id ≡ g.client_id
  pub resource : (g : Grant) → (f g).resource ≡ g.resource
  pub expiry : (g : Grant) → (f g).expires_at ≡ g.expires_at

pub KeepsBinding-expired_grant : KeepsBinding expired_grant
KeepsBinding-expired_grant = record {
  id = λ g. refl;
  owner = λ g. refl;
  client = λ g. refl;
  resource = λ g. refl;
  expiry = λ g. refl;
}

module _ (q : Grant → Bool) {f : Grant → Grant} (k : KeepsBinding f) where
  stable_id : (id : String) (g : Grant) → grant_is id (f g) ≡ grant_is id g
  stable_id id g = rw (k.id g)

  pub select-set_grants :
      (id : String) (db : AuthDb)
      → select_grant id (set_grants q f db) ≡ Option.map (amend q f) (select_grant id db)
  select-set_grants id db = find-update (grant_is id) q f db.grants (stable_id id)

  amended_FamilyOk : (db : AuthDb) (x : Family) → FamilyOk db x → FamilyOk (set_grants q f db) x
  amended_FamilyOk db x h = elim (Bool-cases (q h.grant)) [
    | inl changed ↦ record {
      grant = f h.grant;
      found = rw (select-set_grants x.grant_id db) (ground (arith, h.found));
      owner = h.owner ∙ sym (k.owner h.grant);
      client = h.client ∙ sym (k.client h.grant);
      resource = h.resource ∙ sym (k.resource h.grant);
      expiry = rw (k.expiry h.grant) h.expiry;
    }
    | inr same ↦ record {
      grant = h.grant;
      found = rw (select-set_grants x.grant_id db) (ground (arith, h.found));
      owner = h.owner;
      client = h.client;
      resource = h.resource;
      expiry = h.expiry;
    }
  ]

  pub set_grants-IsConsistent : (db : AuthDb) → IsConsistent db → IsConsistent (set_grants q f db)
  set_grants-IsConsistent db h = record {
    one_owner = h.one_owner;
    clients_unique = h.clients_unique;
    grants_unique =
        λ id. rw (count-update (grant_is id) q f db.grants (stable_id id)) (h.grants_unique id);
    families_unique = h.families_unique;
    tokens_unique = h.tokens_unique;
    generations_unique = h.generations_unique;
    token_ok = λ d t e.
        let t_ok = h.token_ok d t e in
        record {
          family = t_ok.family;
          found = t_ok.found;
          bounded = t_ok.bounded;
          expiry = t_ok.expiry;
          open_family = t_ok.open_family;
          newest = t_ok.newest;
        };
    family_ok = λ id x e. amended_FamilyOk db x (h.family_ok id x e);
  }
