-- ===== src/Auth/Consistent.antt =====
-- What holds of auth.sqlite between two calls: the constraints of the schema, and the discipline of
-- refresh tokens.
pub mod Statements
pub mod Retire
pub mod Setup
pub mod Appending
pub mod Making
pub mod Joining
pub mod Advancing
pub mod Rotating
pub mod Revoking
pub mod Lookups
use dp_beget_bridge.Base.{length, find, count, ℕ, ◌≤◌, String, ◌≡◌, true, some, arith}
use dp_beget_bridge.Auth.Model.{Grant, Family, Token, AuthDb, empty, family_active, token_active}
use dp_beget_bridge.Auth.Grants.{grant_is, select_grant}
use dp_beget_bridge.Auth.Clients.{client_is}
use dp_beget_bridge.Auth.Families.{family_is, select_family, token_is, select_token, at_generation}

-- A token belongs to a stored family, is of no later generation, expires with it, and is active only
-- as the current generation of an active family.
pub record TokenOk (db : AuthDb) (t : Token) : Type 0 where
  pub family : Family
  pub found : select_family t.family_id db ≡ some family
  pub bounded : t.generation ≤ family.current_generation
  pub expiry : t.expires_at ≡ family.expires_at
  pub open_family : token_active t.status ≡ true → family_active family.status ≡ true
  pub newest : token_active t.status ≡ true → t.generation ≡ family.current_generation

-- A family repeats the owner, client and resource of its grant, and does not outlive it.
pub record FamilyOk (db : AuthDb) (f : Family) : Type 0 where
  pub grant : Grant
  pub found : select_grant f.grant_id db ≡ some grant
  pub owner : f.owner_id ≡ grant.owner_id
  pub client : f.client_id ≡ grant.client_id
  pub resource : f.resource ≡ grant.resource
  pub expiry : f.expires_at ≤ grant.expires_at

pub record IsConsistent (db : AuthDb) : Type 0 where
  pub one_owner : length db.owners ≤ 1
  pub clients_unique : (id : String) → count (client_is id) db.clients ≤ 1
  pub grants_unique : (id : String) → count (grant_is id) db.grants ≤ 1
  pub families_unique : (id : String) → count (family_is id) db.families ≤ 1
  pub tokens_unique : (d : String) → count (token_is d) db.tokens ≤ 1
  pub generations_unique : (id : String) (g : ℕ) → count (at_generation id g) db.tokens ≤ 1
  pub token_ok : (d : String) (t : Token) → select_token d db ≡ some t → TokenOk db t
  pub family_ok : (id : String) (f : Family) → select_family id db ≡ some f → FamilyOk db f

pub IsConsistent-empty : IsConsistent empty
unfolding find count
IsConsistent-empty = record {
  one_owner = omega arith;
  clients_unique = λ id. omega arith;
  grants_unique = λ id. omega arith;
  families_unique = λ id. omega arith;
  tokens_unique = λ d. omega arith;
  generations_unique = λ id g. omega arith;
  token_ok = λ d t e. ground arith;
  family_ok = λ id f e. ground arith;
}

-- Statements on owners and clients touch no token, family or grant.
pub IsConsistent-same :
    {db db' : AuthDb}
    → IsConsistent db
    → db'.grants ≡ db.grants
    → db'.families ≡ db.families
    → db'.tokens ≡ db.tokens
    → length db'.owners ≤ 1
    → ((id : String) → count (client_is id) db'.clients ≤ 1)
    → IsConsistent db'
IsConsistent-same {db} {db'} h g f t o c = record {
  one_owner = o;
  clients_unique = c;
  grants_unique = λ id. rw g (h.grants_unique id);
  families_unique = λ id. rw f (h.families_unique id);
  tokens_unique = λ d. rw t (h.tokens_unique d);
  generations_unique = λ id n. rw t (h.generations_unique id n);
  token_ok = λ d x e.
      let k = h.token_ok d x (rw t at e) in
      record {
        family = k.family;
        found = rw f k.found;
        bounded = k.bounded;
        expiry = k.expiry;
        open_family = k.open_family;
        newest = k.newest;
      };
  family_ok = λ id x e.
      let k = h.family_ok id x (rw f at e) in
      record {
        grant = k.grant;
        found = rw g k.found;
        owner = k.owner;
        client = k.client;
        resource = k.resource;
        expiry = k.expiry;
      };
}
