-- ===== src/Auth/Consistent/Appending.antt =====
-- A row that the schema admits keeps the database consistent, if it fits the rows that it names.
use mathlib.Core.Path.{subst}
use dp_beget_bridge.Base.{
  Bool-cases, Option-cases, is_some, Ends, Ends-modify, after-gets, after-require, ok, ◌>>=◌, find,
  count, find-append, count-append, count-eq-zero, unique_append, ℕ, ◌≤◌, String, ◌≡◌, refl, ◌⊎◌,
  inl, inr, Bool, true, not, none, some, List, [], ◌∷◌, ◌++◌, arith, eq_iff,
}
use dp_beget_bridge.Auth.Model.{Grant, Family, Token, AuthDb}
use dp_beget_bridge.Auth.Owners.{get_owner}
use dp_beget_bridge.Auth.Clients.{get_client}
use dp_beget_bridge.Auth.Grants.{grant_is, select_grant, insert_grant}
use dp_beget_bridge.Auth.Families.{
  family_is, select_family, token_is, select_token, insert_family, at_generation, insert_token,
}
use dp_beget_bridge.Auth.Consistent.{TokenOk, FamilyOk, IsConsistent}

-- A found row stays found behind a row that is appended.
pub find-append_some {ℓ} :
    {A : Type ℓ} (p : A → Bool) (xs : List A) (x y : A)
    → find p xs ≡ some y
    → find p (xs ++ x ∷ []) ≡ some y
find-append_some p xs x y h = rw (find-append p xs x) (rw h refl)

pub find-append_new {ℓ} :
    {A : Type ℓ} (p : A → Bool) (xs : List A) (x : A)
    → find p xs ≡ none
    → p x ≡ true
    → find p (xs ++ x ∷ []) ≡ some x
find-append_new p xs x h e = rw (find-append p xs x) (rw h (rw e refl))

-- What is found behind an appended row was there, or is the row.
pub find-append-cases {ℓ} :
    {A : Type ℓ} (p : A → Bool) (xs : List A) (x y : A)
    → find p (xs ++ x ∷ []) ≡ some y
    → (find p xs ≡ some y) ⊎ (x ≡ y)
find-append-cases p xs x y h = elim (Option-cases (find p xs)) [
  | inl nothing ↦ ground (arith, find-append p xs x)
  | inr (z, found) ↦ ground (arith, find-append p xs x)
]

module _ (row : Grant) (db : AuthDb) (h : IsConsistent db) where
  abbrev pub with_grant : AuthDb
  with_grant = record db { grants = db.grants ++ row ∷ [] }

  pub appended_grant : select_grant row.id db ≡ none → IsConsistent with_grant
  appended_grant fresh = record {
    one_owner = h.one_owner;
    clients_unique = h.clients_unique;
    grants_unique = unique_append (λ g. g.id) db.grants row h.grants_unique fresh;
    families_unique = h.families_unique;
    tokens_unique = h.tokens_unique;
    generations_unique = h.generations_unique;
    token_ok = λ d t e.
        let k = h.token_ok d t e in
        record {
          family = k.family;
          found = k.found;
          bounded = k.bounded;
          expiry = k.expiry;
          open_family = k.open_family;
          newest = k.newest;
        };
    family_ok = λ id f e.
        let k = h.family_ok id f e in
        record {
          grant = k.grant;
          found = find-append_some (grant_is f.grant_id) db.grants row k.grant k.found;
          owner = k.owner;
          client = k.client;
          resource = k.resource;
          expiry = k.expiry;
        };
  }

  pub insert_grant-IsConsistent : Ends IsConsistent (insert_grant row) db
  unfolding insert_grant
  insert_grant-IsConsistent = after-gets _ db (select_grant row.id) (
      after-gets _ db (get_owner row.owner_id) (
        after-gets _ db (get_client row.client_id) (
          after-require _ db (not (is_some (select_grant row.id db))) _ h λ fresh.
            after-require _ db _ _ h λ _. Ends-modify _ db (appended_grant (ground arith)))))

module _ (row : Family) (db : AuthDb) (h : IsConsistent db) (ok_row : FamilyOk db row) where
  abbrev pub with_family : AuthDb
  with_family = record db { families = db.families ++ row ∷ [] }

  pub appended_family : select_family row.id db ≡ none → IsConsistent with_family
  appended_family fresh = record {
    one_owner = h.one_owner;
    clients_unique = h.clients_unique;
    grants_unique = h.grants_unique;
    families_unique = unique_append (λ f. f.id) db.families row h.families_unique fresh;
    tokens_unique = h.tokens_unique;
    generations_unique = h.generations_unique;
    token_ok = λ d t e.
        let k = h.token_ok d t e in
        record {
          family = k.family;
          found = find-append_some (family_is t.family_id) db.families row k.family k.found;
          bounded = k.bounded;
          expiry = k.expiry;
          open_family = k.open_family;
          newest = k.newest;
        };
    family_ok = λ id f e.
        let good = λ (x : Family) (k : FamilyOk db x).
          let y : FamilyOk with_family x = record {
            grant = k.grant;
            found = k.found;
            owner = k.owner;
            client = k.client;
            resource = k.resource;
            expiry = k.expiry;
          } in
          y in
        elim (find-append-cases (family_is id) db.families row f e) [
          | inl old ↦ good f (h.family_ok id f old)
          | inr new ↦ subst (λ x. FamilyOk with_family x) new (good row ok_row)
        ];
  }

-- A fresh generation of a family stays unique.
pub generation_append :
    (rows : List Token) (row : Token)
    → ((id : String) (g : ℕ) → count (at_generation id g) rows ≤ 1)
    → find (at_generation row.family_id row.generation) rows ≡ none
    → (id : String) (g : ℕ) → count (at_generation id g) (rows ++ row ∷ []) ≤ 1
generation_append rows row unique fresh id g =
    rw (count-append (at_generation id g) rows row) (elim (Bool-cases (at_generation id g row)) [
      | inl same ↦
          let e : row.family_id ≡ id = ground (arith, eq_iff row.family_id id) in
          let n : row.generation ≡ g = ground arith in
          rw same (
            omega (
              arith,
              count-eq-zero (at_generation id g) rows (
                  subst (λ j. find (at_generation j g) rows ≡ none) e
                    (subst (λ k. find (at_generation row.family_id k) rows ≡ none) n fresh)),
            ))
      | inr other ↦ rw other (omega (arith, unique id g))
    ])

module _ (row : Token) (db : AuthDb) (h : IsConsistent db) (ok_row : TokenOk db row) where
  abbrev pub with_token : AuthDb
  with_token = record db { tokens = db.tokens ++ row ∷ [] }

  pub appended_token :
      select_token row.digest db ≡ none
      → find (at_generation row.family_id row.generation) db.tokens ≡ none
      → IsConsistent with_token
  appended_token fresh alone = record {
    one_owner = h.one_owner;
    clients_unique = h.clients_unique;
    grants_unique = h.grants_unique;
    families_unique = h.families_unique;
    tokens_unique = unique_append (λ t. t.digest) db.tokens row h.tokens_unique fresh;
    generations_unique = generation_append db.tokens row h.generations_unique alone;
    token_ok = λ d t e.
        let good = λ (x : Token) (k : TokenOk db x).
          let y : TokenOk with_token x = record {
            family = k.family;
            found = k.found;
            bounded = k.bounded;
            expiry = k.expiry;
            open_family = k.open_family;
            newest = k.newest;
          } in
          y in
        elim (find-append-cases (token_is d) db.tokens row t e) [
          | inl old ↦ good t (h.token_ok d t old)
          | inr new ↦ subst (λ x. TokenOk with_token x) new (good row ok_row)
        ];
    family_ok = λ id f e.
        let k = h.family_ok id f e in
        record {
          grant = k.grant;
          found = k.found;
          owner = k.owner;
          client = k.client;
          resource = k.resource;
          expiry = k.expiry;
        };
  }

-- What an insertion that returns has checked, and what it leaves.
pub insert_family_lem :
    (row : Family) (db : AuthDb) {a : Unit {0}} {db' : AuthDb}
    → insert_family row db ≡ (ok a, db')
    → (select_family row.id db ≡ none) × (db' ≡ record db { families = db.families ++ row ∷ [] })
unfolding insert_family ◌>>=◌
insert_family_lem row db h = ground arith

pub insert_token_lem :
    (row : Token) (db : AuthDb) {a : Unit {0}} {db' : AuthDb}
    → insert_token row db ≡ (ok a, db')
    → (select_token row.digest db ≡ none)
      × (find (at_generation row.family_id row.generation) db.tokens ≡ none)
      × (db' ≡ record db { tokens = db.tokens ++ row ∷ [] })
unfolding insert_token ◌>>=◌
insert_token_lem row db h = ground arith
