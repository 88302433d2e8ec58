-- ===== src/Auth/Consistent/Joining.antt =====
-- The rows that the JOIN of `rotateRefreshToken` finds, and what a rotation that succeeds has checked
-- and leaves.
use mathlib.Core.Option
use mathlib.Core.Path.{subst}
use dp_beget_bridge.Base.{
  Option-cases, returned-bind, returned-gets, returned-require, returned-modify,
  returned-modify-pure, ok, find, count, ℕ, ◌+◌, String, ◌≡◌, sym, ap, ◌∙◌, inl, inr, Option, none,
  some, [], ◌∷◌, ◌++◌, arith,
}
use dp_beget_bridge.Auth.Model.{AuthError, lost_update, Family, Token, AuthDb}
use dp_beget_bridge.Auth.Grants.{select_grant}
use dp_beget_bridge.Auth.Families.{
  select_family, select_token, set_families, set_tokens, at_generation, insert_token, new_token,
}
use dp_beget_bridge.Auth.Rotation.{
  Joined, join_grant, join_family, join_token, select_joined, consumed_token, active_digest_is,
  family_at, next_generation, advance,
}
use dp_beget_bridge.Auth.Consistent.Appending.{insert_token_lem}

-- The three rows that the JOIN reads.
pub record IsJoined (digest : String) (row : Joined) (db : AuthDb) : Type 0 where
  pub token : select_token digest db ≡ some row.token
  pub family : select_family row.token.family_id db ≡ some row.family
  pub grant : select_grant row.family.grant_id db ≡ some row.grant

join_family_lem :
    (token : Token) (f : Option Family) (db : AuthDb) {row : Joined}
    → join_family token f db ≡ some row
    → (token ≡ row.token)
      × (f ≡ some row.family)
      × (select_grant row.family.grant_id db ≡ some row.grant)
unfolding join_family join_grant
join_family_lem token none db e = ground arith
join_family_lem token (some f) db e = elim (Option-cases (select_grant f.grant_id db)) [
  | inl nothing ↦ ground arith
  | inr (g, found) ↦
      let same : Path Joined (record { family = f; token = token; grant = g }) _ =
        Option.some-injective _ _ (sym (ap (join_grant token f) found) ∙ e) in
      (
        ap (λ r. r.token) same,
        ap (λ r. some r.family) same,
        subst (λ (r : Joined). select_grant r.family.grant_id db ≡ some r.grant) same found,
      )
]

pub select_joined_lem :
    (digest : String) (db : AuthDb) {row : Joined}
    → select_joined digest db ≡ some row
    → IsJoined digest row db
unfolding select_joined join_token
select_joined_lem digest db {row} e = elim (Option-cases (select_token digest db)) [
  | inl nothing ↦ absurd (Option.none-ne-some _ (sym (ap (λ t. join_token t db) nothing) ∙ e))
  | inr (t, found) ↦
      let (same, fam, gr) =
        join_family_lem t (select_family t.family_id db) db
          (sym (ap (λ x. join_token x db) found) ∙ e) in
      record {
        token = found ∙ ap some same;
        family = subst (λ (x : Token). select_family x.family_id db ≡ some row.family) same fam;
        grant = gr;
      }
]

module _ (row : Joined) (digest next_digest : String) (now : ℕ) (db : AuthDb) where
  abbrev generation : ℕ
  generation = row.family.current_generation

  abbrev pub consumed_db : AuthDb
  consumed_db = set_tokens (active_digest_is digest) (consumed_token now) db

  abbrev pub next_token : Token
  next_token = new_token next_digest row.family.id (generation + 1) now row.family.expires_at

  -- What a rotation that succeeds leaves.
  abbrev pub advanced_db : AuthDb
  advanced_db =
      set_families (family_at row.family.id generation) (next_generation (generation + 1))
        (record consumed_db { tokens = consumed_db.tokens ++ next_token ∷ [] })

  pub advance_lem :
      {failure : Option AuthError} {db' : AuthDb}
      → advance row digest next_digest now db ≡ (ok failure, db')
      → (select_token next_digest consumed_db ≡ none)
        × (find (at_generation row.family.id (generation + 1)) consumed_db.tokens ≡ none)
        × (failure ≡ none)
        × (db' ≡ advanced_db)
  unfolding advance
  advance_lem e =
      let e1 = returned-gets _ db (λ s. count (active_digest_is digest) s.tokens) e in
      let e2 =
        returned-modify _ db (set_tokens (active_digest_is digest) (consumed_token now)) e1 in
      let (_, e3) = returned-require _ consumed_db _ lost_update e2 in
      let (_, db2, inserted, e4) = returned-bind _ consumed_db (insert_token next_token) e3 in
      let (fresh, alone, is_db2) = insert_token_lem next_token consumed_db inserted in
      let (is_none, is_db3) =
        returned-modify-pure
          (set_families (family_at row.family.id generation) (next_generation (generation + 1)))
          none db2 e4 in
      (
        fresh,
        alone,
        is_none,
        is_db3
            ∙ ap
                (set_families (family_at row.family.id generation)
                  (next_generation (generation + 1)))
                is_db2,
      )
