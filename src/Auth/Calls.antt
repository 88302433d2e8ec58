-- ===== src/Auth/Calls.antt =====
-- The methods of `AuthStore` that write, as calls, and a history of calls.
use mathlib.Core.Option
use dp_beget_bridge.Base.{
  find_unique, String, ◌≡◌, sym, ap, ◌∙◌, Option, some, List, [], ◌∷◌, arith, eq_iff, eq_refl,
}
use dp_beget_bridge.Auth.Model.{TokenStatus, Token, AuthDb, empty, token_active}
use dp_beget_bridge.Auth.Platform.{Platform, Stamp}
use dp_beget_bridge.Auth.Owners.{create_owner_bootstrap, consume_owner_bootstrap}
use dp_beget_bridge.Auth.Clients.{register_client}
use dp_beget_bridge.Auth.Grants.{get_grant, GrantRequest, create_grant}
use dp_beget_bridge.Auth.Families.{
  select_family, token_is, select_token, get_token_family, at_generation, FamilyRequest,
  create_token_family,
}
use dp_beget_bridge.Auth.Rotation.{rotate_refresh_token}
use dp_beget_bridge.Auth.Revocation.{
  revoke_token_family, revoke_refresh_token, revoke_grant, revoke_owner_access, reset_owner_access,
}
use dp_beget_bridge.Auth.Consistent.{IsConsistent, IsConsistent-empty}
use dp_beget_bridge.Auth.Consistent.Setup.{
  create_owner_bootstrap-IsConsistent, consume_owner_bootstrap-IsConsistent,
  register_client-IsConsistent,
}
use dp_beget_bridge.Auth.Consistent.Making.{
  create_grant-IsConsistent, create_token_family-IsConsistent,
}
use dp_beget_bridge.Auth.Consistent.Lookups.{get_grant-IsConsistent, get_token_family-IsConsistent}
use dp_beget_bridge.Auth.Consistent.Rotating.{rotate_refresh_token-IsConsistent}
use dp_beget_bridge.Auth.Consistent.Revoking.{
  revoke_token_family-IsConsistent, revoke_refresh_token-IsConsistent, revoke_grant-IsConsistent,
  revoke_owner_access-IsConsistent, reset_owner_access-IsConsistent,
}

-- The arguments are in the order of the methods' parameters in the modules above.
pub data Call : Type 0 where
  create_owner : String → String → Stamp → Stamp → Call
  consume_owner : String → Stamp → Call
  register : String → String → String → Stamp → Call
  grant : GrantRequest → Call
  read_grant : String → Stamp → Call
  family : FamilyRequest → Call
  read_family : String → Stamp → Call
  rotate : String → String → String → String → Stamp → Call
  revoke_family : String → String → Stamp → String → Call
  revoke_refresh : String → Option String → Stamp → String → Call
  revoke_by_owner : String → String → Stamp → String → Call
  revoke_all : String → Stamp → String → Call
  reset_all : String → String → Stamp → Stamp → Call

module _ (p : Platform) (supported : List String) where
  -- The database after one call, whether it returns or throws.
  unfoldable pub after_call : Call → AuthDb → AuthDb
  after_call (create_owner id secret created expires) db =
      (create_owner_bootstrap p id secret created expires db).1
  after_call (consume_owner secret now) db = (consume_owner_bootstrap p secret now db).1
  after_call (register client owner redirect created) db =
      (register_client p client owner redirect created db).1
  after_call (grant request) db = (create_grant p supported request db).1
  after_call (read_grant id now) db = (get_grant id now db).1
  after_call (family request) db = (create_token_family p request db).1
  after_call (read_family id now) db = (get_token_family id now db).1
  after_call (rotate token next client resource now) db =
      (rotate_refresh_token p token next client resource now db).1
  after_call (revoke_family id owner at reason) db = (revoke_token_family id owner at reason db).1
  after_call (revoke_refresh token client at reason) db =
      (revoke_refresh_token p token client at reason db).1
  after_call (revoke_by_owner id owner at reason) db = (revoke_grant id owner at reason db).1
  after_call (revoke_all owner at reason) db = (revoke_owner_access owner at reason db).1
  after_call (reset_all owner secret at expires) db =
      (reset_owner_access p owner secret at expires db).1

  unfoldable pub after_calls : List Call → AuthDb → AuthDb
  unfolding after_call
  after_calls [] db = db
  after_calls (c ∷ cs) db = after_calls cs (after_call c db)

  after_call-IsConsistent :
      (c : Call) (db : AuthDb) → IsConsistent db → IsConsistent (after_call c db)
  unfolding after_call
  after_call-IsConsistent (create_owner id secret created expires) db h =
      (create_owner_bootstrap-IsConsistent p id secret created expires db h).at
  after_call-IsConsistent (consume_owner secret now) db h =
      (consume_owner_bootstrap-IsConsistent p secret now db h).at
  after_call-IsConsistent (register client owner redirect created) db h =
      (register_client-IsConsistent p client owner redirect created db h).at
  after_call-IsConsistent (grant request) db h =
      (create_grant-IsConsistent p supported request db h).at
  after_call-IsConsistent (read_grant id now) db h = (get_grant-IsConsistent id now db h).at
  after_call-IsConsistent (family request) db h =
      (create_token_family-IsConsistent p request db h).at
  after_call-IsConsistent (read_family id now) db h = (get_token_family-IsConsistent id now db h).at
  after_call-IsConsistent (rotate token next client resource now) db h =
      (rotate_refresh_token-IsConsistent p token next client resource now db h).at
  after_call-IsConsistent (revoke_family id owner at reason) db h =
      (revoke_token_family-IsConsistent id owner at reason db h).at
  after_call-IsConsistent (revoke_refresh token client at reason) db h =
      (revoke_refresh_token-IsConsistent p token client at reason db h).at
  after_call-IsConsistent (revoke_by_owner id owner at reason) db h =
      (revoke_grant-IsConsistent id owner at reason db h).at
  after_call-IsConsistent (revoke_all owner at reason) db h =
      (revoke_owner_access-IsConsistent owner at reason db h).at
  after_call-IsConsistent (reset_all owner secret at expires) db h =
      (reset_owner_access-IsConsistent p owner secret at expires db h).at

  after_calls-IsConsistent_from :
      (cs : List Call) (db : AuthDb) → IsConsistent db → IsConsistent (after_calls cs db)
  unfolding after_calls
  after_calls-IsConsistent_from [] db h = h
  after_calls-IsConsistent_from (c ∷ cs) db h =
      after_calls-IsConsistent_from cs (after_call c db) (after_call-IsConsistent c db h)

  -- After any calls on an empty database, returned or thrown, the database is consistent: there is
  -- at most one owner, every key is unique, each family repeats the owner, client and resource of
  -- a stored grant and expires no later than it, and each refresh token belongs to a stored family,
  -- has its expiry and a generation up to its current one, and is active only if the family is
  -- active and the generation is the current one.
  pub after_calls-IsConsistent : (cs : List Call) → IsConsistent (after_calls cs empty)
  after_calls-IsConsistent cs = after_calls-IsConsistent_from cs empty IsConsistent-empty

-- After any calls on an empty database, two active refresh tokens of one family are the same row.
pub one_active_token :
    (p : Platform) (supported : List String) (cs : List Call) (d e : String) (t u : Token)
    → select_token d (after_calls p supported cs empty) ≡ some t
    → select_token e (after_calls p supported cs empty) ≡ some u
    → t.family_id ≡ u.family_id
    → t.status ≡ TokenStatus.active
    → u.status ≡ TokenStatus.active
    → t ≡ u
one_active_token p supported cs d e t u t_found u_found same t_active u_active =
    let db = after_calls p supported cs empty in
    let h = after_calls-IsConsistent p supported cs in
    let kt = h.token_ok d t t_found in
    let ku = h.token_ok e u u_found in
    let one : kt.family ≡ ku.family =
      Option.some-injective _ _ (sym kt.found ∙ ap (λ i. select_family i db) same ∙ ku.found) in
    let equal : t.generation ≡ u.generation =
      kt.newest (ap token_active t_active)
      ∙ ap (λ f. f.current_generation) one
      ∙ sym (ku.newest (ap token_active u_active)) in
    find_unique (at_generation u.family_id u.generation) (token_is d) (token_is e) db.tokens t u
      (h.generations_unique u.family_id u.generation) t_found u_found
      (ground (arith, (eq_iff t.family_id u.family_id).1 same))
      (ground (arith, eq_refl u.family_id))
