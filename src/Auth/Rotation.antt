-- ===== src/Auth/Rotation.antt =====
-- auth-store.js: `rotateRefreshToken`. The transaction decides between five outcomes; a failure
-- that it decides on is thrown after the COMMIT, so its updates stay.
pub mod Outcomes
pub mod Success
pub mod Reuse
pub mod Atomic
use dp_beget_bridge.Base.{
  ltb, eqb, if◌then◌else◌, Action, ◌>>=◌, ◌>>◌, pure, throw, lift, gets, transaction, modify,
  require, count, ℕ, ◌+◌, String, Bool, not, ◌&&◌, Option, none, some, ◌==◌,
}
use dp_beget_bridge.Auth.Model.{
  invalid_refresh_token, refresh_inactive, refresh_reuse_detected, AuthError, auth_error,
  lost_update, FamilyStatus, TokenStatus, Grant, Family, Token, AuthDb, grant_active, family_active,
  token_active,
}
use dp_beget_bridge.Auth.Platform.{
  Platform, Stamp, iso_time, hash_refresh_token, exact_https_url, client_identifier,
}
use dp_beget_bridge.Auth.Grants.{select_grant, get_grant}
use dp_beget_bridge.Auth.Families.{
  family_is, select_family, token_is, select_token, set_families, set_tokens, retire, retire_family,
  storage_failure, expire_family, get_token_family, insert_token, new_token,
}

-- The row of the three-way JOIN.
pub record Joined : Type 0 where
  pub family : Family
  pub token : Token
  pub grant : Grant

unfoldable pub join_grant : Token → Family → Option Grant → Option Joined
join_grant token family none = none
join_grant token family (some grant) =
    some (record { family = family; token = token; grant = grant })

unfoldable pub join_family : Token → Option Family → AuthDb → Option Joined
join_family token none db = none
join_family token (some family) db = join_grant token family (select_grant family.grant_id db)

unfoldable pub join_token : Option Token → AuthDb → Option Joined
join_token none db = none
join_token (some token) db = join_family token (select_family token.family_id db) db

unfoldable pub select_joined : String → AuthDb → Option Joined
unfolding join_token join_family join_grant
select_joined digest db = join_token (select_token digest db) db

unfoldable pub binding_matches : Joined → String → String → Bool
binding_matches row client_id resource =
    row.family.client_id == client_id && row.family.resource == resource

-- `row.status !== "ACTIVE" || row.grant_status !== "ACTIVE"` and the three expiries, negated
unfoldable pub is_live : Joined → ℕ → Bool
is_live row now =
    family_active row.family.status
    && grant_active row.grant.status
    && ltb now row.family.expires_at
    && ltb now row.grant.expires_at
    && ltb now row.token.expires_at

-- `row.token_status !== "ACTIVE" || row.token_generation !== row.current_generation`, negated
unfoldable pub is_current : Joined → Bool
is_current row =
    token_active row.token.status && eqb row.token.generation row.family.current_generation

abbrev pub consumed_token : ℕ → Token → Token
consumed_token now row = record row { status = TokenStatus.consumed; consumed_at = some now }

-- digest = ? AND status = 'ACTIVE'
abbrev pub active_digest_is : String → Token → Bool
active_digest_is digest row = token_is digest row && token_active row.status

-- id = ? AND status = 'ACTIVE' AND current_generation = ?
abbrev pub family_at : String → ℕ → Family → Bool
family_at id generation row =
    family_is id row && family_active row.status && eqb row.current_generation generation

abbrev pub next_generation : ℕ → Family → Family
next_generation generation row = record row { current_generation = generation }

-- the last branch of the transaction
unfoldable pub advance : Joined → String → String → ℕ → Action AuthDb AuthError (Option AuthError)
unfolding insert_token
advance row digest next_digest now = do
  changes ← gets (λ db. count (active_digest_is digest) db.tokens)
  modify (set_tokens (active_digest_is digest) (consumed_token now))
  require (eqb changes 1) lost_update
  let generation = row.family.current_generation + 1
  insert_token (new_token next_digest row.family.id generation now row.family.expires_at)
  modify (
      set_families (family_at row.family.id row.family.current_generation)
        (next_generation generation))
  pure none

-- the transaction on the row that the JOIN finds; its result is the `failure` to throw
unfoldable pub decide :
    Joined → String → String → String → String → ℕ → Action AuthDb AuthError (Option AuthError)
unfolding binding_matches is_live is_current advance expire_family retire
decide row client_id resource digest next_digest now =
    if not (binding_matches row client_id resource)
    then pure (some (auth_error invalid_refresh_token 400))
    else if not (is_live row now)
    then (do
      modify (expire_family (some row.family) now)
      pure (some (auth_error refresh_inactive 400)))
    else if not (is_current row)
    then (do
      modify (retire_family FamilyStatus.compromised now "refresh_reuse" row.family.id)
      pure (some (auth_error refresh_reuse_detected 400)))
    else advance row digest next_digest now

-- `if (failure) throw authError(...failure)`
abbrev pub throw_failure : Option AuthError → Action AuthDb AuthError (Unit {0})
throw_failure none = pure tt
throw_failure (some e) = throw e

pub record Rotated : Type 0 where
  pub family : Option Family
  pub grant : Option Grant

unfoldable pub rotate_row :
    Option Joined → String → String → String → String → ℕ → Action AuthDb AuthError Rotated
unfolding transaction storage_failure
rotate_row none client_id resource digest next_digest now =
    throw (auth_error invalid_refresh_token 400)
rotate_row (some row) client_id resource digest next_digest now = do
  failure ← transaction storage_failure (decide row client_id resource digest next_digest now)
  throw_failure failure
  family ← get_token_family row.family.id (some now)
  grant ← get_grant row.family.grant_id (some now)
  pure (record { family = family; grant = grant })

unfoldable pub rotate_refresh_token :
    Platform → String → String → String → String → Stamp → Action AuthDb AuthError Rotated
unfolding rotate_row select_joined hash_refresh_token client_identifier exact_https_url
rotate_refresh_token p refresh_token next_refresh_token client_id resource now = do
  current ← lift (iso_time now)
  digest ← lift (hash_refresh_token p refresh_token)
  next_digest ← lift (hash_refresh_token p next_refresh_token)
  require (not (digest == next_digest)) (auth_error invalid_refresh_token 400)
  normalized_client ← lift (client_identifier p client_id)
  normalized_resource ← lift (exact_https_url p resource)
  row ← gets (select_joined digest)
  rotate_row row normalized_client normalized_resource digest next_digest current
