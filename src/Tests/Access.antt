-- ===== src/Tests/Access.antt =====
-- auth-store.js at concrete inputs: owners, clients, grants and revocation.
use mathlib.Core.Option
use dp_beget_bridge.Auth.Consistent.{IsConsistent, IsConsistent-same}
use dp_beget_bridge.Base.{
  amend, err, find, ℕ, ◌<◌, String, ◌≡◌, refl, true, false, none, some, [], ◌∷◌, arith, count, not,
  ◌&&◌,
}
use dp_beget_bridge.Auth.Model.{
  bootstrap_unavailable, client_conflict, auth_storage_failure, auth_error, Standing, GrantStatus,
  FamilyStatus, Owner, Client, Grant, AuthDb, grant_active,
}
use dp_beget_bridge.Auth.Platform.{equal_digest, hash_secret}
use dp_beget_bridge.Auth.Owners.{unconsumed, consume_owner_bootstrap}
use dp_beget_bridge.Auth.Owners.Bootstrap.{bootstrap_once, bootstrap_proof}
use dp_beget_bridge.Auth.Clients.{get_client, register_client}
use dp_beget_bridge.Auth.Clients.Registration.{Registers, register_again}
use dp_beget_bridge.Auth.Scopes.{contains, normalize_scopes}
use dp_beget_bridge.Auth.Scopes.Laws.{IsDistinct}
use dp_beget_bridge.Auth.Scopes.Order.{normalize_scopes_canonical}
use dp_beget_bridge.Auth.Grants.{select_grant, GrantRequest}
use dp_beget_bridge.Auth.Grants.Creation.{create_grant_sound}
use dp_beget_bridge.Auth.Families.{select_family, retired}
use dp_beget_bridge.Auth.Rotation.{rotate_refresh_token}
use dp_beget_bridge.Auth.Rotation.Success.{Reads}
use dp_beget_bridge.Auth.Rotation.Atomic.{rotate_rolls_back}
use dp_beget_bridge.Auth.Revocation.{
  revoked_grant, active_grant_of, open_family_of_owner, revoke_grant_rows, revoke_grant,
  revoke_owner_rows, Summary, owner_access_summary, revoke_owner_access,
}
use dp_beget_bridge.Auth.Revocation.Effects.{
  active_family_of_grant, active_token_of_grant, revoke_grant_blocks, revoke_owner_summary,
}
use dp_beget_bridge.Tests.Setting.{
  consumed_row, rotated_once, first_token, second_token, demo, client_name, mcp, supported,
  owner_row, client_row, grant_row,
}
use dp_beget_bridge.Tests.Auth.{auth_run, rotated_once-IsConsistent, current_row}

access_run : Unit {0}
unfolding auth_run revoke_grant revoke_grant_rows revoke_owner_access revoke_owner_rows
    owner_access_summary
access_run = tt

abbrev secret : String
secret = "correct horse battery staple 2026"

abbrev unconsumed_db : AuthDb
unconsumed_db = record rotated_once {
  owners = record owner_row { bootstrap_consumed_at = none } ∷ [];
}

unconsumed_db-IsConsistent : IsConsistent unconsumed_db
unconsumed_db-IsConsistent =
    IsConsistent-same rotated_once-IsConsistent refl refl refl (omega arith)
      rotated_once-IsConsistent.clients_unique

bootstrap_once_example :
    consume_owner_bootstrap demo "another secret" (some 20) rotated_once
    ≡ (err (auth_error bootstrap_unavailable 409), rotated_once)
unfolding access_run
bootstrap_once_example =
    bootstrap_once demo secret (some 10) unconsumed_db (some owner_row) rotated_once
      unconsumed_db-IsConsistent refl "another secret" 20

bootstrap_proof_example :
    (current : ℕ) × (row : Owner) × (some 10 ≡ some current)
    × (find unconsumed unconsumed_db.owners ≡ some row)
    × (row.status ≡ Standing.active)
    × (row.bootstrap_consumed_at ≡ none)
    × (current < row.bootstrap_expires_at)
    × (equal_digest (hash_secret demo secret) row.bootstrap_digest ≡ true)
unfolding access_run
bootstrap_proof_example =
    bootstrap_proof demo secret (some 10) unconsumed_db (some owner_row) rotated_once refl

abbrev grant_request : GrantRequest
grant_request = record {
  id = "grant-0002";
  owner_id = "owner";
  client_id = client_name;
  resource = mcp;
  scopes = "terminal:read" ∷ "files:read" ∷ "terminal:read" ∷ [];
  execution_profile = "files-read";
  granted_at = some 60;
  expires_at = some 1000;
}

abbrev second_grant : Grant
second_grant = record grant_row {
  id = "grant-0002";
  scopes = "files:read" ∷ "terminal:read" ∷ [];
  granted_at = 60;
}

create_grant_sound_example :
    (g : Grant) × (some second_grant ≡ some g)
    × (select_grant "grant-0002" rotated_once ≡ none)
    × (g.status ≡ GrantStatus.active)
    × (g.granted_at < g.expires_at)
    × IsDistinct g.scopes
    × (contains g.scopes "files:read" ≡ contains grant_request.scopes "files:read")
    × ((contains g.scopes "files:read" && not (contains supported "files:read")) ≡ false)
    × (g.id ≡ "grant-0002")
    × (g.owner_id ≡ "owner")
    × (g.client_id ≡ client_name)
    × (select_grant "grant-0002" (record rotated_once { grants = grant_row ∷ second_grant ∷ [] })
        ≡ some g)
    × ((c : Client) × (get_client client_name rotated_once ≡ some c)
        × (c.status ≡ Standing.active)
        × (c.owner_id ≡ "owner"))
unfolding access_run
create_grant_sound_example =
    create_grant_sound demo supported grant_request rotated_once (some second_grant)
      (record rotated_once { grants = grant_row ∷ second_grant ∷ [] }) "files:read" refl

Reads-back : Reads demo second_token first_token client_name mcp "a2" "a1" client_name mcp
unfolding access_run
Reads-back = record {
  token_read = refl;
  next_read = refl;
  differ = refl;
  client_read = refl;
  resource_read = refl;
}

rotate_rolls_back_example :
    rotate_refresh_token demo second_token first_token client_name mcp (some 60) rotated_once
    ≡ (err (auth_error auth_storage_failure 503), rotated_once)
unfolding access_run
rotate_rolls_back_example =
    rotate_rolls_back demo second_token first_token client_name mcp 60 rotated_once "a2" "a1"
      client_name mcp current_row consumed_row Reads-back refl refl refl refl refl

revoke_grant_blocks_example :
    ((g : Grant) × (select_grant "grant-0001"
          (revoke_grant "grant-0001" "owner" (some 70) "owner_request" rotated_once).1
        ≡ some g)
      × (grant_active g.status ≡ false))
    × (count
          (active_family_of_grant "grant-0001")
          (revoke_grant "grant-0001" "owner" (some 70) "owner_request" rotated_once).1.families
        ≡ 0)
    × (count
          (active_token_of_grant "grant-0001"
            (revoke_grant "grant-0001" "owner" (some 70) "owner_request" rotated_once).1)
          (revoke_grant "grant-0001" "owner" (some 70) "owner_request" rotated_once).1.tokens
        ≡ 0)
unfolding access_run
revoke_grant_blocks_example =
    revoke_grant_blocks "grant-0001" "owner" 70 "owner_request" rotated_once
      (some (record grant_row { status = GrantStatus.revoked }))
      (revoke_grant "grant-0001" "owner" (some 70) "owner_request" rotated_once).1 refl

abbrev revoked_summary : Summary
revoked_summary = record {
  owner_id = "owner";
  owner_status = Standing.active;
  bootstrap_pending = false;
  active_clients = 1;
  active_grants = 0;
  active_token_families = 0;
}

revoke_owner_summary_example :
    (revoked_summary.active_grants ≡ 0)
    × (revoked_summary.active_token_families ≡ 0)
    × (select_grant "grant-0001"
          (revoke_owner_access "owner" (some 70) "owner_request" rotated_once).1
        ≡ Option.map
            (amend (active_grant_of "owner") revoked_grant)
            (select_grant "grant-0001" rotated_once))
    × (select_family "family-0001"
          (revoke_owner_access "owner" (some 70) "owner_request" rotated_once).1
        ≡ Option.map
            (amend (open_family_of_owner "owner") (retired FamilyStatus.revoked 70 "owner_request"))
            (select_family "family-0001" rotated_once))
unfolding access_run
revoke_owner_summary_example =
    revoke_owner_summary "owner" 70 "owner_request" rotated_once revoked_summary
      (revoke_owner_access "owner" (some 70) "owner_request" rotated_once).1 "grant-0001"
      "family-0001" refl

normalize_scopes_canonical_example :
    normalize_scopes ("files:write" ∷ "files:read" ∷ "files:write" ∷ [])
    ≡ normalize_scopes ("files:read" ∷ "files:write" ∷ [])
normalize_scopes_canonical_example =
    normalize_scopes_canonical ("files:write" ∷ "files:read" ∷ "files:write" ∷ [])
      ("files:read" ∷ "files:write" ∷ []) (λ s. unfold contains in ground arith)

register_again_example :
    register_client demo client_name "owner" "https://mcp.example/mcp" (some 60) rotated_once
    ≡ (err (auth_error client_conflict 409), rotated_once)
unfolding access_run
register_again_example =
    register_again demo client_name "owner" "https://mcp.example/mcp" (some 60) client_name mcp 60
      rotated_once client_row registers refl refl refl
  where
    registers :
        Registers demo client_name "owner" "https://mcp.example/mcp" (some 60) client_name mcp 60
    registers = record { client_read = refl; created_read = refl; redirect_read = refl }
