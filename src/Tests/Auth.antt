-- ===== src/Tests/Auth.antt =====
-- auth-store.js at concrete inputs.
use dp_beget_bridge.Auth.Consistent.{IsConsistent}
use dp_beget_bridge.Auth.Consistent.Joining.{next_token, advanced_db}
use dp_beget_bridge.Auth.Rotation.Success.{Reads, rotate_succeeds}
use dp_beget_bridge.Auth.Rotation.Reuse.{compromised_db, reuse_compromises}
use dp_beget_bridge.Auth.Rotation.{
  Joined, select_joined, binding_matches, is_live, is_current, consumed_token, next_generation,
  advance, decide, rotate_refresh_token,
}
use dp_beget_bridge.Auth.Families.{
  select_family, select_token, retired, revoked_token, retire, storage_failure, expire_family,
  get_token_family, insert_family, insert_token, grant_matches, create_token_family,
}
use dp_beget_bridge.Base.{
  ok, err, transaction, ◌>>=◌, find, update, count, ◌+◌, ◌≡◌, refl, false, some, List, [], ◌∷◌,
}
use dp_beget_bridge.Auth.Model.{
  refresh_reuse_detected, auth_error, FamilyStatus, TokenStatus, empty, token_active,
}
use dp_beget_bridge.Auth.Platform.{
  opaque_client_ok, profile_ok, equal_digest, hash_secret, hash_refresh_token, exact_https_url,
  client_identifier,
}
use dp_beget_bridge.Auth.Owners.{
  get_owner, insert_owner_into, owner_exists, create_owner_bootstrap, consume_owner_bootstrap,
}
use dp_beget_bridge.Auth.Clients.{
  get_client, insert_client, is_bootstrapped, after_insert, register_client,
}
use dp_beget_bridge.Auth.Grants.{insert_grant, expire_grant, get_grant, client_usable, create_grant}
use dp_beget_bridge.Auth.Calls.{
  Call, create_owner, consume_owner, register, grant, family, rotate, after_calls,
  after_calls-IsConsistent, one_active_token,
}
use dp_beget_bridge.Auth.Scopes.{normalize_scopes, scopes_ok}
use dp_beget_bridge.Tests.Setting.{
  first_token, second_token, third_token, demo, client_name, mcp, supported, grant_row, family_row,
  consumed_row, active_row, rotated_once,
}

abbrev history : List Call
history =
    create_owner "owner" "correct horse battery staple 2026" (some 0) (some 100)
    ∷ consume_owner "correct horse battery staple 2026" (some 10)
    ∷ register client_name "owner" "https://chat.example/cb" (some 20)
    ∷ grant (record {
      id = "grant-0001";
      owner_id = "owner";
      client_id = client_name;
      resource = mcp;
      scopes = "files:read" ∷ "files:read" ∷ [];
      execution_profile = "files-read";
      granted_at = some 30;
      expires_at = some 1000;
    })
    ∷ family (record {
      id = "family-0001";
      grant_id = "grant-0001";
      owner_id = "owner";
      client_id = client_name;
      resource = mcp;
      refresh_token = first_token;
      created_at = some 40;
      expires_at = some 900;
    })
    ∷ rotate first_token second_token client_name mcp (some 50)
    ∷ []

-- all that a run computes with
unfoldable pub auth_run : Unit {0}
unfolding after_calls opaque_client_ok create_owner_bootstrap consume_owner_bootstrap
    register_client create_grant create_token_family rotate_refresh_token decide advance get_grant
    get_token_family find update count ◌>>=◌ transaction storage_failure insert_owner_into
    owner_exists get_owner get_client hash_secret hash_refresh_token equal_digest client_identifier
    exact_https_url insert_client insert_grant insert_family insert_token is_bootstrapped
    client_usable grant_matches normalize_scopes scopes_ok profile_ok expire_grant expire_family
    retire select_joined binding_matches is_live is_current after_insert
auth_run = tt

-- The history of the methods' calls gives the database of `Setting`.
history_run : after_calls demo supported history empty ≡ rotated_once
unfolding auth_run
history_run = refl

after_calls-IsConsistent_example : IsConsistent (after_calls demo supported history empty)
after_calls-IsConsistent_example = after_calls-IsConsistent demo supported history

one_active_token_example : active_row ≡ active_row
unfolding auth_run
one_active_token_example =
    one_active_token demo supported history "a2" "a2" active_row active_row refl refl refl refl refl

pub rotated_once-IsConsistent : IsConsistent rotated_once
rotated_once-IsConsistent = rw (← history_run) (after_calls-IsConsistent demo supported history)

abbrev pub current_row : Joined
current_row = record { family = family_row; token = active_row; grant = grant_row }

abbrev stale_row : Joined
stale_row = record { family = family_row; token = consumed_row; grant = grant_row }

pub Reads-second : Reads demo second_token third_token client_name mcp "a2" "a3" client_name mcp
unfolding auth_run
Reads-second = record {
  token_read = refl;
  next_read = refl;
  differ = refl;
  client_read = refl;
  resource_read = refl;
}

Reads-first : Reads demo first_token third_token client_name mcp "a1" "a3" client_name mcp
unfolding auth_run
Reads-first = record {
  token_read = refl;
  next_read = refl;
  differ = refl;
  client_read = refl;
  resource_read = refl;
}

rotate_succeeds_example :
    (rotate_refresh_token demo second_token third_token client_name mcp (some 60) rotated_once ≡ (
      ok (record { family = some (next_generation (1 + 1) family_row); grant = some grant_row }),
      advanced_db current_row "a2" "a3" 60 rotated_once,
    ))
    × (select_token "a2" (advanced_db current_row "a2" "a3" 60 rotated_once)
        ≡ some (consumed_token 60 active_row))
    × (select_token "a3" (advanced_db current_row "a2" "a3" 60 rotated_once)
        ≡ some (next_token current_row "a2" "a3" 60 rotated_once))
unfolding auth_run
rotate_succeeds_example =
    rotate_succeeds demo second_token third_token client_name mcp 60 rotated_once "a2" "a3"
      client_name mcp current_row Reads-second rotated_once-IsConsistent refl refl refl refl refl

reuse_compromises_example :
    (rotate_refresh_token demo first_token third_token client_name mcp (some 60) rotated_once
      ≡ (err (auth_error refresh_reuse_detected 400), compromised_db 60 stale_row rotated_once))
    × (select_family "family-0001" (compromised_db 60 stale_row rotated_once)
        ≡ some (retired FamilyStatus.compromised 60 "refresh_reuse" family_row))
    × (token_active TokenStatus.revoked ≡ false)
unfolding auth_run
reuse_compromises_example =
    reuse_compromises demo first_token third_token client_name mcp 60 rotated_once "a1" "a3"
      client_name mcp stale_row Reads-first refl refl refl refl "a2" (revoked_token active_row) refl
      refl
