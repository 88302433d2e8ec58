-- ===== src/Tests/Mcp.antt =====
-- agent-context.js, session-owner-store.js and download-tokens.js at concrete inputs.
use dp_beget_bridge.Base.{
  if◌then◌else◌, ok, find, delete, ◌-◌, ◌/◌, ◌≤◌, ◌<◌, String, ◌≡◌, refl, none, some, [], ◌∷◌,
  arith, ◌==◌,
}
use dp_beget_bridge.Auth.Platform.{scope_ok, profile_ok}
use dp_beget_bridge.Auth.Scopes.{sort}
use dp_beget_bridge.Auth.Context.{
  Payload, Signing, payload_ok, Authorization, new_payload, create_agent_context, claims_of,
  out_of_time, check_payload, verify_parts, verify_agent_context,
}
use dp_beget_bridge.Auth.Context.Signed.{verify-create, verify_sound}
use dp_beget_bridge.Agent.Owners.{owner_of, set_call, delete_call, owner_calls, owner_kept}
use dp_beget_bridge.Mcp.Downloads.{issue, get_download, get_issued}

abbrev payload : Payload
payload = record {
  sub = "owner";
  grt = "grant-0001";
  scp = "files:read" ∷ [];
  prf = "files-read";
  mth = "GET";
  pth = "/v1/files";
  iat = 100;
  exp = 115;
  jti = "0123456789abcdef";
}

-- one payload is all that is ever encoded here
abbrev signing : Signing
signing = record {
  encode = λ _. "payload";
  decode = λ _. some payload;
  mac = λ secret encoded. if secret == "a secret of thirty-two characters" then "signature" else "";
  upper = λ text. text;
}

abbrev agent_secret : String
agent_secret = "a secret of thirty-two characters"

abbrev authorization : Authorization
authorization = record {
  owner_id = "owner";
  grant_id = "grant-0001";
  scopes = "files:read" ∷ [];
  execution_profile = "files-read";
}

mcp_run : Unit {0}
unfolding create_agent_context verify_agent_context verify_parts check_payload payload_ok
    out_of_time new_payload scope_ok profile_ok sort find delete get_download issue
mcp_run = tt

verify-create_example :
    verify_agent_context signing agent_secret
      ("payload" ∷ "signature" ∷ [])
      ""
      "/v1/files"
      101000
      5000
    ≡ ok (claims_of payload)
unfolding mcp_run
verify-create_example =
    verify-create signing agent_secret authorization "" "/v1/files" 100000 15000 101000 5000
      "0123456789abcdef" ("payload" ∷ "signature" ∷ []) refl refl (omega arith) (omega arith)
      (omega arith)

verify_sound_example :
    (encoded : String) × (x : Payload) × ("payload" ∷ "signature" ∷ []
      ≡ encoded ∷ signing.mac agent_secret encoded ∷ [])
    × (some payload ≡ some x)
    × (claims_of payload ≡ claims_of x)
    × (x.mth ≡ "GET")
    × (x.pth ≡ "/v1/files")
    × (101000 / 1000 < x.exp)
    × (x.exp - x.iat ≤ 35)
unfolding mcp_run
verify_sound_example =
    verify_sound signing agent_secret ("payload" ∷ "signature" ∷ []) "" "/v1/files" 101000 5000
      (claims_of payload) refl

owner_kept_example :
    owner_of "s1" (
      owner_calls
        (set_call "s1" "other" 5 ∷ delete_call "s2" ∷ [])
        (record { session_id = "s1"; owner_id = "owner"; created_at = 1 } ∷ []))
    ≡ some "owner"
unfolding mcp_run
owner_kept_example =
    owner_kept (set_call "s1" "other" 5 ∷ delete_call "s2" ∷ []) "s1" "owner"
      (record { session_id = "s1"; owner_id = "owner"; created_at = 1 } ∷ []) refl refl

get_issued_example : (get_download "t1" 50 (issue 100 "/a" "grant" (some 40) 10 "t1" [])).0 ≡ none
unfolding mcp_run
get_issued_example = get_issued 100 "/a" "grant" (some 40) 10 50 "t1" []
