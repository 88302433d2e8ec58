-- ===== src/Tests/Setting.antt =====
-- A runtime for the runs below, and a database with an owner, a client, a grant and a family that
-- has been rotated once.
use dp_beget_bridge.Base.{if◌then◌else◌, String, Option, none, some, List, [], ◌∷◌, ◌==◌}
use dp_beget_bridge.Auth.Model.{
  Standing, GrantStatus, FamilyStatus, TokenStatus, Owner, Client, Grant, Family, Token, AuthDb,
}
use dp_beget_bridge.Auth.Platform.{Url, Platform}

abbrev https : String → Option Url
https href = some (record {
  protocol = "https:";
  username = "";
  password = "";
  search = "";
  hash = "";
  href = href;
})

abbrev parse : String → Option Url
parse value =
    if value == "https://chat.example/cb"
    then https "https://chat.example/cb"
    else if value == "https://mcp.example/mcp"
    then https "https://mcp.example/mcp"
    else none

abbrev pub first_token : String
first_token = "first-refresh-token-0123456789-0123456789-0123"

abbrev pub second_token : String
second_token = "second-refresh-token-0123456789-0123456789-012"

abbrev pub third_token : String
third_token = "third-refresh-token-0123456789-0123456789-0123"

-- Texts are told apart, and each digest is hexadecimal.
abbrev digest_of : String → String
digest_of text =
    if text == "DP-014 refresh token v1\0first-refresh-token-0123456789-0123456789-0123"
    then "a1"
    else if text == "DP-014 refresh token v1\0second-refresh-token-0123456789-0123456789-012"
    then "a2"
    else if text == "DP-014 refresh token v1\0third-refresh-token-0123456789-0123456789-0123"
    then "a3"
    else if text == "DP-013 owner bootstrap v1\0correct horse battery staple 2026"
    then "b1"
    else "ff"

abbrev pub demo : Platform
demo = record { parse_url = parse; sha256 = digest_of }

abbrev pub client_name : String
client_name = "dcr_client"

abbrev pub mcp : String
mcp = "https://mcp.example/mcp"

abbrev pub supported : List String
supported = "files:read" ∷ "terminal:read" ∷ []

abbrev pub owner_row : Owner
owner_row = record {
  id = "owner";
  created_at = 0;
  bootstrap_digest = "b1";
  bootstrap_expires_at = 100;
  bootstrap_consumed_at = some 10;
  status = Standing.active;
}

abbrev pub client_row : Client
client_row = record {
  client_id = client_name;
  owner_id = "owner";
  redirect_uri = "https://chat.example/cb";
  created_at = 20;
  status = Standing.active;
}

abbrev pub grant_row : Grant
grant_row = record {
  id = "grant-0001";
  owner_id = "owner";
  client_id = client_name;
  resource = mcp;
  scopes = "files:read" ∷ [];
  execution_profile = "files-read";
  granted_at = 30;
  expires_at = 1000;
  status = GrantStatus.active;
}

abbrev pub family_row : Family
family_row = record {
  id = "family-0001";
  grant_id = "grant-0001";
  owner_id = "owner";
  client_id = client_name;
  resource = mcp;
  created_at = 40;
  expires_at = 900;
  status = FamilyStatus.active;
  revoked_at = none;
  revoke_reason = none;
  current_generation = 1;
}

abbrev pub consumed_row : Token
consumed_row = record {
  digest = "a1";
  family_id = "family-0001";
  generation = 0;
  issued_at = 40;
  expires_at = 900;
  consumed_at = some 50;
  status = TokenStatus.consumed;
}

abbrev pub active_row : Token
active_row = record {
  digest = "a2";
  family_id = "family-0001";
  generation = 1;
  issued_at = 50;
  expires_at = 900;
  consumed_at = none;
  status = TokenStatus.active;
}

abbrev pub rotated_once : AuthDb
rotated_once = record {
  owners = owner_row ∷ [];
  clients = client_row ∷ [];
  grants = grant_row ∷ [];
  families = family_row ∷ [];
  tokens = consumed_row ∷ active_row ∷ [];
}
