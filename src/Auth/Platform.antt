-- ===== src/Auth/Platform.antt =====
-- What auth-store.js takes from the runtime: the URL parser and SHA-256 are parameters, and the
-- checks that the methods make on their arguments with them.
use dp_beget_bridge.Base.{
  leb, eqb, if◌then◌else◌, codes, length, all, is_lower, is_digit, is_id_char, matches_class,
  Result, ok, err, ℕ, ◌+◌, ◌-◌, ◌*◌, String, ◌≡◌, Bool, true, false, ◌&&◌, ◌||◌, Option, none, some,
  List, [], ◌∷◌, arith, ◌==◌,
}
use dp_beget_bridge.Auth.Model.{
  invalid_auth_record, invalid_refresh_token, invalid_client, AuthError, auth_error,
}

-- The fields of a `URL` object that the code reads.
pub record Url : Type 0 where
  pub protocol : String
  pub username : String
  pub password : String
  pub search : String
  pub hash : String
  pub href : String

pub record Platform : Type 0 where
  -- `new URL(value)`; `none` where it throws
  pub parse_url : String → Option Url
  -- `crypto.createHash("sha256").update(text).digest("hex")`
  pub sha256 : String → String

-- A timestamp argument, as what `Date.parse` makes of it: `none` for NaN.
abbrev pub Stamp : Type 0
Stamp = Option ℕ

abbrev pub iso_time : Stamp → Result AuthError ℕ
iso_time none = err (auth_error invalid_auth_record 400)
iso_time (some milliseconds) = ok milliseconds

-- [a-zA-Z0-9._~-]
is_client_char : ℕ → Bool
is_client_char c = is_id_char c || eqb c b'.' || eqb c b'~'

abbrev pub owner_id_ok : String → Bool
owner_id_ok = matches_class is_id_char 1 96

-- GRANT_ID and TOKEN_FAMILY_ID
abbrev pub grant_id_ok : String → Bool
grant_id_ok = matches_class is_id_char 8 128

abbrev pub refresh_token_ok : String → Bool
refresh_token_ok = matches_class is_id_char 43 128

unfoldable pub opaque_client_ok : String → Bool
unfolding is_client_char
opaque_client_ok = matches_class is_client_char 8 256

-- [a-z0-9._-]
is_scope_char : ℕ → Bool
is_scope_char c = is_lower c || is_digit c || eqb c b'.' || eqb c b'_' || eqb c b'-'

scope_right : List ℕ → Bool
scope_right [] = false
scope_right (c ∷ cs) = is_lower c && all is_scope_char cs

scope_left : List ℕ → Bool
scope_left [] = false
scope_left (c ∷ cs) = if eqb c b':' then scope_right cs else is_scope_char c && scope_left cs

scope_codes : List ℕ → Bool
scope_codes [] = false
scope_codes (c ∷ cs) = is_lower c && scope_left cs

-- ^[a-z][a-z0-9._-]*:[a-z][a-z0-9._-]*$
unfoldable pub scope_ok : String → Bool
unfolding scope_codes scope_left scope_right is_scope_char
scope_ok s = scope_codes (codes s)

profile_codes : List ℕ → Bool
profile_codes [] = false
profile_codes (c ∷ cs) =
    is_lower c
    && leb 1 (length cs)
    && leb (length cs) 63
    && all (λ d. is_lower d || is_digit d || eqb d b'-') cs

-- ^[a-z][a-z0-9-]{1,63}$
unfoldable pub profile_ok : String → Bool
unfolding profile_codes
profile_ok s = profile_codes (codes s)

-- The value of one hexadecimal digit.
hex_digit : ℕ → Option ℕ
hex_digit c =
    if is_digit c
    then some (c - b'0')
    else if leb b'a' c && leb c b'f'
    then some (c - b'a' + 10)
    else if leb b'A' c && leb c b'F'
    then some (c - b'A' + 10)
    else none

hex_pair : Option ℕ → Option ℕ → List ℕ → List ℕ
hex_pair (some high) (some low) rest = (high * 16 + low) ∷ rest
hex_pair _ _ rest = []

-- `Buffer.from(text, "hex")`, which stops at the first pair that is not two hexadecimal digits
unfoldable pub decode_hex : List ℕ → List ℕ
unfolding hex_digit hex_pair
decode_hex [] = []
decode_hex (c ∷ []) = []
decode_hex (c ∷ d ∷ cs) = hex_pair (hex_digit c) (hex_digit d) (decode_hex cs)

-- `crypto.timingSafeEqual` behind the comparison of the lengths
unfoldable pub same_bytes : List ℕ → List ℕ → Bool
same_bytes [] [] = true
same_bytes (a ∷ left) (b ∷ right) = eqb a b && same_bytes left right
same_bytes _ _ = false

unfoldable pub equal_digest : String → String → Bool
unfolding decode_hex same_bytes
equal_digest actual expected = same_bytes (decode_hex (codes actual)) (decode_hex (codes expected))

module _ (p : Platform) where
  unfoldable pub hash_secret : String → String
  hash_secret secret = p.sha256 (Prim.Native.String.◌++◌ "DP-013 owner bootstrap v1\0" secret)

  unfoldable pub hash_refresh_token : String → Result AuthError String
  hash_refresh_token token =
      if refresh_token_ok token
      then ok (p.sha256 (Prim.Native.String.◌++◌ "DP-014 refresh token v1\0" token))
      else err (auth_error invalid_refresh_token 400)

  is_exact : Url → Bool
  is_exact url =
      url.protocol == "https:"
      && url.username == ""
      && url.password == ""
      && url.search == ""
      && url.hash == ""

  exact_url : Option Url → Result AuthError String
  exact_url none = err (auth_error invalid_auth_record 400)
  exact_url (some url) =
      if is_exact url then ok url.href else err (auth_error invalid_auth_record 400)

  unfoldable pub exact_https_url : String → Result AuthError String
  unfolding exact_url is_exact
  exact_https_url value = exact_url (p.parse_url value)

  as_invalid_client : Result AuthError String → Result AuthError String
  as_invalid_client (ok href) = ok href
  as_invalid_client (err e) = err (auth_error invalid_client 400)

  unfoldable pub client_identifier : String → Result AuthError String
  unfolding as_invalid_client
  client_identifier value =
      if opaque_client_ok value then ok value else as_invalid_client (exact_https_url value)

pub iso_time_lem : (stamp : Stamp) {now : ℕ} → iso_time stamp ≡ ok now → stamp ≡ some now
iso_time_lem none e = ground arith
iso_time_lem (some t) e = ground arith
