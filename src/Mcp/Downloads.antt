-- ===== src/Mcp/Downloads.antt =====
-- apps/mcp/src/download-tokens.js: the tokens under which a file can be downloaded for a while. A time
-- is a number of milliseconds; `token` is the random text that `issue` draws.
use dp_beget_bridge.Base.{
  leb, if◌then◌else◌, Bool-cases, count-delete-le, count-delete_self, find, delete, find-eq-none, ℕ,
  ◌+◌, min, String, ◌≡◌, refl, inl, inr, Bool, Option, none, some, List, ◌∷◌, arith, ◌==◌, eq_refl,
}

pub record Download : Type 0 where
  pub token : String
  pub file_path : String
  pub expires_at : ℕ
  pub authorization : String

abbrev pub Downloads : Type 0
Downloads = List Download

abbrev pub download_is : String → Download → Bool
download_is token d = d.token == token

unfoldable pub cleanup_downloads : ℕ → Downloads → Downloads
cleanup_downloads now tokens = delete (λ d. leb d.expires_at now) tokens

-- `ceiling` is what `Date.parse(maximumExpiry || "")` gives, and `none` for NaN
unfoldable pub download_expiry : ℕ → Option ℕ → ℕ → ℕ
download_expiry ttl none now = now + ttl
download_expiry ttl (some ceiling) now = min (now + ttl) ceiling

-- the tokens after `issue`
unfoldable pub issue : ℕ → String → String → Option ℕ → ℕ → String → Downloads → Downloads
unfolding cleanup_downloads download_expiry
issue ttl file_path authorization ceiling now token tokens =
    record {
      token = token;
      file_path = file_path;
      expires_at = download_expiry ttl ceiling now;
      authorization = authorization;
    }
    ∷ delete (download_is token) (cleanup_downloads now tokens)

abbrev pub fresh_at : ℕ → Option Download → Option Download
fresh_at now none = none
fresh_at now (some d) = if leb d.expires_at now then none else some d

-- what `get` returns, and the tokens after it
unfoldable pub get_download : String → ℕ → Downloads → Option Download × Downloads
unfolding cleanup_downloads
get_download token now tokens =
    let kept = cleanup_downloads now tokens in (fresh_at now (find (download_is token) kept), kept)

gone :
    (later : ℕ) (token : String) (tokens : Downloads)
    → find
        (download_is token)
        (delete (λ d. leb d.expires_at later) (delete (download_is token) tokens))
      ≡ none
gone later token tokens = find-eq-none (download_is token) _ (
    omega (
      arith,
      count-delete_self (download_is token) tokens,
      count-delete-le (download_is token) (λ d. leb d.expires_at later)
          (delete (download_is token) tokens),
    ))

-- A token that is issued gives its file until the earlier of the configured lifetime and the given
-- ceiling, and nothing from that time on, whatever tokens there were before.
pub get_issued :
    (ttl : ℕ) (file_path authorization : String) (ceiling : Option ℕ) (now later : ℕ)
    (token : String) (tokens : Downloads)
    → (get_download token later (issue ttl file_path authorization ceiling now token tokens)).0 ≡ (
        if leb (download_expiry ttl ceiling now) later
        then none
        else some (record {
          token = token;
          file_path = file_path;
          expires_at = download_expiry ttl ceiling now;
          authorization = authorization;
        }))
unfolding get_download issue cleanup_downloads delete find
get_issued ttl file_path authorization ceiling now later token tokens =
    elim (Bool-cases (leb (download_expiry ttl ceiling now) later)) [
      | inr fresh ↦ rw (fresh, eq_refl token) (rw fresh refl)
      | inl old ↦ rw old (rw (gone later token (cleanup_downloads now tokens)) refl)
    ]
