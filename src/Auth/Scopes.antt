-- ===== src/Auth/Scopes.antt =====
-- auth-store.js, `createGrant`: `[...new Set(scopes)].sort()` and the test of each scope.
pub mod Laws
pub mod Order
use dp_beget_bridge.Base.{
  ltb, eqb, if◌then◌else◌, codes, ℕ, String, Bool, true, false, ◌&&◌, ◌||◌, List, [], ◌∷◌, ◌==◌,
}
use dp_beget_bridge.Auth.Platform.{scope_ok}

unfoldable pub contains : List String → String → Bool
contains [] s = false
contains (x ∷ xs) s = x == s || contains xs s

unfoldable pub dedupe_after : List String → List String → List String
dedupe_after seen [] = []
dedupe_after seen (x ∷ xs) =
    let fresh = x ∷ dedupe_after (x ∷ seen) xs in
    let known = dedupe_after seen xs in if contains seen x then known else fresh

-- `[...new Set(xs)]` keeps the first of equal items
unfoldable pub dedupe : List String → List String
unfolding dedupe_after contains
dedupe xs = dedupe_after [] xs

-- The order of `Array.prototype.sort` on texts of the basic plane, such as valid scopes.
unfoldable pub codes_le : List ℕ → List ℕ → Bool
codes_le [] ys = true
codes_le (x ∷ xs) [] = false
codes_le (x ∷ xs) (y ∷ ys) = ltb x y || (eqb x y && codes_le xs ys)

unfoldable pub insert_sorted : String → List String → List String
unfolding codes_le
insert_sorted s [] = s ∷ []
insert_sorted s (x ∷ xs) =
    let rest = x ∷ insert_sorted s xs in if codes_le (codes s) (codes x) then s ∷ x ∷ xs else rest

unfoldable pub sort : List String → List String
unfolding insert_sorted
sort [] = []
sort (x ∷ xs) = insert_sorted x (sort xs)

unfoldable pub normalize_scopes : List String → List String
unfolding sort dedupe
normalize_scopes scopes = sort (dedupe scopes)

-- `!normalized.some((scope) => !SCOPE.test(scope) || !supported.has(scope))`
unfoldable pub scopes_ok : List String → List String → Bool
unfolding contains scope_ok
scopes_ok supported [] = true
scopes_ok supported (s ∷ ss) = scope_ok s && contains supported s && scopes_ok supported ss
