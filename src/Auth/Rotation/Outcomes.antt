-- ===== src/Auth/Rotation/Outcomes.antt =====
-- The outcomes that the transaction of `rotateRefreshToken` decides between.
use dp_beget_bridge.Base.{Result, ok, ◌>>=◌, ℕ, String, ◌≡◌, true, false, Option, some}
use dp_beget_bridge.Auth.Model.{
  invalid_refresh_token, refresh_inactive, refresh_reuse_detected, AuthError, auth_error,
  FamilyStatus, AuthDb,
}
use dp_beget_bridge.Auth.Families.{retire_family, expire_family}
use dp_beget_bridge.Auth.Rotation.{Joined, binding_matches, is_live, is_current, advance, decide}

module _ (row : Joined) (client_id resource digest next_digest : String) (now : ℕ)
    (db : AuthDb) where
  abbrev decided : Result AuthError (Option AuthError) × AuthDb
  decided = decide row client_id resource digest next_digest now db

  pub decide_unbound :
      binding_matches row client_id resource ≡ false
      → decided ≡ (ok (some (auth_error invalid_refresh_token 400)), db)
  unfolding decide ◌>>=◌
  decide_unbound e = rw e

  pub decide_dead :
      binding_matches row client_id resource ≡ true
      → is_live row now ≡ false
      → decided
        ≡ (ok (some (auth_error refresh_inactive 400)), expire_family (some row.family) now db)
  unfolding decide ◌>>=◌
  decide_dead e dead = rw (e, dead)

  pub decide_reused :
      binding_matches row client_id resource ≡ true
      → is_live row now ≡ true
      → is_current row ≡ false
      → decided ≡ (
        ok (some (auth_error refresh_reuse_detected 400)),
        retire_family FamilyStatus.compromised now "refresh_reuse" row.family.id db,
      )
  unfolding decide ◌>>=◌
  decide_reused e live reused = rw (e, live, reused)

  pub decide_current :
      binding_matches row client_id resource ≡ true
      → is_live row now ≡ true
      → is_current row ≡ true
      → decided ≡ advance row digest next_digest now db
  unfolding decide
  decide_current e live current = rw (e, live, current)
