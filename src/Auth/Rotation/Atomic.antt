-- ===== src/Auth/Rotation/Atomic.antt =====
-- A rotation that the storage refuses is rolled back.
use dp_beget_bridge.Base.{
  eqb, Bool-cases, err, ◌>>=◌, amend, count, find-update, ℕ, String, ◌≡◌, refl, ap, ◌∙◌, inl, inr,
  true, some,
}
use dp_beget_bridge.Auth.Model.{
  auth_storage_failure, AuthError, auth_error, unique_violation, lost_update, Token, AuthDb,
}
use dp_beget_bridge.Auth.Platform.{Platform}
use dp_beget_bridge.Auth.Families.{token_is, select_token, storage_failure, insert_token}
use dp_beget_bridge.Auth.Rotation.{
  Joined, select_joined, binding_matches, is_live, is_current, consumed_token, active_digest_is,
  advance, rotate_row, rotate_refresh_token,
}
use dp_beget_bridge.Auth.Rotation.Success.{Reads, rotate-Reads}
use dp_beget_bridge.Auth.Consistent.Joining.{consumed_db}
use dp_beget_bridge.Auth.Rotation.Outcomes.{decide_current}

-- If the digest of the next token is already stored, the rotation of a live current token throws
-- auth_storage_failure and leaves the database as it was: the presented token is not consumed.
pub rotate_rolls_back :
    (p : Platform) (token next client resource : String) (now : ℕ) (db : AuthDb)
    (digest next_digest client_id resource_url : String) (row : Joined) (taken : Token)
    → Reads p token next client resource digest next_digest client_id resource_url
    → select_joined digest db ≡ some row
    → binding_matches row client_id resource_url ≡ true
    → is_live row now ≡ true
    → is_current row ≡ true
    → select_token next_digest db ≡ some taken
    → rotate_refresh_token p token next client resource (some now) db
      ≡ (err (auth_error auth_storage_failure 503), db)
unfolding rotate_row ◌>>=◌
rotate_rolls_back p token next client resource now db digest next_digest client_id resource_url row
      taken reads found bound live current used =
    let (e, db', failed) = refused in
    rotate-Reads p token next client resource now db reads
    ∙ ap (λ r. rotate_row r client_id resource_url digest next_digest now db) found
    ∙ rw (decide_current row client_id resource_url digest next_digest now db bound live current)
        (rw failed (unfold storage_failure in refl))
  where
    stays :
        select_token next_digest (consumed_db row digest next_digest now db)
        ≡ some (amend (active_digest_is digest) (consumed_token now) taken)
    stays =
        find-update (token_is next_digest) (active_digest_is digest) (consumed_token now) db.tokens
          (λ t. refl)
        ∙ rw used refl

    refused :
        (e : AuthError) × (db' : AuthDb) × (advance row digest next_digest now db ≡ (err e, db'))
    refused = elim (Bool-cases (eqb (count (active_digest_is digest) db.tokens) 1)) [
      | inr lost ↦
          (lost_update, consumed_db row digest next_digest now db, unfold advance in rw lost refl)
      | inl one ↦ (
        unique_violation,
        consumed_db row digest next_digest now db,
        unfold advance insert_token in rw (one, stays) refl,
      )
    ]
