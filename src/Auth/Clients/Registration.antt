-- ===== src/Auth/Clients/Registration.antt =====
-- Registering a client again, and the refusals of `registerClient`.
use dp_beget_bridge.Base.{
  if◌then◌else◌, Bool-cases, ok, err, ◌>>=◌, ℕ, String, ◌≡◌, refl, ◌∙◌, inl, inr, true, false, some,
  arith, ◌==◌, eq_iff,
}
use dp_beget_bridge.Auth.Model.{
  owner_not_bootstrapped, client_conflict, auth_error, Standing, Client, AuthDb,
}
use dp_beget_bridge.Auth.Platform.{Platform, Stamp, iso_time, exact_https_url, client_identifier}
use dp_beget_bridge.Auth.Owners.{get_owner}
use dp_beget_bridge.Auth.Clients.{
  get_client, insert_client, is_bootstrapped, on_existing, after_insert, attempt, register_client,
}

-- The arguments of a registration, as its checks read them.
pub record Registers (p : Platform) (client owner redirect : String) (created : Stamp)
    (client_id callback : String) (at : ℕ) : Type 0 where
  pub client_read : client_identifier p client ≡ ok client_id
  pub created_read : iso_time created ≡ ok at
  pub redirect_read : exact_https_url p redirect ≡ ok callback

registered_before :
    (p : Platform) (client owner redirect : String) (created : Stamp) (client_id callback : String)
    (at : ℕ) (db : AuthDb) (row : Client)
    → Registers p client owner redirect created client_id callback at
    → is_bootstrapped (get_owner owner db) ≡ true
    → get_client client_id db ≡ some row
    → register_client p client owner redirect created db
      ≡ on_existing (some row) client_id owner callback at db
unfolding register_client attempt insert_client after_insert ◌>>=◌
registered_before p client owner redirect created client_id callback at db row r on found =
    rw r.client_read (rw on (rw r.created_read (rw r.redirect_read (rw found (rw found refl)))))

-- Without an active owner whose bootstrap is consumed, a valid client identifier is refused with
-- owner_not_bootstrapped and nothing changes.
pub register_needs_bootstrap :
    (p : Platform) (client owner redirect : String) (created : Stamp) (client_id : String)
    (db : AuthDb)
    → client_identifier p client ≡ ok client_id
    → is_bootstrapped (get_owner owner db) ≡ false
    → register_client p client owner redirect created db
      ≡ (err (auth_error owner_not_bootstrapped 403), db)
unfolding register_client ◌>>=◌
register_needs_bootstrap p client owner redirect created client_id db read not_yet =
    rw read (rw not_yet refl)

-- A client that is registered and active is registered again for its owner, with arguments that can be
-- read: nothing changes. If the owner is active and has consumed its bootstrap, the same redirect URI
-- returns the stored row and another one throws client_conflict; if not, owner_not_bootstrapped is thrown.
pub register_again :
    (p : Platform) (client owner redirect : String) (created : Stamp) (client_id callback : String)
    (at : ℕ) (db : AuthDb) (row : Client)
    → Registers p client owner redirect created client_id callback at
    → get_client client_id db ≡ some row
    → row.status ≡ Standing.active
    → row.owner_id ≡ owner
    → register_client p client owner redirect created db ≡ (
      if is_bootstrapped (get_owner owner db)
          then (if row.redirect_uri == callback
              then ok (some row)
              else err (auth_error client_conflict 409))
          else err (auth_error owner_not_bootstrapped 403),
      db,
    )
unfolding on_existing ◌>>=◌
register_again p client owner redirect created client_id callback at db row r found active mine =
    elim (Bool-cases (is_bootstrapped (get_owner owner db))) [
      | inl on ↦ rw on (
          registered_before p client owner redirect created client_id callback at db row r on found
          ∙ ground (arith, eq_iff row.owner_id owner))
      | inr off ↦
          rw off (
            register_needs_bootstrap p client owner redirect created client_id db r.client_read off)
    ]
