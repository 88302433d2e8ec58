-- ===== src/Auth/Owners/Bootstrap.antt =====
-- The bootstrap secret of an owner is accepted once.
use dp_beget_bridge.Base.{
  ltb, returned-lift, returned-gets, returned-require_some, returned-require, returned-modify,
  returned-gets_last, length, ok, err, ◌>>=◌, find, update, find_sound, ℕ, ◌≤◌, ◌<◌, String, ◌≡◌,
  refl, ap, true, ◌&&◌, Option, none, some, List, [], ◌∷◌, arith, eq_refl,
}
use dp_beget_bridge.Auth.Model.{bootstrap_unavailable, auth_error, Standing, Owner, AuthDb}
use dp_beget_bridge.Auth.Platform.{
  Platform, Stamp, iso_time, equal_digest, hash_secret, iso_time_lem,
}
use dp_beget_bridge.Auth.Owners.{
  owner_is, get_owner, unconsumed, with_consumed, consume_owner_bootstrap,
}
use dp_beget_bridge.Auth.Consistent.{IsConsistent}

-- With one row, the update leaves no row with an unconsumed bootstrap.
none-unconsumed :
    (owners : List Owner) (now : ℕ) (row : Owner)
    → length owners ≤ 1
    → find unconsumed owners ≡ some row
    → find unconsumed (update (λ o. owner_is row.id o && unconsumed o) (with_consumed now) owners)
      ≡ none
unfolding find update
none-unconsumed [] now row one e = ground arith
none-unconsumed (o ∷ []) now row one e = ground (arith, eq_refl row.id)
none-unconsumed (o ∷ o' ∷ os) now row one e = absurd (omega arith)

-- What a consumption that returns has found, and what it leaves.
consume_lem :
    (p : Platform) (secret : String) (now : Stamp) (db : AuthDb) {o : Option Owner} {db' : AuthDb}
    → consume_owner_bootstrap p secret now db ≡ (ok o, db')
    → (current : ℕ) × (row : Owner) × (now ≡ some current)
      × (find unconsumed db.owners ≡ some row)
      × (ltb current row.bootstrap_expires_at ≡ true)
      × (equal_digest (hash_secret p secret) row.bootstrap_digest ≡ true)
      × (db'.owners
          ≡ update (λ x. owner_is row.id x && unconsumed x) (with_consumed current) db.owners)
unfolding consume_owner_bootstrap
consume_lem p secret now db e =
    let (current, is_now, e1) = returned-lift _ db (iso_time now) e in
    let e2 = returned-gets _ db (λ s. find unconsumed s.owners) e1 in
    let (row, found, e3) = returned-require_some _ db (find unconsumed db.owners) _ e2 in
    let (timely, e4) = returned-require _ db (ltb current row.bootstrap_expires_at) _ e3 in
    let (proved, e5) =
      returned-require _ db (equal_digest (hash_secret p secret) row.bootstrap_digest) _ e4 in
    let e6 = returned-gets _ db _ e5 in
    let e7 = returned-modify _ db _ e6 in
    let (_, e8) = returned-require _ _ _ _ e7 in
    let (_, is_db') = returned-gets_last (get_owner row.id) _ e8 in
    (current, row, iso_time_lem now is_now, found, timely, proved, ap (λ s. s.owners) is_db')

-- After a consumption of the owner's bootstrap that returned, from a consistent database, the next
-- consumption throws bootstrap_unavailable and changes nothing, whatever its secret and its time.
pub bootstrap_once :
    (p : Platform) (secret : String) (now : Stamp) (db : AuthDb) (o : Option Owner) (db' : AuthDb)
    → IsConsistent db
    → consume_owner_bootstrap p secret now db ≡ (ok o, db')
    → (secret' : String) (later : ℕ)
    → consume_owner_bootstrap p secret' (some later) db'
      ≡ (err (auth_error bootstrap_unavailable 409), db')
unfolding consume_owner_bootstrap ◌>>=◌
bootstrap_once p secret now db o db' h e secret' later =
    let (current, row, _, found, _, _, owners') = consume_lem p secret now db e in
    rw owners' (rw (none-unconsumed db.owners current row h.one_owner found) refl)

-- A consumption that returns had a secret whose digest is the stored one, in time, and an owner
-- that was active and had not consumed its bootstrap.
pub bootstrap_proof :
    (p : Platform) (secret : String) (now : Stamp) (db : AuthDb) (o : Option Owner) (db' : AuthDb)
    → consume_owner_bootstrap p secret now db ≡ (ok o, db')
    → (current : ℕ) × (row : Owner) × (now ≡ some current)
      × (find unconsumed db.owners ≡ some row)
      × (row.status ≡ Standing.active)
      × (row.bootstrap_consumed_at ≡ none)
      × (current < row.bootstrap_expires_at)
      × (equal_digest (hash_secret p secret) row.bootstrap_digest ≡ true)
bootstrap_proof p secret now db o db' e =
    let (current, row, is_now, found, timely, proved, _) = consume_lem p secret now db e in
    let good = find_sound unconsumed db.owners row found in
    (current, row, is_now, found, ground arith, ground arith, ground arith, proved)
