-- ===== src/Agent/Owners.antt =====
-- apps/agent/src/session-owner-store.js: which owner a terminal session belongs to.
use mathlib.Core.Option
use dp_beget_bridge.Base.{
  if◌then◌else◌, Bool-cases, Option-cases, Ends, Ends-pure, Ends-throw, Ends-gets, Ends-modify,
  after-bind, after-require, after-modify, all, is_id_char, matches_class, find-delete_other,
  Action, pure, throw, gets, modify, require, ◌>>=◌, ◌>>◌, find, delete, find-append, ℕ, String,
  ◌≡◌, refl, ap, ◌∙◌, inl, inr, Bool, true, not, Option, none, some, List, [], ◌∷◌, ◌++◌, arith,
  ◌==◌, eq_iff,
}

-- The `Error`s that the store throws.
pub data OwnerError : Type 0 where
  invalid_id cannot_reassign : OwnerError

pub record SessionOwner : Type 0 where
  pub session_id : String
  pub owner_id : String
  pub created_at : ℕ

abbrev pub SessionOwners : Type 0
SessionOwners = List SessionOwner

-- ^[a-zA-Z0-9_-]{1,128}$
unfoldable pub valid_id : String → Bool
valid_id value = matches_class is_id_char 1 128 value

abbrev pub owner_row_is : String → SessionOwner → Bool
owner_row_is id row = row.session_id == id

abbrev pub owner_of : String → SessionOwners → Option String
owner_of id rows = Option.map (λ (r : SessionOwner). r.owner_id) (find (owner_row_is id) rows)

unfoldable pub get_owner_of : String → Action SessionOwners OwnerError (Option String)
unfolding valid_id
get_owner_of session_id = do require (valid_id session_id) invalid_id; gets (owner_of session_id)

-- An owner id in the table is never "", so that `current &&` tests whether there is a row.
unfoldable pub set_owner_row :
    Option String → String → String → ℕ → Action SessionOwners OwnerError String
set_owner_row (some current) session_id owner_id now =
    if current == owner_id then pure owner_id else throw cannot_reassign
set_owner_row none session_id owner_id now = do
  modify (λ rows.
      rows ++ record { session_id = session_id; owner_id = owner_id; created_at = now } ∷ [])
  pure owner_id

unfoldable pub set_owner : String → String → ℕ → Action SessionOwners OwnerError String
unfolding valid_id get_owner_of set_owner_row
set_owner session_id owner_id now = do
  require (valid_id session_id) invalid_id
  require (valid_id owner_id) invalid_id
  current ← get_owner_of session_id
  set_owner_row current session_id owner_id now

unfoldable pub delete_owner : String → Action SessionOwners OwnerError (Unit {0})
unfolding valid_id
delete_owner session_id = do
  require (valid_id session_id) invalid_id
  modify (delete (owner_row_is session_id))

pub data OwnerCall : Type 0 where
  set_call : String → String → ℕ → OwnerCall
  delete_call : String → OwnerCall

unfoldable pub owner_call : OwnerCall → SessionOwners → SessionOwners
owner_call (set_call id owner now) rows = (set_owner id owner now rows).1
owner_call (delete_call id) rows = (delete_owner id rows).1

unfoldable pub owner_calls : List OwnerCall → SessionOwners → SessionOwners
unfolding owner_call
owner_calls [] rows = rows
owner_calls (c ∷ cs) rows = owner_calls cs (owner_call c rows)

-- the call does not delete the session's row
abbrev pub spares : String → OwnerCall → Bool
spares id (set_call _ _ _) = true
spares id (delete_call other) = not (other == id)

abbrev Owned : String → String → SessionOwners → Type 0
Owned id owner rows = owner_of id rows ≡ some owner

appended-Owned :
    (id owner : String) (row : SessionOwner) (rows : SessionOwners)
    → Owned id owner rows
    → Owned id owner (rows ++ row ∷ [])
appended-Owned id owner row rows owned = elim (Option-cases (find (owner_row_is id) rows)) [
  | inl absent ↦ let bad = rw absent at owned in cc
  | inr (r, found) ↦
      ap (Option.map (λ (x : SessionOwner). x.owner_id)) {y = some r}
        (find-append (owner_row_is id) rows row ∙ rw found refl)
      ∙ (rw found at owned)
]

set_owner_row-Owned :
    (current : Option String) (id owner other o : String) (now : ℕ) (rows : SessionOwners)
    → Owned id owner rows
    → Ends (Owned id owner) (set_owner_row current other o now) rows
unfolding set_owner_row
set_owner_row-Owned none id owner other o now rows owned = after-modify _ rows _ (
    Ends-pure o _ (
      appended-Owned id owner (record { session_id = other; owner_id = o; created_at = now }) rows
        owned))
set_owner_row-Owned (some current) id owner other o now rows owned =
    elim (Bool-cases (current == o)) [
      | inl same ↦ rw same (Ends-pure o rows owned)
      | inr differ ↦ rw differ (Ends-throw cannot_reassign rows owned)
    ]

set_owner-Owned :
    (id owner other o : String) (now : ℕ) (rows : SessionOwners)
    → Owned id owner rows
    → Ends (Owned id owner) (set_owner other o now) rows
unfolding set_owner get_owner_of
set_owner-Owned id owner other o now rows owned = after-require _ rows _ _ owned λ _.
    after-require _ rows _ _ owned λ _.
      after-bind _ rows _ (after-require _ rows _ _ owned λ _. Ends-gets _ rows owned)
        λ current u _ k. set_owner_row-Owned current id owner other o now u k

delete_owner-Owned :
    (id owner other : String) (rows : SessionOwners)
    → Owned id owner rows
    → not (other == id) ≡ true
    → Ends (Owned id owner) (delete_owner other) rows
unfolding delete_owner
delete_owner-Owned id owner other rows owned apart = after-require _ rows _ _ owned λ _.
    Ends-modify _ rows (
      ap (Option.map (λ (x : SessionOwner). x.owner_id)) (
        find-delete_other (owner_row_is id) (owner_row_is other) rows (λ x e.
          ground (arith, eq_iff x.session_id id, eq_iff x.session_id other, eq_iff other id)))
      ∙ owned)

-- The ownership of a session cannot be reassigned: once a session has an owner, it has the same owner
-- after any calls that do not delete it.
pub owner_kept :
    (cs : List OwnerCall) (id owner : String) (rows : SessionOwners)
    → owner_of id rows ≡ some owner
    → all (spares id) cs ≡ true
    → owner_of id (owner_calls cs rows) ≡ some owner
unfolding owner_calls owner_call
owner_kept [] id owner rows owned spared = owned
owner_kept (set_call other o now ∷ cs) id owner rows owned spared =
    owner_kept cs id owner _ (set_owner-Owned id owner other o now rows owned).at (ground arith)
owner_kept (delete_call other ∷ cs) id owner rows owned spared =
    owner_kept cs id owner _ (delete_owner-Owned id owner other rows owned (ground arith)).at
      (ground arith)
