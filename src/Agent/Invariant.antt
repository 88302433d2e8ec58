-- ===== src/Agent/Invariant.antt =====
-- What the schema of state.sqlite keeps true of the sessions and of the ledger.
pub mod Sessions
pub mod Admission
pub mod Updates
pub mod Holder
use dp_beget_bridge.Base.{
  Option-cases, is_some, count-update_on, find-update_on, All, All-map, find, count, find-append,
  unique_append, ◌≤◌, String, ◌≡◌, inl, inr, true, List, arith, eq_iff,
}
use dp_beget_bridge.Agent.Model.{Session, Operation, State, empty_state}
use dp_beget_bridge.Agent.Sessions.{session_is, upsert}
use dp_beget_bridge.Agent.Ledger.{operation_is, has_key, holds}

-- The session of an operation is stored.
abbrev pub IsOwned : List Session → Operation → Type 0
IsOwned sessions o = is_some (find (session_is o.session_id) sessions) ≡ true

pub record IsLedger (s : State) : Type 0 where
  pub sessions_unique : (id : String) → count (session_is id) s.sessions ≤ 1
  pub operations_unique : (id : String) → count (operation_is id) s.operations ≤ 1
  pub keys_unique : (id key : String) → count (has_key id key) s.operations ≤ 1
  pub one_writer : (id : String) → count (holds id) s.operations ≤ 1
  pub owned : All (IsOwned s.sessions) s.operations

pub IsLedger-empty : IsLedger empty_state
unfolding count
IsLedger-empty = record {
  sessions_unique = λ id. omega arith;
  operations_unique = λ id. omega arith;
  keys_unique = λ id key. omega arith;
  one_writer = λ id. omega arith;
  owned = tt;
}

-- Sessions are only replaced or added.
upsert_unique :
    (row : Session) (rows : List Session)
    → ((id : String) → count (session_is id) rows ≤ 1)
    → (id : String) → count (session_is id) (upsert row rows) ≤ 1
unfolding upsert
upsert_unique row rows unique id = elim (Option-cases (find (session_is row.id) rows)) [
  | inr (old, found) ↦ rw found (
      rw
        (count-update_on (session_is id) (session_is row.id) (λ _. row) rows
          (λ x e. ground (arith, eq_iff x.id row.id)))
        (unique id))
  | inl fresh ↦ rw fresh (unique_append (λ r. r.id) rows row unique fresh id)
]

upsert-keeps :
    (row : Session) (rows : List Session) (id : String)
    → is_some (find (session_is id) rows) ≡ true
    → is_some (find (session_is id) (upsert row rows)) ≡ true
unfolding upsert
upsert-keeps row rows id e = elim (Option-cases (find (session_is row.id) rows)) [
  | inr (old, found) ↦ rw found (
      rw
        (find-update_on (session_is id) (session_is row.id) (λ _. row) rows
          (λ x t. ground (arith, eq_iff x.id row.id)))
        e)
  | inl fresh ↦ rw fresh (rw (find-append (session_is id) rows row) (ground arith))
]

pub saved-IsLedger :
    (row : Session) (s : State)
    → IsLedger s
    → IsLedger (record s { sessions = upsert row s.sessions })
saved-IsLedger row s h = record {
  sessions_unique = upsert_unique row s.sessions h.sessions_unique;
  operations_unique = h.operations_unique;
  keys_unique = h.keys_unique;
  one_writer = h.one_writer;
  owned =
      All-map (IsOwned s.sessions) (IsOwned (upsert row s.sessions)) s.operations
        (λ o e. upsert-keeps row s.sessions o.session_id e) h.owned;
}
