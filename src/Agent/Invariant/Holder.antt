-- ===== src/Agent/Invariant/Holder.antt =====
-- The one operation that holds a session.
use dp_beget_bridge.Base.{
  Bool-cases, count_split, ok, ◌>>=◌, find, update, find-eq-none, count-pos_of, String, ◌≡◌, refl,
  inl, inr, true, ◌&&◌, none, some, arith, eq_refl,
}
use dp_beget_bridge.Agent.Model.{Status, Operation, State, holds_session}
use dp_beget_bridge.Agent.Ledger.{
  operation_is, get_operation, holds, Fields, set_status, other_holder, index_ok, update_operation,
}
use dp_beget_bridge.Agent.Invariant.{IsLedger}

pub no_other_holder :
    (row : Operation) (s : State)
    → IsLedger s
    → get_operation row.id s ≡ some row
    → holds_session row.status ≡ true
    → find (other_holder row) s.operations ≡ none
no_other_holder row s h found held = find-eq-none (other_holder row) s.operations (
    omega (
      arith,
      count_split (holds row.session_id) (operation_is row.id) s.operations,
      count-pos_of (λ o. operation_is row.id o && holds row.session_id o) (operation_is row.id)
          s.operations row found passes,
      h.one_writer row.session_id,
    ))
  where
    passes : (operation_is row.id row && holds row.session_id row) ≡ true
    passes = rw (eq_refl row.id, eq_refl row.session_id) held

-- the state after an update of an operation
abbrev pub updated_state : String → Status → Fields → State → State
updated_state id status fields s = record s {
  operations = update (operation_is id) (set_status status fields) s.operations;
}

-- an update of the operation that holds its session does not fail
pub update_holder :
    (row : Operation) (status : Status) (fields : Fields) (s : State)
    → IsLedger s
    → get_operation row.id s ≡ some row
    → holds_session row.status ≡ true
    → update_operation row.id status fields s ≡ (
      ok (get_operation row.id (updated_state row.id status fields s)),
      updated_state row.id status fields s,
    )
unfolding update_operation index_ok ◌>>=◌
update_holder row status fields s h found held = rw found (
    rw (no_other_holder row s h found held)
      (elim (Bool-cases (holds_session status)) [ inl on ↦ rw on refl | inr off ↦ rw off refl ]))
