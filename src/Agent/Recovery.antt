-- ===== src/Agent/Recovery.antt =====
-- state-store.js, `reconcileUncertainOperations`: what becomes of the operations that were pending
-- when the Session Host stopped.
pub mod Pending
pub mod Outcome
pub mod Reconciled
use dp_beget_bridge.Agent.Ledger.{update_operation, outcome}
use dp_beget_bridge.Base.{
  eqb, if◌then◌else◌, Result, ok, err, Action, pure, throw, gets, ◌>>=◌, ℕ, String, Option, none,
  some, List, [], ◌∷◌,
}
use dp_beget_bridge.Agent.Model.{
  operation_completion_invalid, Status, StateError, bridge_error, Operation, State, is_pending,
}
use dp_beget_bridge.Agent.Completion.{Completion, read_operation_completion}

-- WHERE status IN ('ACCEPTED', 'RUNNING')
unfoldable pub pending : List Operation → List Operation
pending [] = []
pending (o ∷ os) = let rest = pending os in if is_pending o.status then o ∷ rest else rest

-- The update that one pending operation gets; `now` is the clock.
unfoldable pub settle_operation :
    Result StateError (Option Completion) → String → ℕ → Action State StateError (Option Operation)
unfolding update_operation
settle_operation (err (bridge_error operation_completion_invalid status)) id now =
    update_operation id Status.unknown (outcome (some now) none "control_record_invalid")
settle_operation (err e) id now = throw e
settle_operation (ok (some completion)) id now =
    if eqb completion.exit_code 0
    then update_operation id Status.succeeded
        (outcome (some completion.completed_at) (some completion.exit_code) "exit_zero")
    else update_operation id Status.failed
        (outcome (some completion.completed_at) (some completion.exit_code) "exit_nonzero")
settle_operation (ok none) id now =
    update_operation id Status.unknown (outcome (some now) none "session_host_restart")

-- the loop; `clock` is what the clock shows when the operation of an id is reached
unfoldable pub reconcile_each : List Operation → (String → ℕ) → Action State StateError (Unit {0})
unfolding settle_operation read_operation_completion
reconcile_each [] clock = pure tt
reconcile_each (o ∷ os) clock = do
  completion ← gets (read_operation_completion o.session_id o.id)
  updated ← settle_operation completion o.id (clock o.id)
  reconcile_each os clock

unfoldable pub reconcile_uncertain_operations : (String → ℕ) → Action State StateError (Unit {0})
unfolding reconcile_each pending
reconcile_uncertain_operations clock = do
  active ← gets (λ s. pending s.operations)
  reconcile_each active clock
