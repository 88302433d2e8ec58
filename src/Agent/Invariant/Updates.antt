-- ===== src/Agent/Invariant/Updates.antt =====
-- `updateOperation`, `interruptActiveOperation` and `reconcileUncertainOperations` keep the
-- invariant.
use dp_beget_bridge.Base.{
  eqb, Bool-cases, Option-cases, Ends, Ends-pure, Ends-throw, Ends-gets, after-bind, after-gets,
  after-require, after-modify, count_le_left, update_absent, count-update_one, All-update, Result,
  ok, err, find, update, count, find_sound, count-update, count-eq-zero, ℕ, ◌+◌, ◌≤◌, String, ◌≡◌,
  refl, sym, subst, inl, inr, true, not, ◌&&◌, Option, none, some, List, [], ◌∷◌, arith, eq_iff,
}
use dp_beget_bridge.Agent.Model.{
  operation_completion_invalid, Status, StateError, bridge_error, Operation, State,
}
use dp_beget_bridge.Agent.Completion.{Completion, read_operation_completion}
use dp_beget_bridge.Agent.Ledger.{
  operation_is, get_operation, has_key, holds, active_operation, Fields, set_status, other_holder,
  index_ok, update_operation, outcome, interrupt_row, interrupt_active_operation,
}
use dp_beget_bridge.Agent.Recovery.{
  pending, settle_operation, reconcile_each, reconcile_uncertain_operations,
}
use dp_beget_bridge.Agent.Invariant.{IsOwned, IsLedger}

-- the row that is updated holds its session and no other does
held_once :
    (row : Operation) (status : Status) (fields : Fields) (sid : String) (s : State)
    → IsLedger s
    → get_operation row.id s ≡ some row
    → index_ok (some row) status s ≡ true
    → count (holds sid) (update (operation_is row.id) (set_status status fields) s.operations) ≤ 1
unfolding index_ok
held_once row status fields sid s h found fits =
    rw
      (count-update_one (holds sid) (operation_is row.id) (set_status status fields) s.operations
        row (h.operations_unique row.id) found)
      (elim (Bool-cases (holds sid (set_status status fields row))) [
        | inr free ↦ rw free (
            omega (
              arith,
              count_le_left (holds sid) (λ y. not (operation_is row.id y)) s.operations,
              h.one_writer sid,
            ))
        | inl taken ↦
            let same : row.session_id ≡ sid = (eq_iff row.session_id sid).0 (ground arith) in
            let none_else : find (other_holder row) s.operations ≡ none = ground arith in
            rw taken (
              subst
                (λ k. count (λ y. holds k y && not (operation_is row.id y)) s.operations + 1 ≤ 1)
                same (omega (arith, count-eq-zero (other_holder row) s.operations none_else)))
      ])

updated-IsLedger :
    (id : String) (status : Status) (fields : Fields) (s : State)
    → IsLedger s
    → index_ok (get_operation id s) status s ≡ true
    → IsLedger
        (record s { operations = update (operation_is id) (set_status status fields) s.operations })
updated-IsLedger id status fields s h fits = record {
  sessions_unique = h.sessions_unique;
  operations_unique = λ k.
      rw
        (count-update (operation_is k) (operation_is id) (set_status status fields) s.operations
          (λ o. refl))
        (h.operations_unique k);
  keys_unique = λ k key.
      rw
        (count-update (has_key k key) (operation_is id) (set_status status fields) s.operations
          (λ o. refl))
        (h.keys_unique k key);
  one_writer = λ k. elim (Option-cases (get_operation id s)) [
    | inl absent ↦
        rw (update_absent (operation_is id) (set_status status fields) s.operations absent)
          (h.one_writer k)
    | inr (row, found) ↦
        let same : row.id ≡ id =
          (eq_iff row.id id).0 (find_sound (operation_is id) s.operations row found) in
        subst
          (λ i.
            count (holds k) (update (operation_is i) (set_status status fields) s.operations) ≤ 1)
          same
          (held_once row status fields k s h
            (subst (λ i. get_operation i s ≡ some row) (sym same) found)
            (subst (λ r. index_ok r status s ≡ true) found fits))
  ];
  owned =
      All-update (IsOwned s.sessions) (operation_is id) (set_status status fields) s.operations
        (λ o e. e) h.owned;
}

pub update_operation-IsLedger :
    (id : String) (status : Status) (fields : Fields) (s : State)
    → IsLedger s
    → Ends IsLedger (update_operation id status fields) s
unfolding update_operation
update_operation-IsLedger id status fields s h = after-gets _ s (get_operation id) (
    after-gets _ s (index_ok (get_operation id s) status) (
      after-require _ s (index_ok (get_operation id s) status s) _ h λ fits.
        after-modify _ s _
          (Ends-gets (get_operation id) _ (updated-IsLedger id status fields s h fits))))

interrupt_row-IsLedger :
    (active : Option Operation) (now : ℕ) (reason : String) (s : State)
    → IsLedger s
    → Ends IsLedger (interrupt_row active now reason) s
unfolding interrupt_row
interrupt_row-IsLedger none now reason s h = Ends-pure none s h
interrupt_row-IsLedger (some active) now reason s h =
    update_operation-IsLedger active.id Status.interrupted (outcome (some now) none reason) s h

pub interrupt_active_operation-IsLedger :
    (session_id : String) (now : ℕ) (reason : String) (s : State)
    → IsLedger s
    → Ends IsLedger (interrupt_active_operation session_id now reason) s
unfolding interrupt_active_operation
interrupt_active_operation-IsLedger session_id now reason s h =
    after-gets _ s (active_operation session_id)
      (interrupt_row-IsLedger (active_operation session_id s) now reason s h)

pub settle_operation-IsLedger :
    (read : Result StateError (Option Completion)) (id : String) (now : ℕ) (s : State)
    → IsLedger s
    → Ends IsLedger (settle_operation read id now) s
unfolding settle_operation
settle_operation-IsLedger (err (bridge_error operation_completion_invalid status)) id now s h =
    update_operation-IsLedger id Status.unknown (outcome (some now) none "control_record_invalid") s
      h
settle_operation-IsLedger (ok none) id now s h =
    update_operation-IsLedger id Status.unknown (outcome (some now) none "session_host_restart") s h
settle_operation-IsLedger (ok (some completion)) id now s h =
    elim (Bool-cases (eqb completion.exit_code 0)) [
      | inl zero_exit ↦ rw zero_exit (
          update_operation-IsLedger id Status.succeeded
            (outcome (some completion.completed_at) (some completion.exit_code) "exit_zero") s h)
      | inr other ↦ rw other (
          update_operation-IsLedger id Status.failed
            (outcome (some completion.completed_at) (some completion.exit_code) "exit_nonzero") s h)
    ]
settle_operation-IsLedger (err e) id now s h = Ends-throw e s h

reconcile_each-IsLedger :
    (os : List Operation) (clock : String → ℕ) (s : State)
    → IsLedger s
    → Ends IsLedger (reconcile_each os clock) s
unfolding reconcile_each
reconcile_each-IsLedger [] clock s h = Ends-pure tt s h
reconcile_each-IsLedger (o ∷ os) clock s h =
    after-gets _ s (read_operation_completion o.session_id o.id) (
      after-bind _ s _
        (settle_operation-IsLedger (read_operation_completion o.session_id o.id s) o.id (clock o.id)
          s h)
        λ _ t _ k. reconcile_each-IsLedger os clock t k)

pub reconcile-IsLedger :
    (clock : String → ℕ) (s : State)
    → IsLedger s
    → Ends IsLedger (reconcile_uncertain_operations clock) s
unfolding reconcile_uncertain_operations
reconcile-IsLedger clock s h =
    after-gets _ s (λ t. pending t.operations)
      (reconcile_each-IsLedger (pending s.operations) clock s h)
