-- ===== src/Agent/Recovery/Outcome.antt =====
-- What `reconcileUncertainOperations` makes of the ledger.
use mathlib.Core.Option
use dp_beget_bridge.Base.{
  eqb, if◌then◌else◌, Bool-cases, Option-cases, All, Result, ok, err, find, amend, update, count,
  find-update, ℕ, String, ◌≡◌, refl, ◌∙◌, ◌⊎◌, inl, inr, true, false, Option, none, some, List, [],
  ◌∷◌, arith,
}
use dp_beget_bridge.Agent.Model.{
  operation_completion_invalid, Status, StateError, bridge_error, ExitFile, Operation, State,
  holds_session, is_pending,
}
use dp_beget_bridge.Agent.Completion.{
  parse_exit, Completion, exit_file_is, completion_of, read_exit, read_operation_completion,
}
use dp_beget_bridge.Agent.Ledger.{operation_is, get_operation, set_status, outcome}
use dp_beget_bridge.Agent.Recovery.{settle_operation}
use dp_beget_bridge.Agent.Recovery.Pending.{Live}
use dp_beget_bridge.Agent.Invariant.{IsLedger}
use dp_beget_bridge.Agent.Invariant.Holder.{update_holder}

-- what an operation becomes, by its exit record
unfoldable pub judged : Result StateError (Option Completion) → ℕ → Operation → Operation
judged (ok (some completion)) now =
    if eqb completion.exit_code 0
    then set_status Status.succeeded
        (outcome (some completion.completed_at) (some completion.exit_code) "exit_zero")
    else set_status Status.failed
        (outcome (some completion.completed_at) (some completion.exit_code) "exit_nonzero")
judged (ok none) now = set_status Status.unknown (outcome (some now) none "session_host_restart")
judged (err e) now = set_status Status.unknown (outcome (some now) none "control_record_invalid")

unfoldable pub judge : State → (String → ℕ) → Operation → Operation → Operation
unfolding judged
judge s clock o = judged (read_operation_completion o.session_id o.id s) (clock o.id)

-- The operation after a restart: one that was ACCEPTED or RUNNING is SUCCEEDED or FAILED by its exit
-- record, or UNKNOWN if there is none or it is malformed; the others are as they were.
abbrev pub recovered : State → (String → ℕ) → Operation → Operation
recovered s clock o = if is_pending o.status then judge s clock o o else o

unfoldable pub settled_state : State → (String → ℕ) → Operation → State
unfolding judge
settled_state s clock o = record s {
  operations = update (operation_is o.id) (judge s clock o) s.operations;
}

-- Every exit record that is there can be read.
abbrev pub RecordsReadable : State → Type 0
RecordsReadable s =
    (session_id id : String) (file : ExitFile)
    → find (exit_file_is session_id id) s.exits ≡ some file
    → file.unreadable ≡ false

read_exit_total :
    (session_id id : String) (s : State)
    → RecordsReadable s
    → (read_operation_completion session_id id s
        ≡ err (bridge_error operation_completion_invalid 503))
      ⊎ (c : Option Completion) × (read_operation_completion session_id id s ≡ ok c)
unfolding read_operation_completion read_exit completion_of
read_exit_total session_id id s readable =
    elim (Option-cases (find (exit_file_is session_id id) s.exits)) [
      | inl absent ↦ rw absent (inr (none, refl))
      | inr (file, found) ↦
          rw (found, readable session_id id file found)
            (elim (Option-cases (parse_exit file.raw)) [
              | inl bad ↦ rw bad (inl refl)
              | inr (code, good) ↦ rw good (inr (_, refl))
            ])
    ]

-- one round of the loop
pub settle-Live :
    (s : State) (clock : String → ℕ) (o : Operation)
    → IsLedger s
    → RecordsReadable s
    → Live s.operations o
    → (r : Option Operation) × (settle_operation
          (read_operation_completion o.session_id o.id s)
          o.id
          (clock o.id)
          s
        ≡ (ok r, settled_state s clock o))
unfolding settle_operation settled_state
settle-Live s clock o h readable (found, on) = elim (read_exit_total o.session_id o.id s readable) [
  | inl bad ↦ rw bad (
    _,
    update_holder o _ (outcome (some (clock o.id)) none "control_record_invalid") s h found held,
  )
  | inr (none, missing) ↦ rw missing (
    _,
    update_holder o _ (outcome (some (clock o.id)) none "session_host_restart") s h found held,
  )
  | inr (some completion, there) ↦ rw there (elim (Bool-cases (eqb completion.exit_code 0)) [
    | inl zero_exit ↦ rw zero_exit (
      _,
      update_holder o _
          (outcome (some completion.completed_at) (some completion.exit_code) "exit_zero") s h found
          held,
    )
    | inr other ↦ rw other (
      _,
      update_holder o _
          (outcome (some completion.completed_at) (some completion.exit_code) "exit_nonzero") s h
          found held,
    )
  ])
]
  where
    held : holds_session o.status ≡ true
    held = ground arith

judged_id :
    (r : Result StateError (Option Completion)) (now : ℕ) (o : Operation)
    → (judged r now o).id ≡ o.id
unfolding judged
judged_id (ok (some completion)) now o = elim (Bool-cases (eqb completion.exit_code 0)) [
  | inl zero_exit ↦ rw zero_exit refl
  | inr other ↦ rw other refl
]
judged_id (ok none) now o = refl
judged_id (err e) now o = refl

pub judged_done :
    (r : Result StateError (Option Completion)) (now : ℕ) (o : Operation)
    → is_pending (judged r now o).status ≡ false
unfolding judged
judged_done (ok (some completion)) now o = elim (Bool-cases (eqb completion.exit_code 0)) [
  | inl zero_exit ↦ rw zero_exit refl
  | inr other ↦ rw other refl
]
judged_done (ok none) now o = refl
judged_done (err e) now o = refl

-- the operation of an id after a round
pub settled_get :
    (s : State) (clock : String → ℕ) (o : Operation) (id : String)
    → get_operation id (settled_state s clock o)
      ≡ Option.map (amend (operation_is o.id) (judge s clock o)) (get_operation id s)
unfolding settled_state judge
settled_get s clock o id =
    find-update (operation_is id) (operation_is o.id)
      (judged (read_operation_completion o.session_id o.id s) (clock o.id)) s.operations
      (λ x. rw (judged_id (read_operation_completion o.session_id o.id s) (clock o.id) x) refl)

-- the rounds that are left still find their operations
pub Live-after :
    (s : State) (clock : String → ℕ) (o : Operation) (os : List Operation)
    → count (operation_is o.id) os ≡ 0
    → All (Live s.operations) os
    → All (Live (settled_state s clock o).operations) os
unfolding count
Live-after s clock o [] apart live = tt
Live-after s clock o (x ∷ xs) apart ((found, on), live) = (
  (settled_get s clock o x.id ∙ rw found (rw other refl), on),
  Live-after s clock o xs (ground arith) live,
)
  where
    other : operation_is o.id x ≡ false
    other = ground arith
