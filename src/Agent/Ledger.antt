-- ===== src/Agent/Ledger.antt =====
-- state-store.js: the ledger of managed operations.
use dp_beget_bridge.Base.{
  if◌then◌else◌, is_some, Action, pure, throw, gets, transaction, modify, require, ◌>>=◌, ◌>>◌,
  find, update, ℕ, String, Bool, true, false, not, ◌&&◌, Option, none, some, [], ◌∷◌, ◌++◌, ◌==◌,
}
use dp_beget_bridge.Agent.Model.{
  idempotency_conflict, operation_admission_failed, Status, StateError, bridge_error, session_busy,
  unique_violation, foreign_key_violation, Operation, State, holds_session, or_else,
}
use dp_beget_bridge.Agent.Sessions.{get_session}

abbrev pub operation_is : String → Operation → Bool
operation_is id row = row.id == id

-- `getOperation(id)`
abbrev pub get_operation : String → State → Option Operation
get_operation id s = find (operation_is id) s.operations

-- session_id = ? AND idempotency_key = ?
abbrev pub has_key : String → String → Operation → Bool
has_key session_id key row = row.session_id == session_id && row.idempotency_key == key

-- session_id = ? AND status IN ('ACCEPTED','RUNNING','UNKNOWN')
abbrev pub holds : String → Operation → Bool
holds session_id row = row.session_id == session_id && holds_session row.status

abbrev pub active_operation : String → State → Option Operation
active_operation session_id s = find (holds session_id) s.operations

pub record Request : Type 0 where
  pub id : String
  pub session_id : String
  pub idempotency_key : String
  pub request_fingerprint : String
  pub accepted_at : ℕ
  pub start_cursor : ℕ

pub record Admitted : Type 0 where
  pub operation : Option Operation
  pub duplicate : Bool

abbrev pub accepted_row : Request → Operation
accepted_row request = record {
  id = request.id;
  session_id = request.session_id;
  idempotency_key = request.idempotency_key;
  request_fingerprint = request.request_fingerprint;
  status = Status.accepted;
  accepted_at = request.accepted_at;
  started_at = none;
  completed_at = none;
  exit_code = none;
  outcome_reason = none;
  start_cursor = request.start_cursor;
}

-- INSERT INTO operations: PRIMARY KEY (id), UNIQUE (session_id, idempotency_key), the partial unique
-- index `operations_one_writer`, session_id REFERENCES sessions(id)
unfoldable pub insert_operation : Operation → Action State StateError (Unit {0})
insert_operation row = do
  same ← gets (get_operation row.id)
  keyed ← gets (λ s. find (has_key row.session_id row.idempotency_key) s.operations)
  active ← gets (active_operation row.session_id)
  session ← gets (get_session row.session_id)
  require
      (not (is_some same)
        && not (is_some keyed)
        && not (holds_session row.status && is_some active))
      unique_violation
  require (is_some session) foreign_key_violation
  modify (λ s. record s { operations = s.operations ++ row ∷ [] })

-- the `catch` of `admitOperation`: a BridgeError is thrown on, any other error is replaced
unfoldable pub admission_error : StateError → StateError
admission_error unique_violation = bridge_error operation_admission_failed 503
admission_error foreign_key_violation = bridge_error operation_admission_failed 503
admission_error e = e

-- no row has the key: the session must be free
unfoldable pub admit_new : Option Operation → Request → Action State StateError Admitted
unfolding insert_operation
admit_new (some active) request = throw (session_busy active.id active.status)
admit_new none request = do
  insert_operation (accepted_row request)
  operation ← gets (get_operation request.id)
  pure (record { operation = operation; duplicate = false })

unfoldable pub admit_row : Option Operation → Request → Action State StateError Admitted
unfolding admit_new
admit_row (some existing) request =
    if existing.request_fingerprint == request.request_fingerprint
    then pure (record { operation = some existing; duplicate = true })
    else throw (bridge_error idempotency_conflict 409)
admit_row none request = do
  active ← gets (active_operation request.session_id)
  admit_new active request

unfoldable pub admit_body : Request → Action State StateError Admitted
unfolding admit_row
admit_body request = do
  existing ← gets (λ s. find (has_key request.session_id request.idempotency_key) s.operations)
  admit_row existing request

unfoldable pub admit_operation : Request → Action State StateError Admitted
unfolding admit_body admission_error transaction
admit_operation request = transaction admission_error (admit_body request)

-- The `fields` of `updateOperation`.
pub record Fields : Type 0 where
  pub started_at : Option ℕ
  pub completed_at : Option ℕ
  pub exit_code : Option ℕ
  pub outcome_reason : Option String

-- SET status = ?, started_at = COALESCE(?, started_at), …
abbrev pub set_status : Status → Fields → Operation → Operation
set_status status fields row = record row {
  status = status;
  started_at = or_else fields.started_at row.started_at;
  completed_at = or_else fields.completed_at row.completed_at;
  exit_code = fields.exit_code;
  outcome_reason = fields.outcome_reason;
}

-- another row holds the session of the row
abbrev pub other_holder : Operation → Operation → Bool
other_holder row other = holds row.session_id other && not (operation_is row.id other)

-- the index `operations_one_writer` after the update of a row
unfoldable pub index_ok : Option Operation → Status → State → Bool
index_ok none status s = true
index_ok (some row) status s =
    not (holds_session status && is_some (find (other_holder row) s.operations))

-- The code's test of the status holds by the type of `Status`.
unfoldable pub update_operation :
    String → Status → Fields → Action State StateError (Option Operation)
unfolding index_ok
update_operation id status fields = do
  row ← gets (get_operation id)
  fits ← gets (index_ok row status)
  require fits unique_violation
  modify (λ s. record s {
    operations = update (operation_is id) (set_status status fields) s.operations;
  })
  gets (get_operation id)

abbrev pub outcome : Option ℕ → Option ℕ → String → Fields
outcome completed_at exit_code reason = record {
  started_at = none;
  completed_at = completed_at;
  exit_code = exit_code;
  outcome_reason = some reason;
}

unfoldable pub interrupt_row :
    Option Operation → ℕ → String → Action State StateError (Option Operation)
unfolding update_operation
interrupt_row none now reason = pure none
interrupt_row (some active) now reason =
    update_operation active.id Status.interrupted (outcome (some now) none reason)

unfoldable pub interrupt_active_operation :
    String → ℕ → String → Action State StateError (Option Operation)
unfolding interrupt_row
interrupt_active_operation session_id now reason = do
  active ← gets (active_operation session_id)
  interrupt_row active now reason
