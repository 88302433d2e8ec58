-- ===== src/Agent/Model.antt =====
-- apps/agent/src/state-store.js: the tables of state.sqlite and the files beside it, and the errors
-- of packages/core/src/errors.js that the store throws. A time is its number of milliseconds since
-- 1970.
use dp_beget_bridge.Base.{ℕ, String, Bool, true, false, Option, none, some, List, []}

pub data Code : Type 0 where
  session_not_found session_not_closed idempotency_conflict : Code
  operation_admission_failed invalid_operation_status operation_completion_invalid : Code
  -- those of the terminal manager
  invalid_cursor transcript_invalid transcript_capture_invalid : Code

-- The `status` column of `operations`, by its CHECK.
pub data Status : Type 0 where
  accepted running succeeded failed interrupted unknown : Status

-- `BridgeError` without its message; `session_busy` has the active operation and its
-- status in its details. The
-- errors of SQLite are those of the schema's constraints.
pub data StateError : Type 0 where
  bridge_error : Code → ℕ → StateError
  session_busy : String → Status → StateError
  unique_violation foreign_key_violation : StateError
  file_error : StateError

pub data Capture : Type 0 where
  active stopped degraded : Capture

pub record Session : Type 0 where
  pub id : String
  pub label : String
  pub cwd : String
  pub created_at : ℕ
  pub closed_at : Option ℕ
  pub stream_id : String
  pub epoch : ℕ
  pub earliest_offset : ℕ
  pub capture_state : Capture
  pub gap_reason : Option String

pub record Operation : Type 0 where
  pub id : String
  pub session_id : String
  pub idempotency_key : String
  pub request_fingerprint : String
  pub status : Status
  pub accepted_at : ℕ
  pub started_at : Option ℕ
  pub completed_at : Option ℕ
  pub exit_code : Option ℕ
  pub outcome_reason : Option String
  pub start_cursor : ℕ

-- The file `operations/<operation>.exit` of a session, with its time of modification.
-- `unreadable` where its reading throws, with an error that is not ENOENT
pub record ExitFile : Type 0 where
  pub session_id : String
  pub operation_id : String
  pub raw : List ℕ
  pub modified_at : ℕ
  pub unreadable : Bool

-- `metadata` holds the `session.json` files.
pub record State : Type 0 where
  pub sessions : List Session
  pub operations : List Operation
  pub metadata : List Session
  pub exits : List ExitFile

abbrev pub empty_state : State
empty_state = record { sessions = []; operations = []; metadata = []; exits = [] }

-- status IN ('ACCEPTED','RUNNING','UNKNOWN')
abbrev pub holds_session : Status → Bool
holds_session Status.accepted = true
holds_session Status.running = true
holds_session Status.unknown = true
holds_session _ = false

-- status IN ('ACCEPTED','RUNNING')
abbrev pub is_pending : Status → Bool
is_pending Status.accepted = true
is_pending Status.running = true
is_pending _ = false

abbrev pub or_else {ℓ} : {A : Type ℓ} → Option A → Option A → Option A
or_else none b = b
or_else (some a) b = some a
