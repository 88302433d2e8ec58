-- ===== src/Agent/Calls.antt =====
-- The methods of `StateStore` in state-store.js that write, as calls, and a history of calls.
use dp_beget_bridge.Agent.Completion.{exit_file_is, prepare_operation_completion}
use dp_beget_bridge.Base.{◌>>=◌, delete, ℕ, String, List, [], ◌∷◌}
use dp_beget_bridge.Agent.Model.{Status, ExitFile, State, empty_state}
use dp_beget_bridge.Agent.Sessions.{
  SessionInput, save, close_session, TranscriptFields, update_transcript, purge,
}
use dp_beget_bridge.Agent.Ledger.{
  Request, admit_operation, Fields, update_operation, interrupt_active_operation,
}
use dp_beget_bridge.Agent.Recovery.{reconcile_uncertain_operations}
use dp_beget_bridge.Agent.Invariant.{IsLedger, IsLedger-empty}
use dp_beget_bridge.Agent.Invariant.Sessions.{
  save-IsLedger, close_session-IsLedger, update_transcript-IsLedger, purge-IsLedger,
}
use dp_beget_bridge.Agent.Invariant.Admission.{admit_operation-IsLedger}
use dp_beget_bridge.Agent.Invariant.Updates.{
  update_operation-IsLedger, interrupt_active_operation-IsLedger, reconcile-IsLedger,
}

-- `shell_exit` is the file that the shell of an operation writes; the others are methods, with what
-- the clock and `crypto.randomUUID()` give.
pub data StateCall : Type 0 where
  save_call : SessionInput → String → StateCall
  close_call : String → ℕ → String → StateCall
  transcript_call : String → TranscriptFields → String → StateCall
  purge_call : String → StateCall
  admit_call : Request → StateCall
  update_call : String → Status → Fields → StateCall
  interrupt_call : String → ℕ → String → StateCall
  reconcile_call : (String → ℕ) → StateCall
  prepare_call : String → String → StateCall
  shell_exit : ExitFile → StateCall

-- The state after one call, whether it returns or throws.
unfoldable pub run_call : StateCall → State → State
run_call (save_call session uuid) s = (save session uuid s).1
run_call (close_call id now uuid) s = (close_session id now uuid s).1
run_call (transcript_call id fields uuid) s = (update_transcript id fields uuid s).1
run_call (purge_call id) s = (purge id s).1
run_call (admit_call request) s = (admit_operation request s).1
run_call (update_call id status fields) s = (update_operation id status fields s).1
run_call (interrupt_call id now reason) s = (interrupt_active_operation id now reason s).1
run_call (reconcile_call clock) s = (reconcile_uncertain_operations clock s).1
run_call (prepare_call session_id id) s = (prepare_operation_completion session_id id s).1
run_call (shell_exit file) s = record s { exits = file ∷ s.exits }

unfoldable pub run_calls : List StateCall → State → State
unfolding run_call
run_calls [] s = s
run_calls (c ∷ cs) s = run_calls cs (run_call c s)

with_exits :
    (files : List ExitFile) (s : State) → IsLedger s → IsLedger (record s { exits = files })
with_exits files s h = record {
  sessions_unique = h.sessions_unique;
  operations_unique = h.operations_unique;
  keys_unique = h.keys_unique;
  one_writer = h.one_writer;
  owned = h.owned;
}

run_call-IsLedger : (c : StateCall) (s : State) → IsLedger s → IsLedger (run_call c s)
unfolding run_call prepare_operation_completion ◌>>=◌
run_call-IsLedger (save_call session uuid) s h = (save-IsLedger session uuid s h).at
run_call-IsLedger (close_call id now uuid) s h = (close_session-IsLedger id now uuid s h).at
run_call-IsLedger (transcript_call id fields uuid) s h =
    (update_transcript-IsLedger id fields uuid s h).at
run_call-IsLedger (purge_call id) s h = (purge-IsLedger id s h).at
run_call-IsLedger (admit_call request) s h = (admit_operation-IsLedger request s h).at
run_call-IsLedger (update_call id status fields) s h =
    (update_operation-IsLedger id status fields s h).at
run_call-IsLedger (interrupt_call id now reason) s h =
    (interrupt_active_operation-IsLedger id now reason s h).at
run_call-IsLedger (reconcile_call clock) s h = (reconcile-IsLedger clock s h).at
run_call-IsLedger (prepare_call session_id id) s h =
    with_exits (delete (exit_file_is session_id id) s.exits) s h
run_call-IsLedger (shell_exit file) s h = with_exits (file ∷ s.exits) s h

pub run_calls-IsLedger_from :
    (cs : List StateCall) (s : State) → IsLedger s → IsLedger (run_calls cs s)
unfolding run_calls
run_calls-IsLedger_from [] s h = h
run_calls-IsLedger_from (c ∷ cs) s h =
    run_calls-IsLedger_from cs (run_call c s) (run_call-IsLedger c s h)

-- After any calls on an empty store, returned or thrown, the ids of the sessions and of the operations
-- are unique, a session has at most one operation with an idempotency key and at most one that is
-- ACCEPTED, RUNNING or UNKNOWN, and every operation is of a stored session.
pub run_calls-IsLedger : (cs : List StateCall) → IsLedger (run_calls cs empty_state)
run_calls-IsLedger cs = run_calls-IsLedger_from cs empty_state IsLedger-empty
