-- ===== src/Tests/Agent.antt =====
-- state-store.js, and `shellQuote` of tmux.js, at concrete inputs.
use mathlib.Core.Option
use dp_beget_bridge.Agent.Shell.{shell_quote, outside, read_word, read_word-shell_quote}
use dp_beget_bridge.Base.{
  if◌then◌else◌, ok, ◌>>=◌, find, update, delete, count, String, ◌≡◌, refl, true, false, none, some,
  List, [], ◌∷◌, arith, ◌==◌,
}
use dp_beget_bridge.Agent.Model.{Status, Capture, Session, ExitFile, State, empty_state}
use dp_beget_bridge.Agent.Completion.{
  parse_exit, completion_of, read_exit, print_exit, parse_exit-print_exit,
}
use dp_beget_bridge.Agent.Sessions.{
  get_session, SessionInput, normalize_session, session_row, save, close_session, TranscriptFields,
  update_transcript, purge,
}
use dp_beget_bridge.Agent.Ledger.{
  get_operation, active_operation, Request, accepted_row, insert_operation, admission_error,
  admit_new, admit_row, admit_operation, set_status, index_ok, update_operation, outcome,
  interrupt_row, interrupt_active_operation,
}
use dp_beget_bridge.Agent.Recovery.{reconcile_uncertain_operations}
use dp_beget_bridge.Agent.Invariant.{IsLedger}
use dp_beget_bridge.Agent.Recovery.Outcome.{RecordsReadable, judge, recovered}
use dp_beget_bridge.Agent.Recovery.Reconciled.{reconcile_recovers}
use dp_beget_bridge.Agent.Calls.{
  StateCall, save_call, admit_call, shell_exit, run_calls, run_calls-IsLedger,
}
use dp_beget_bridge.Agent.Admission.{answer, admit_answers, admit_retry}
use dp_beget_bridge.Agent.Interrupt.{interrupt_frees}
use dp_beget_bridge.Agent.Lifecycle.{save_reads, close_closes, purge_removes, gap_reason_stays}

abbrev new_session : SessionInput
new_session = record {
  id = "s1";
  label = "";
  cwd = "/work";
  created_at = 5;
  closed_at = none;
  stream_id = "";
  epoch = 0;
  earliest_offset = none;
  capture_state = none;
  gap_reason = none;
}

abbrev first_request : Request
first_request = record {
  id = "o1";
  session_id = "s1";
  idempotency_key = "k1";
  request_fingerprint = "f1";
  accepted_at = 7;
  start_cursor = 3;
}

abbrev retry_request : Request
retry_request = record first_request { id = "o2"; accepted_at = 9 }

abbrev second_request : Request
second_request = record first_request { id = "o3"; idempotency_key = "k2" }

abbrev exit_file : ExitFile
exit_file = record {
  session_id = "s1";
  operation_id = "o1";
  raw = b'3' ∷ b'\n' ∷ [];
  modified_at = 20;
  unreadable = false;
}

-- a session with one accepted operation, whose shell has ended with 3
abbrev calls : List StateCall
calls = save_call new_session "u1" ∷ admit_call first_request ∷ shell_exit exit_file ∷ []

abbrev open_row : Session
open_row = record {
  id = "s1";
  label = "Terminal";
  cwd = "/work";
  created_at = 5;
  closed_at = none;
  stream_id = "u1";
  epoch = 1;
  earliest_offset = 0;
  capture_state = Capture.active;
  gap_reason = none;
}

abbrev busy_state : State
busy_state = record {
  sessions = open_row ∷ [];
  operations = accepted_row first_request ∷ [];
  metadata = record open_row { label = "" } ∷ [];
  exits = exit_file ∷ [];
}

abbrev idle_state : State
idle_state = record busy_state { operations = [] }

-- all that a run computes with
agent_run : Unit {0}
unfolding run_calls save admit_operation insert_operation admit_row admit_new admission_error
    update_operation index_ok interrupt_active_operation interrupt_row
    reconcile_uncertain_operations close_session update_transcript purge find update delete count
    ◌>>=◌ judge parse_exit completion_of read_exit
agent_run = tt

calls_run : run_calls calls empty_state ≡ busy_state
unfolding agent_run
calls_run = refl

run_calls-IsLedger_example : IsLedger (run_calls calls empty_state)
run_calls-IsLedger_example = run_calls-IsLedger calls

busy_state-IsLedger : IsLedger busy_state
busy_state-IsLedger = rw (← calls_run) (run_calls-IsLedger calls)

admit_answers_example :
    admit_operation second_request busy_state
    ≡ answer none (some (accepted_row first_request)) second_request busy_state
unfolding agent_run
admit_answers_example = admit_answers second_request busy_state refl refl

admit_retry_example :
    admit_operation retry_request busy_state
    ≡ (ok (record { operation = some (accepted_row first_request); duplicate = true }), busy_state)
unfolding agent_run
admit_retry_example =
    admit_retry first_request retry_request idle_state busy_state
      (record { operation = some (accepted_row first_request); duplicate = false }) refl refl refl
      refl

interrupt_frees_example :
    (t : State) × (interrupt_active_operation "s1" 30 "owner_interrupt" busy_state ≡ (
      ok (
          Option.map
            (set_status Status.interrupted (outcome (some 30) none "owner_interrupt"))
            (active_operation "s1" busy_state)),
      t,
    ))
    × (active_operation "s1" t ≡ none)
interrupt_frees_example = interrupt_frees "s1" 30 "owner_interrupt" busy_state busy_state-IsLedger

busy_state-RecordsReadable : RecordsReadable busy_state
unfolding find
busy_state-RecordsReadable session_id id file found = ground arith

reconcile_recovers_example :
    (t : State) × (reconcile_uncertain_operations (λ _. 40) busy_state ≡ (ok tt, t))
    × ((id : String)
        → get_operation id t
          ≡ Option.map (recovered busy_state (λ _. 40)) (get_operation id busy_state))
reconcile_recovers_example =
    reconcile_recovers (λ _. 40) busy_state busy_state-IsLedger busy_state-RecordsReadable

-- exit code 3 fails the operation
recovered_failed :
    recovered busy_state (λ _. 40) (accepted_row first_request)
    ≡ set_status Status.failed
        (outcome (some 20) (some 3) "exit_nonzero")
        (accepted_row first_request)
unfolding agent_run
recovered_failed = refl

save_reads_example :
    (t : State) × (save new_session "u1" empty_state
      ≡ (ok (normalize_session new_session (get_session "s1" empty_state) "u1"), t))
    × (get_session "s1" t ≡ (
        if "s1" == "s1"
        then some (session_row (normalize_session new_session (get_session "s1" empty_state) "u1"))
        else get_session "s1" empty_state))
    × (t.operations ≡ empty_state.operations)
save_reads_example = save_reads new_session "u1" empty_state "s1"

close_closes_example :
    (closed : Session) × (t : State) × (close_session "s1" 50 "u2" busy_state ≡ (ok closed, t))
    × (get_session "s1" t ≡ some (session_row closed))
    × (closed.closed_at ≡ some 50)
    × (closed.capture_state ≡ Capture.stopped)
    × (t.operations ≡ busy_state.operations)
unfolding agent_run
close_closes_example = close_closes "s1" 50 "u2" busy_state open_row refl

abbrev closed_state : State
closed_state = record busy_state { sessions = record open_row { closed_at = some 50 } ∷ [] }

purge_removes_example :
    (t : State) × (purge "s1" closed_state ≡ (ok "s1", t))
    × (get_session "s1" t ≡ none)
    × (find (λ o. o.session_id == "s1") t.operations ≡ none)
    × ((k : String) → (k == "s1") ≡ false → get_session k t ≡ get_session k closed_state)
    × ((k : String) → (k == "s1") ≡ false → active_operation k t ≡ active_operation k closed_state)
unfolding agent_run
purge_removes_example =
    purge_removes "s1" closed_state (record open_row { closed_at = some 50 }) refl

abbrev gap_state : State
gap_state = record busy_state {
  sessions = record open_row { gap_reason = some "transcript_limit" } ∷ [];
}

abbrev cleared : TranscriptFields
cleared = record {
  epoch = none;
  earliest_offset = none;
  capture_state = none;
  gap_reason = some none;
}

gap_reason_stays_example :
    (updated : Session) × (t : State) × (update_transcript "s1" cleared "u2" gap_state
      ≡ (ok updated, t))
    × (updated.gap_reason ≡ some "transcript_limit")
    × ((stored : Session) × (get_session "s1" t ≡ some stored)
        × (stored.gap_reason ≡ some "transcript_limit"))
unfolding agent_run
gap_reason_stays_example =
    gap_reason_stays "s1" cleared "u2" gap_state
      (record open_row { gap_reason = some "transcript_limit" }) refl refl

parse_exit-print_exit_example : parse_exit (print_exit 137) ≡ some 137
parse_exit-print_exit_example = parse_exit-print_exit 137 (omega arith)

read_word-shell_quote_example :
    read_word outside (shell_quote (b'i' ∷ b'\'' ∷ b'\\' ∷ b'm' ∷ []))
    ≡ some (b'i' ∷ b'\'' ∷ b'\\' ∷ b'm' ∷ [])
read_word-shell_quote_example = read_word-shell_quote (b'i' ∷ b'\'' ∷ b'\\' ∷ b'm' ∷ [])
