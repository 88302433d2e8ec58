-- ===== src/Agent/Sessions.antt =====
-- state-store.js: the methods on sessions.
use dp_beget_bridge.Base.{
  eqb, if◌then◌else◌, is_some, Action, pure, gets, require_some, modify, require, ◌>>=◌, ◌>>◌, find,
  update, delete, ℕ, String, Bool, Option, none, some, List, [], ◌∷◌, ◌++◌, ◌==◌,
}
use dp_beget_bridge.Agent.Model.{
  session_not_found, session_not_closed, StateError, bridge_error, Capture, Session, State, or_else,
}

abbrev pub session_is : String → Session → Bool
session_is id row = row.id == id

-- `get(id)`
abbrev pub get_session : String → State → Option Session
get_session id s = find (session_is id) s.sessions

-- The argument of `save`: "" and 0 stand for a field that is missing or falsy where the code tests by
-- `||`, and `none` for one that is missing or null where it tests by `??`.
pub record SessionInput : Type 0 where
  pub id : String
  pub label : String
  pub cwd : String
  pub created_at : ℕ
  pub closed_at : Option ℕ
  pub stream_id : String
  pub epoch : ℕ
  pub earliest_offset : Option ℕ
  pub capture_state : Option Capture
  pub gap_reason : Option String

-- a || b
abbrev pub text_or : String → String → String
text_or a b = if a == "" then b else a

abbrev pub number_or : ℕ → ℕ → ℕ
number_or a b = if eqb a 0 then b else a

-- a ?? b
abbrev pub default {ℓ} : {A : Type ℓ} → Option A → A → A
default none b = b
default (some a) b = a

-- existing?.field
abbrev pub field_of {ℓ} : {A : Type ℓ} → Option Session → (Session → A) → A → A
field_of none f d = d
field_of (some row) f d = f row

-- `normalized`; `uuid` is what `crypto.randomUUID()` gives.
unfoldable pub normalize_session : SessionInput → Option Session → String → Session
normalize_session session existing uuid = record {
  id = session.id;
  label = session.label;
  cwd = session.cwd;
  created_at = session.created_at;
  closed_at = session.closed_at;
  stream_id =
      text_or session.stream_id (text_or (field_of existing (λ row. row.stream_id) "") uuid);
  epoch = number_or session.epoch (number_or (field_of existing (λ row. row.epoch) 0) 1);
  earliest_offset =
      default session.earliest_offset (field_of existing (λ row. row.earliest_offset) 0);
  capture_state =
      default session.capture_state (field_of existing (λ row. row.capture_state) Capture.active);
  gap_reason = or_else session.gap_reason (field_of existing (λ row. row.gap_reason) none);
}

-- the row that is stored for `normalized`
abbrev pub session_row : Session → Session
session_row normalized = record normalized {
  label = text_or normalized.label "Terminal";
  cwd = text_or normalized.cwd ".";
}

-- INSERT … ON CONFLICT(id) DO UPDATE SET every other column; so is a file written
unfoldable pub upsert : Session → List Session → List Session
upsert row rows =
    if is_some (find (session_is row.id) rows)
    then update (session_is row.id) (λ _. row) rows
    else rows ++ row ∷ []

unfoldable pub save : SessionInput → String → Action State StateError Session
unfolding normalize_session upsert
save session uuid = do
  existing ← gets (get_session session.id)
  let normalized = normalize_session session existing uuid
  modify (λ s. record s { sessions = upsert (session_row normalized) s.sessions })
  modify (λ s. record s { metadata = upsert normalized s.metadata })
  pure normalized

-- a row as the argument of `save`
abbrev pub input_of : Session → SessionInput
input_of row = record {
  id = row.id;
  label = row.label;
  cwd = row.cwd;
  created_at = row.created_at;
  closed_at = row.closed_at;
  stream_id = row.stream_id;
  epoch = row.epoch;
  earliest_offset = some row.earliest_offset;
  capture_state = some row.capture_state;
  gap_reason = row.gap_reason;
}

abbrev pub stopped_capture : Capture → Capture
stopped_capture Capture.degraded = Capture.degraded
stopped_capture _ = Capture.stopped

-- `{ ...session, closedAt, transcriptCaptureState }`
abbrev pub closed_input : Session → ℕ → SessionInput
closed_input session now = record (input_of session) {
  closed_at = or_else session.closed_at (some now);
  capture_state = some (stopped_capture session.capture_state);
}

unfoldable pub close_session : String → ℕ → String → Action State StateError Session
unfolding save
close_session id now uuid = do
  found ← gets (get_session id)
  session ← require_some found (bridge_error session_not_found 404)
  save (closed_input session now) uuid

-- The `fields` of `updateTranscript`: a missing `gapReason` is `none`, and null is `some none`.
pub record TranscriptFields : Type 0 where
  pub epoch : Option ℕ
  pub earliest_offset : Option ℕ
  pub capture_state : Option Capture
  pub gap_reason : Option (Option String)

abbrev pub transcript_input : Session → TranscriptFields → SessionInput
transcript_input session fields = record (input_of session) {
  epoch = default fields.epoch session.epoch;
  earliest_offset = some (default fields.earliest_offset session.earliest_offset);
  capture_state = some (default fields.capture_state session.capture_state);
  gap_reason = default fields.gap_reason session.gap_reason;
}

unfoldable pub update_transcript :
    String → TranscriptFields → String → Action State StateError Session
unfolding save
update_transcript id fields uuid = do
  found ← gets (get_session id)
  session ← require_some found (bridge_error session_not_found 404)
  save (transcript_input session fields) uuid

-- DELETE FROM sessions WHERE id = ?, with ON DELETE CASCADE, and `fs.rm` of the session's directory
unfoldable pub purge_rows : String → State → State
purge_rows id s = record {
  sessions = delete (session_is id) s.sessions;
  operations = delete (λ o. o.session_id == id) s.operations;
  metadata = delete (session_is id) s.metadata;
  exits = delete (λ e. e.session_id == id) s.exits;
}

unfoldable pub purge : String → Action State StateError String
unfolding purge_rows
purge id = do
  found ← gets (get_session id)
  session ← require_some found (bridge_error session_not_found 404)
  require (is_some session.closed_at) (bridge_error session_not_closed 409)
  modify (purge_rows id)
  pure id
