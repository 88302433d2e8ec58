-- ===== src/Terminal/Status.antt =====
-- apps/agent/src/tmux.js: `observeCaptureStop`, `enforceCaptureReserve`, `outputRange` and
-- `enforceCaptureCeiling`, which record in the store that the capture of a transcript has stopped.
-- The calls of tmux are output, and the warnings of the logger too.
use dp_beget_bridge.Base.{
  ltb, leb, eqb, if◌then◌else◌, Result, ok, err, Action, pure, throw, ◌>>=◌, ℕ, ◌+◌, String, Bool,
  true, false, not, ◌&&◌, ◌||◌, none, some, List, [], ◌==◌,
}
use dp_beget_bridge.Agent.Model.{
  transcript_invalid, transcript_capture_invalid, StateError, bridge_error, Capture, Session, State,
}
use dp_beget_bridge.Agent.Sessions.{number_or, update_transcript}
use dp_beget_bridge.Transcript.Segments.{
  TranscriptError, enoent, FileKind, Directory, Segment, Inventory, default_segment_bytes,
  is_regular, inspect_transcript_segments,
}

-- What the read of the capture's mark tells of it.
pub record MarkerInfo : Type 0 where
  pub kind : FileKind
  pub links : ℕ
  pub size : ℕ
  -- info.uid === process.getuid?.()
  pub own : Bool
  -- (info.mode & 0o022) !== 0
  pub writable_by_others : Bool
  pub content : String

pub data Marker : Type 0 where
  no_marker unreadable_marker : Marker
  marker_file : MarkerInfo → Marker

-- What a read finds around the store: whether the terminal is alive, the free bytes, the settings, and
-- the files of the transcript when they are listed and when they are read.
pub record Surroundings : Type 0 where
  pub alive : Bool
  pub marker : Marker
  pub available : ℕ
  pub storage_min_free : ℕ
  pub output_max : ℕ
  pub segment_bytes : ℕ
  pub listed : Directory
  pub later : Directory
  pub uuid : String

pub record Range : Type 0 where
  pub earliest : ℕ
  pub end : ℕ
  pub physical_size : ℕ
  pub segments : List Segment

abbrev pub is_degraded : Capture → Bool
is_degraded Capture.degraded = true
is_degraded _ = false

abbrev pub is_active : Capture → Bool
is_active Capture.active = true
is_active _ = false

-- `updateTranscript(id, { captureState: "DEGRADED", gapReason: reason })`
unfoldable pub degrade : String → String → String → Action State StateError Session
unfolding update_transcript
degrade id reason uuid =
    update_transcript id
      (record {
        epoch = none;
        earliest_offset = none;
        capture_state = some Capture.degraded;
        gap_reason = some (some reason);
      })
      uuid

abbrev pub marker_ok : MarkerInfo → Bool
marker_ok info =
    is_regular info.kind
    && eqb info.links 1
    && eqb info.size 16
    && info.own
    && not info.writable_by_others
    && info.content == "storage_reserve\n"

abbrev pub marked : String → Session → Marker → String → Action State StateError Session
marked id session no_marker uuid = pure session
marked id session unreadable_marker uuid = throw (bridge_error transcript_capture_invalid 503)
marked id session (marker_file info) uuid =
    if marker_ok info
    then degrade id "storage_reserve" uuid
    else throw (bridge_error transcript_capture_invalid 503)

unfoldable pub observe_capture_stop :
    Surroundings → String → Session → Action State StateError Session
unfolding degrade pure
observe_capture_stop e id session =
    if is_degraded session.capture_state then pure session else marked id session e.marker e.uuid

unfoldable pub enforce_capture_reserve :
    Surroundings → String → Session → Action State StateError Session
unfolding degrade pure
enforce_capture_reserve e id session =
    if not e.alive
      || not (is_active session.capture_state)
      || eqb e.storage_min_free 0
      || leb e.storage_min_free e.available
    then pure session
    else degrade id "storage_reserve" e.uuid

abbrev pub empty_range : Session → Range
empty_range session = record {
  earliest = session.earliest_offset;
  end = session.earliest_offset;
  physical_size = 0;
  segments = [];
}

abbrev pub range_of : Session → Inventory → Range
range_of session inventory = record {
  earliest = session.earliest_offset;
  end = session.earliest_offset + inventory.size;
  physical_size = inventory.size;
  segments = inventory.segments;
}

-- error.code === "ENOENT"; the session that the caller holds becomes the one that is stored
abbrev pub range_missing :
    Surroundings → String → Session → Action State StateError (Session × Range)
range_missing e id session =
    if is_degraded session.capture_state
    then pure (session, empty_range session)
    else degrade id "transcript_missing" e.uuid >>= λ stored. pure (stored, empty_range stored)

abbrev pub range_from :
    Surroundings
    → String
    → Session
    → Result TranscriptError Inventory
    → Action State StateError (Session × Range)
range_from e id session (ok inventory) =
    if inventory.missing
    then range_missing e id session
    else pure (session, range_of session inventory)
range_from e id session (err enoent) = range_missing e id session
range_from e id session (err _) = throw (bridge_error transcript_invalid 503)

unfoldable pub output_range :
    Surroundings → String → Session → Action State StateError (Session × Range)
unfolding degrade ◌>>=◌
output_range e id session =
    range_from e id session
      (inspect_transcript_segments e.listed (number_or e.segment_bytes default_segment_bytes))

unfoldable pub enforce_capture_ceiling :
    Surroundings → String → Session → Range → Action State StateError Session
unfolding degrade pure
enforce_capture_ceiling e id session range =
    if not e.alive
      || not (is_active session.capture_state)
      || eqb e.output_max 0
      || ltb range.physical_size e.output_max
    then pure session
    else degrade id "transcript_limit" e.uuid
