-- ===== src/Terminal/Pages.antt =====
-- apps/agent/src/tmux.js, `readOutput`: a page of a transcript. The output is its bytes; the state of the
-- session is left out.
use dp_beget_bridge.Base.{
  ltb, eqb, if◌then◌else◌, length, take, Result, ok, err, bind_result, Action, lift, gets,
  require_some, ◌>>=◌, ℕ, suc, ◌+◌, ◌-◌, min, max, String, Bool, false, Option, none, some, List,
  [], ◌∷◌,
}
use dp_beget_bridge.Agent.Model.{
  session_not_found, transcript_invalid, StateError, bridge_error, Capture, Session, State,
}
use dp_beget_bridge.Agent.Sessions.{get_session, number_or}
use dp_beget_bridge.Agent.Utf8.{is_continuation, utf8_safe_prefix_length}
use dp_beget_bridge.Transcript.Segments.{TranscriptError, read_transcript_bytes}
use dp_beget_bridge.Terminal.Cursors.{encode_cursor, CursorValue, Requested, parse_cursor}
use dp_beget_bridge.Terminal.Status.{
  Surroundings, Range, is_degraded, observe_capture_stop, enforce_capture_reserve, output_range,
  enforce_capture_ceiling,
}

pub data GapReason : Type 0 where
  stream_changed retention cursor_ahead utf8_boundary : GapReason

pub record Gap : Type 0 where
  pub reason : GapReason
  pub requested_offset : ℕ
  pub earliest_offset : ℕ

pub record Page : Type 0 where
  pub session_id : String
  pub alive : Bool
  pub cursor : List ℕ
  pub earliest_cursor : List ℕ
  pub output : List ℕ
  pub has_more : Bool
  pub truncated : Bool
  pub gap : Option Gap
  pub capture_state : Capture
  pub capture_reason : Option String
  pub after_cursor : Option (List ℕ)

-- logicalStart and gap
pub record Window : Type 0 where
  pub start : ℕ
  pub gap : Option Gap

unfoldable pub place_window : Range → Requested → Window
place_window range requested =
    if requested.mismatch
    then record {
      start = range.earliest;
      gap = some (record {
        reason = stream_changed;
        requested_offset = requested.offset;
        earliest_offset = range.earliest;
      });
    }
    else if ltb requested.offset range.earliest
    then record {
      start = range.earliest;
      gap = some (record {
        reason = retention;
        requested_offset = requested.offset;
        earliest_offset = range.earliest;
      });
    }
    else if ltb range.end requested.offset
    then record {
      start = range.end;
      gap = some (record {
        reason = cursor_ahead;
        requested_offset = requested.offset;
        earliest_offset = range.earliest;
      });
    }
    else record { start = requested.offset; gap = none }

-- Math.max(1, Math.min(Number(maxBytes) || 64 * 1024, 256 * 1024)); 0 is no number too
abbrev pub requested_max : ℕ → ℕ
requested_max max_bytes = max 1 (min (number_or max_bytes 65536) 262144)

abbrev pub after_cursor_of : Session → Range → Option (List ℕ)
after_cursor_of session range =
    if is_degraded session.capture_state then some (encode_cursor session range.end) else none

unfoldable pub page_at :
    Surroundings → String → Session → Range → ℕ → List ℕ → Bool → Option Gap → Page
unfolding encode_cursor
page_at e id session range next output more gap = record {
  session_id = id;
  alive = e.alive;
  cursor = encode_cursor session next;
  earliest_cursor = encode_cursor session range.earliest;
  output = output;
  has_more = more;
  truncated = more;
  gap = gap;
  capture_state = session.capture_state;
  capture_reason = session.gap_reason;
  after_cursor = after_cursor_of session range;
}

-- while (skipped < first.length && (first[skipped] & 0xc0) === 0x80) skipped += 1
unfoldable pub skip_from : List ℕ → ℕ
unfolding is_continuation
skip_from [] = 0
skip_from (byte ∷ bytes) =
    let rest = skip_from bytes in if is_continuation byte then suc rest else 0

-- gap ||= …
abbrev pub gap_or_boundary : ℕ → ℕ → Range → Option Gap → Option Gap
gap_or_boundary skipped start range (some gap) = some gap
gap_or_boundary skipped start range none =
    if ltb 0 skipped
    then some (record {
      reason = utf8_boundary;
      requested_offset = start;
      earliest_offset = range.earliest;
    })
    else none

-- From the buffer on, with the start after what was skipped.
unfoldable pub cut_page :
    Surroundings → String → Session → Range → ℕ → ℕ → Option Gap → List ℕ → Page
unfolding utf8_safe_prefix_length page_at
cut_page e id session range start wanted gap buffer =
    let safe = utf8_safe_prefix_length buffer (min wanted (length buffer)) in
    page_at e id session range (start + safe) (take safe buffer) (ltb (start + safe) range.end) gap

abbrev pub buffer_at : Surroundings → Range → ℕ → ℕ → Result TranscriptError (List ℕ)
buffer_at e range start wanted =
    read_transcript_bytes e.later range.segments (start - range.earliest)
      (min (range.end - start) (wanted + 3))

-- From the first bytes on.
unfoldable pub skipped_page :
    Surroundings → String → Session → Range → Window → ℕ → List ℕ → Result TranscriptError Page
unfolding skip_from cut_page read_transcript_bytes
skipped_page e id session range window wanted first =
    let skipped = skip_from first in
    bind_result (buffer_at e range (window.start + skipped) wanted) (λ buffer. ok (
      cut_page e id session range (window.start + skipped) wanted
        (gap_or_boundary skipped window.start range window.gap) buffer))

-- catch { throw new BridgeError("transcript_invalid", …, 503) }
abbrev pub or_transcript_invalid : Result TranscriptError Page → Result StateError Page
or_transcript_invalid (ok page) = ok page
or_transcript_invalid (err e) = err (bridge_error transcript_invalid 503)

unfoldable pub read_page :
    Surroundings → String → Session → Range → Window → ℕ → Result StateError Page
unfolding skipped_page page_at
read_page e id session range window wanted =
    if eqb (range.end - window.start) 0
    then ok (page_at e id session range window.start [] false window.gap)
    else or_transcript_invalid (
        bind_result
          (read_transcript_bytes e.later range.segments (window.start - range.earliest)
            (min 4 (range.physical_size - (window.start - range.earliest))))
          (skipped_page e id session range window wanted))

unfoldable pub read_output : Surroundings → String → CursorValue → ℕ → Action State StateError Page
unfolding observe_capture_stop enforce_capture_reserve output_range enforce_capture_ceiling
    parse_cursor place_window read_page ◌>>=◌
read_output e id cursor max_bytes = do
  found ← gets (get_session id)
  opened ← require_some found (bridge_error session_not_found 404)
  observed ← observe_capture_stop e id opened
  reserved ← enforce_capture_reserve e id observed
  ranged ← output_range e id reserved
  session ← enforce_capture_ceiling e id ranged.0 ranged.1
  requested ← lift (parse_cursor cursor session)
  lift (read_page e id session ranged.1 (place_window ranged.1 requested) (requested_max max_bytes))
