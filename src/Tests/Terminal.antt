-- ===== src/Tests/Terminal.antt =====
-- Cursors and pages of tmux.js at concrete inputs.
use dp_beget_bridge.Base.{
  codes, take, drop, Result, ok, err, find, ℕ, ◌≡◌, refl, Bool, true, false, Option, none, some,
  List, [], ◌∷◌, arith,
}
use dp_beget_bridge.Agent.Model.{
  invalid_cursor, StateError, bridge_error, Capture, Session, State, empty_state,
}
use dp_beget_bridge.Agent.Sessions.{get_session}
use dp_beget_bridge.Agent.Utf8.{byte_at}
use dp_beget_bridge.Transcript.Segments.{
  Directory, inspect_transcript_segments, read_transcript_bytes,
}
use dp_beget_bridge.Transcript.Layout.{whole}
use dp_beget_bridge.Terminal.Cursors.{encode_cursor, text, Requested, parse_cursor}
use dp_beget_bridge.Terminal.CursorText.{parse_cursor-encode_cursor}
use dp_beget_bridge.Terminal.Status.{no_marker, Surroundings, range_of}
use dp_beget_bridge.Terminal.Pages.{Page, read_output}
use dp_beget_bridge.Terminal.Served.{Served}
use dp_beget_bridge.Terminal.Reads.{read_output-Served}
use dp_beget_bridge.Tests.Transcript.{
  plain, two_files, two_files_later, inventory, inspected, later-Grown,
}

abbrev session : Session
session = record {
  id = "s1";
  label = "Terminal";
  cwd = ".";
  created_at = 0;
  closed_at = none;
  stream_id = "st-1";
  epoch = 2;
  earliest_offset = 100;
  capture_state = Capture.active;
  gap_reason = none;
}

-- "v1:st-1:2:101"
abbrev cursor : List ℕ
cursor = codes "v1:st-1:2:101"

encoded : encode_cursor session 101 ≡ cursor
unfolding encode_cursor
encoded = refl

abbrev requested : Requested
requested = record { offset = 101; mismatch = false }

parsed : parse_cursor (text cursor) session ≡ ok requested
unfolding parse_cursor
parsed = refl

old_epoch :
    parse_cursor (text (codes "v1:st-1:1:101")) session
    ≡ ok (record { offset = 101; mismatch = true })
unfolding parse_cursor
old_epoch = refl

no_cursor :
    parse_cursor (text (codes "v2:st-1:2:101")) session ≡ err (bridge_error invalid_cursor 400)
unfolding parse_cursor
no_cursor = refl

parse_cursor-encode_cursor_example :
    parse_cursor (text (encode_cursor session 101)) session
    ≡ ok (record { offset = 101; mismatch = false })
parse_cursor-encode_cursor_example =
    parse_cursor-encode_cursor session session 101 refl (omega arith) (omega arith) (omega arith)

abbrev around : Surroundings
around = record {
  alive = true;
  marker = no_marker;
  available = 10;
  storage_min_free = 5;
  output_max = 1000;
  segment_bytes = 8;
  listed = two_files;
  later = two_files_later;
  uuid = "u";
}

abbrev store : State
store = record empty_state { sessions = session ∷ [] }

found : get_session "s1" store ≡ some session
unfolding find
found = refl

read_output-Served_example :
    (page : Page) × (read_output around "s1" (text cursor) 2 store ≡ (ok page, store))
    × Served session (range_of session inventory) 101 2 (whole two_files) page
read_output-Served_example =
    read_output-Served around "s1" (text cursor) 2 store session inventory requested found refl
      (omega arith) inspected refl (omega arith) later-Grown parsed

abbrev cut_directory : Directory
cut_directory = record { first = some (plain (97 ∷ 195 ∷ [])); parts = []; stop_marker = false }

abbrev cut_around : Surroundings
cut_around = record around { listed = cut_directory; later = cut_directory }

abbrev outcome : Result StateError Page × State → Option (List ℕ × List ℕ × Bool)
outcome (ok page, s) = some (page.cursor, page.output, page.has_more)
outcome (err e, s) = none

-- A transcript that ends inside a character: the read at that place gives nothing and says that there is
-- more, at the same place.
stuck_page :
    outcome (read_output cut_around "s1" (text (codes "v1:st-1:2:101")) 0 store)
    ≡ some (codes "v1:st-1:2:101", [], true)
unfolding read_output inspect_transcript_segments read_transcript_bytes take drop find byte_at
stuck_page = refl
