-- ===== src/Terminal/Reads.antt =====
-- apps/agent/src/tmux.js, `readOutput`: the whole call, for a session whose capture goes on.
use dp_beget_bridge.Base.{
  if◌then◌else◌, ok, ◌>>=◌, ℕ, ◌≤◌, ◌<◌, min, max, String, ◌≡◌, refl, ap, subst, ◌∙◌, false, some,
  arith,
}
use dp_beget_bridge.Agent.Model.{Session, State}
use dp_beget_bridge.Agent.Sessions.{get_session, number_or}
use dp_beget_bridge.Transcript.Segments.{
  Inventory, default_segment_bytes, listed, inspect_transcript_segments,
}
use dp_beget_bridge.Transcript.Layout.{whole, Grown}
use dp_beget_bridge.Terminal.Cursors.{CursorValue, Requested, parse_cursor}
use dp_beget_bridge.Terminal.Status.{
  no_marker, Surroundings, Range, observe_capture_stop, enforce_capture_reserve, range_of,
  output_range, enforce_capture_ceiling,
}
use dp_beget_bridge.Terminal.Pages.{Page, place_window, requested_max, read_page, read_output}
use dp_beget_bridge.Terminal.Served.{Served, read_page-Served}

-- Where a read starts: at the requested place, or at the end of the transcript that is nearer to it, or
-- at the beginning where the cursor is one of another stream.
abbrev pub start_of : Range → Requested → ℕ
start_of range requested =
    if requested.mismatch
    then range.earliest
    else max range.earliest (min requested.offset range.end)

place_window-start :
    (range : Range) (requested : Requested)
    → range.earliest ≤ range.end
    → (place_window range requested).start ≡ start_of range requested
unfolding place_window
place_window-start range requested ordered = ground arith

start_of_bounds :
    (range : Range) (requested : Requested)
    → range.earliest ≤ range.end
    → (range.earliest ≤ start_of range requested) × (start_of range requested ≤ range.end)
start_of_bounds range requested ordered = (ground arith, ground arith)

observed :
    (e : Surroundings) (id : String) (session : Session) (s : State)
    → e.marker ≡ no_marker
    → observe_capture_stop e id session s ≡ (ok session, s)
unfolding observe_capture_stop
observed e id session s h = ground (arith, h)

reserved :
    (e : Surroundings) (id : String) (session : Session) (s : State)
    → e.storage_min_free ≤ e.available
    → enforce_capture_reserve e id session s ≡ (ok session, s)
unfolding enforce_capture_reserve
reserved e id session s h = ground (arith, h)

ranged :
    (e : Surroundings) (id : String) (session : Session) (s : State) (inventory : Inventory)
    → inspect_transcript_segments e.listed (number_or e.segment_bytes default_segment_bytes)
      ≡ ok inventory
    → inventory.missing ≡ false
    → output_range e id session s ≡ (ok (session, range_of session inventory), s)
unfolding output_range
ranged e id session s inventory h there = rw h (ground (arith, there))

below_ceiling :
    (e : Surroundings) (id : String) (session : Session) (range : Range) (s : State)
    → range.physical_size < e.output_max
    → enforce_capture_ceiling e id session range s ≡ (ok session, s)
unfolding enforce_capture_ceiling
below_ceiling e id session range s h = ground arith

read_steps :
    (e : Surroundings) (id : String) (cursor : CursorValue) (max_bytes : ℕ) (s : State)
    (session : Session) (range : Range) (requested : Requested)
    → get_session id s ≡ some session
    → observe_capture_stop e id session s ≡ (ok session, s)
    → enforce_capture_reserve e id session s ≡ (ok session, s)
    → output_range e id session s ≡ (ok (session, range), s)
    → enforce_capture_ceiling e id session range s ≡ (ok session, s)
    → parse_cursor cursor session ≡ ok requested
    → read_output e id cursor max_bytes s
      ≡ (read_page e id session range (place_window range requested) (requested_max max_bytes), s)
unfolding read_output ◌>>=◌
read_steps e id cursor max_bytes s session range requested found a b c d h =
    rw (found, a, b, c, d, h) refl

-- A read of a stored session whose capture has not stopped, with a cursor that can be parsed, changes
-- nothing in the store and gives a page, if the storage reserve is free, the files of the transcript are
-- there with a valid inventory, that is below the output limit, and only grow until they are read. The page starts at the requested place, or at the nearer end of the
-- transcript where that lies outside, or at the beginning where the stream or its epoch has changed.
pub read_output-Served :
    (e : Surroundings) (id : String) (cursor : CursorValue) (max_bytes : ℕ) (s : State)
    (session : Session) (inventory : Inventory) (requested : Requested)
    → get_session id s ≡ some session
    → e.marker ≡ no_marker
    → e.storage_min_free ≤ e.available
    → inspect_transcript_segments e.listed (number_or e.segment_bytes default_segment_bytes)
      ≡ ok inventory
    → inventory.missing ≡ false
    → inventory.size < e.output_max
    → Grown e.listed e.later
    → parse_cursor cursor session ≡ ok requested
    → (page : Page) × (read_output e id cursor max_bytes s ≡ (ok page, s))
      × Served session
          (range_of session inventory)
          (start_of (range_of session inventory) requested)
          (requested_max max_bytes)
          (whole e.listed)
          page
read_output-Served e id cursor max_bytes s session inventory requested found no_mark free listed
      there small grown parsed =
    let range = range_of session inventory in
    let window = place_window range requested in
    let start_is = place_window-start range requested (omega arith) in
    let bounds = start_of_bounds range requested (omega arith) in
    let (page, read, served) =
      read_page-Served e id session (number_or e.segment_bytes default_segment_bytes) inventory
        window (requested_max max_bytes) listed grown (omega (arith, start_is, bounds))
        (omega (arith, start_is, bounds)) (omega arith) (omega arith) in
    (
      page,
      read_steps e id cursor max_bytes s session range requested found
            (observed e id session s no_mark) (reserved e id session s free)
            (ranged e id session s inventory listed there)
            (below_ceiling e id session range s small) parsed
          ∙ ap (λ r. (r, s)) read,
      subst (λ n. Served session range n (requested_max max_bytes) (whole e.listed) page) start_is
          served,
    )
