-- ===== src/Terminal/Served.antt =====
-- apps/agent/src/tmux.js, `readOutput`: what a page holds of the transcript.
use dp_beget_bridge.Base.{
  ltb, eqb, lt-cases, length, all, take, drop, length-take, length-drop, take_zero, take-take, ok,
  ℕ, ◌+◌, ◌-◌, ◌≤◌, ◌<◌, min, max, String, ◌≡◌, refl, sym, ap, subst, ◌∙◌, inl, inr, true, false,
  Option, List, [], arith,
}
use dp_beget_bridge.Agent.Model.{Session}
use dp_beget_bridge.Agent.Utf8.{is_continuation, utf8_safe_prefix_length}
use dp_beget_bridge.Transcript.Segments.{Inventory, listed, inspect_transcript_segments}
use dp_beget_bridge.Transcript.Layout.{whole, Grown}
use dp_beget_bridge.Transcript.Contents.{inspect-Laid}
use dp_beget_bridge.Transcript.Reading.{read-inspect}
use dp_beget_bridge.Terminal.Cursors.{encode_cursor}
use dp_beget_bridge.Terminal.Status.{Surroundings, Range, range_of}
use dp_beget_bridge.Terminal.Pages.{
  Gap, Page, Window, page_at, skip_from, gap_or_boundary, cut_page, skipped_page, read_page,
}
use dp_beget_bridge.Terminal.Lengths.{safe_bounds, skip_from_le, skip_from-continuations}

-- The page that begins at `start` and takes its bytes from `content`.
pub record Served (session : Session) (range : Range) (start wanted : ℕ) (content : List ℕ)
    (page : Page) : Type 0 where
  pub skipped : ℕ
  pub next : ℕ
  pub few : skipped ≤ 4
  pub begins : start + skipped ≤ next
  pub ends : next ≤ range.end
  pub at_next : page.cursor ≡ encode_cursor session next
  pub output_is :
      page.output
      ≡ take (next - (start + skipped)) (drop (start + skipped - range.earliest) content)
  pub continuations :
      all is_continuation (take skipped (drop (start - range.earliest) content)) ≡ true
  pub small : length page.output ≤ max wanted 4
  pub more_is : page.has_more ≡ ltb next range.end
  pub progress : start + 4 ≤ range.end → start < next

empty-Served :
    (e : Surroundings) (id : String) (session : Session) (range : Range) (start wanted : ℕ)
    (gap : Option Gap) (content : List ℕ)
    → range.end ≡ start
    → Served session range start wanted content (page_at e id session range start [] false gap)
unfolding page_at take
empty-Served e id session range start wanted gap content here =
    let none_left : start - (start + 0) ≡ 0 = omega arith in
    record {
      skipped = 0;
      next = start;
      few = omega arith;
      begins = omega arith;
      ends = omega arith;
      at_next = refl;
      output_is =
          sym
            (take_zero (start - (start + 0)) (drop (start + 0 - range.earliest) content) none_left);
      continuations = refl;
      small = omega arith;
      more_is = ground (arith, here);
      progress = λ k. absurd (omega arith);
    }

cut-Served :
    (e : Surroundings) (id : String) (session : Session) (range : Range) (start skipped wanted : ℕ)
    (gap : Option Gap) (content buffer : List ℕ)
    → range.end ≡ range.earliest + length content
    → range.earliest ≤ start
    → start + skipped ≤ range.end
    → skipped ≤ 4
    → 1 ≤ wanted
    → all is_continuation (take skipped (drop (start - range.earliest) content)) ≡ true
    → buffer
      ≡ take
          (min (range.end - (start + skipped)) (wanted + 3))
          (drop (start + skipped - range.earliest) content)
    → Served session range start wanted content
        (cut_page e id session range (start + skipped) wanted gap buffer)
unfolding cut_page page_at
cut-Served e id session range start skipped wanted gap content buffer whole_range low inside few pos
      conts is_buffer =
    let size : length buffer ≡ min (range.end - (start + skipped)) (wanted + 3) = omega (
      arith,
      ap length is_buffer,
      length-take (min (range.end - (start + skipped)) (wanted + 3))
          (drop (start + skipped - range.earliest) content),
      length-drop (start + skipped - range.earliest) content,
    ) in
    let (le, small, some_output) = safe_bounds buffer (min wanted (length buffer)) in
    let safe = utf8_safe_prefix_length buffer (min wanted (length buffer)) in
    record {
      skipped = skipped;
      next = start + skipped + safe;
      few = few;
      begins = omega arith;
      ends = omega (arith, le, size);
      at_next = refl;
      output_is =
          ap (take safe) is_buffer
          ∙ take-take safe (min (range.end - (start + skipped)) (wanted + 3))
              (drop (start + skipped - range.earliest) content) (omega (arith, le, size))
          ∙ ap (λ n. take n (drop (start + skipped - range.earliest) content)) (omega arith);
      continuations = conts;
      small = omega (arith, length-take safe buffer);
      more_is = refl;
      progress = λ k. elim (lt-cases 0 skipped) [
        | inl some_skipped ↦ omega arith
        | inr none_skipped ↦ omega (arith, some_output (omega (arith, size)) (omega (arith, size)))
      ];
    }

-- Before the end, a page is cut from the bytes after those that do not begin a character.
more-Served :
    (e : Surroundings) (id : String) (session : Session) (segment_bytes : ℕ) (inventory : Inventory)
    (window : Window) (wanted : ℕ)
    → inspect_transcript_segments e.listed segment_bytes ≡ ok inventory
    → Grown e.listed e.later
    → session.earliest_offset ≤ window.start
    → window.start < session.earliest_offset + inventory.size
    → 1 ≤ wanted
    → wanted ≤ 262144
    → (page : Page) × (read_page e id session (range_of session inventory) window wanted ≡ ok page)
      × Served session (range_of session inventory) window.start wanted (whole e.listed) page
unfolding read_page skipped_page
more-Served e id session segment_bytes inventory window wanted listed grown low more pos limit =
    let range = range_of session inventory in
    let (laid, total) = inspect-Laid e.listed segment_bytes inventory listed in
    let place = window.start - range.earliest in
    let some_left : eqb (range.end - window.start) 0 ≡ false = ground arith in
    let four = min 4 (inventory.size - place) in
    let first = take four (drop place (whole e.listed)) in
    let first_is =
      read-inspect e.listed e.later segment_bytes inventory place four listed grown (omega arith)
        (omega arith) in
    let skipped = skip_from first in
    let skipped_le : skipped ≤ four =
      omega (arith, skip_from_le first, length-take four (drop place (whole e.listed))) in
    let start = window.start + skipped in
    let second = min (range.end - start) (wanted + 3) in
    let buffer = take second (drop (start - range.earliest) (whole e.listed)) in
    let buffer_is =
      read-inspect e.listed e.later segment_bytes inventory (start - range.earliest) second listed
        grown (omega arith) (omega arith) in
    let gap = gap_or_boundary skipped window.start range window.gap in
    (
      cut_page e id session range start wanted gap buffer,
      rw (some_left, first_is, buffer_is) refl,
      cut-Served e id session range window.start skipped wanted gap (whole e.listed) buffer
          (omega (arith, total)) low (omega arith) (omega arith) pos
          (subst (λ xs. all is_continuation xs ≡ true)
            (take-take skipped four (drop place (whole e.listed)) skipped_le)
            (skip_from-continuations first))
          refl,
    )

-- A page that starts in the transcript is served, also if the files have grown since they were listed: it
-- is never refused. It holds the bytes of the transcript from its start on, after at most four bytes that
-- do not begin a character, up to the place of its cursor; `hasMore` tells whether that place is before
-- the end; and the cursor advances wherever four bytes are left.
pub read_page-Served :
    (e : Surroundings) (id : String) (session : Session) (segment_bytes : ℕ) (inventory : Inventory)
    (window : Window) (wanted : ℕ)
    → inspect_transcript_segments e.listed segment_bytes ≡ ok inventory
    → Grown e.listed e.later
    → session.earliest_offset ≤ window.start
    → window.start ≤ session.earliest_offset + inventory.size
    → 1 ≤ wanted
    → wanted ≤ 262144
    → (page : Page) × (read_page e id session (range_of session inventory) window wanted ≡ ok page)
      × Served session (range_of session inventory) window.start wanted (whole e.listed) page
unfolding read_page
read_page-Served e id session segment_bytes inventory window wanted listed grown low high pos
      limit =
    let range = range_of session inventory in
    elim (lt-cases window.start range.end) [
      | inr at_end ↦
          let done : eqb (range.end - window.start) 0 ≡ true = ground arith in
          (
            page_at e id session range window.start [] false window.gap,
            rw done refl,
            empty-Served e id session range window.start wanted window.gap (whole e.listed)
                (omega arith),
          )
      | inl more ↦
          more-Served e id session segment_bytes inventory window wanted listed grown low more pos
            limit
    ]
