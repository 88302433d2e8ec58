-- ===== src/Transcript/Capture.antt =====
-- scripts/transcript-capture.mjs, `captureTranscript`: the program behind tmux's pipe, which appends its
-- input to the last file of the transcript and begins a new file where the last one is full.
-- The chunks of the input are a list. `space` is what statfs tells when so many bytes are still to be
-- written; `none` is a call that fails. The writes of the stream and its end do not fail here.
use mathlib.Core.Option
use dp_beget_bridge.Base.{
  ltb, leb, eqb, if◌then◌else◌, is_some, length, take, drop, Result, ok, err, bind_result, update,
  ℕ, zero, suc, ◌+◌, ◌-◌, ◌*◌, min, Bool, true, false, not, ◌&&◌, ◌||◌, Option, none, some, List,
  [], ◌∷◌, ◌++◌,
}
use dp_beget_bridge.Transcript.Segments.{
  TranscriptError, eexist, invalid_capture_limits, regular, Node, Part, Directory, Filename,
  output_path, part_path, Segment, Inventory, is_safe_integer, segment_path, has_suffix, lookup,
  inspect_transcript_segments, open_node,
}

pub record Space : Type 0 where
  pub available : ℕ
  pub block : ℕ

pub record Limits : Type 0 where
  pub maximum : ℕ
  pub minimum_free : ℕ
  pub segment_bytes : ℕ

pub data Stop : Type 0 where
  transcript_limit storage_reserve : Stop

-- The variables of the loop, and the directory that it changes.
pub record Capture : Type 0 where
  pub directory : Directory
  pub index : ℕ
  pub segment_size : ℕ
  pub remaining : ℕ
  pub opened : Bool
  pub new_segment : Bool

-- What a pass of the loop, or the whole loop, comes to.
pub data Pass : Type 0 where
  going : List ℕ → Capture → Pass
  halted : Stop → Capture → Pass
  failed : TranscriptError → Capture → Pass
  out_of_fuel : Capture → Pass

abbrev pub empty_node : Node
empty_node = record { kind = regular; links = 1; bytes = [] }

abbrev pub longer : List ℕ → Node → Node
longer bytes node = record node { bytes = node.bytes ++ bytes }

abbrev pub longer_part : List ℕ → Part → Part
longer_part bytes part = record part { node = longer bytes part.node }

-- O_CREAT
unfoldable pub create_file : Filename → Directory → Directory
create_file output_path d = record d { first = some empty_node }
create_file (part_path suffix) d = record d {
  parts = d.parts ++ record { suffix = suffix; node = empty_node } ∷ [];
}

-- O_APPEND
unfoldable pub append_bytes : Filename → List ℕ → Directory → Directory
append_bytes output_path bytes d = record d { first = Option.map (longer bytes) d.first }
append_bytes (part_path suffix) bytes d = record d {
  parts = update (has_suffix suffix) (longer_part bytes) d.parts;
}

-- index === 0 ? outputPath : segmentPath(outputPath, index)
unfoldable pub file_at : ℕ → Result TranscriptError Filename
unfolding segment_path
file_at index = if eqb index 0 then ok output_path else segment_path index

-- O_EXCL with O_CREAT for a new file; a file that is there has to be no symbolic link
unfoldable pub open_output : Bool → Filename → Directory → Result TranscriptError Directory
unfolding lookup create_file
open_output true filename d =
    if is_some (lookup filename d) then err eexist else ok (create_file filename d)
open_output false filename d = bind_result (open_node (lookup filename d)) (λ node. ok d)

-- if (segmentSize === segmentBytes) { … }
unfoldable pub roll : ℕ → Capture → Result TranscriptError Capture
unfolding segment_path
roll segment_bytes s =
    if eqb s.segment_size segment_bytes
    then bind_result (segment_path (s.index + 1)) (λ filename.
      ok (record s { opened = false; index = s.index + 1; segment_size = 0; new_segment = true }))
    else ok s

abbrev pub portion_length : ℕ → List ℕ → Capture → ℕ
portion_length segment_bytes chunk s =
    min (length chunk) (min s.remaining (segment_bytes - s.segment_size))

abbrev pub enough_space : ℕ → ℕ → Option Space → Bool
enough_space minimum_free portion none = false
enough_space minimum_free portion (some space) =
    ltb 0 space.block && leb (minimum_free + portion + 4096) (space.available * space.block)

-- if (minimumFree > 0) { … }
unfoldable pub is_sufficient : ℕ → ℕ → Option Space → Bool
is_sufficient minimum_free portion space =
    if ltb 0 minimum_free then enough_space minimum_free portion space else true

-- if (!output) { … }
unfoldable pub ensure_output : Capture → Result TranscriptError Capture
unfolding file_at open_output
ensure_output s =
    if s.opened
    then ok s
    else bind_result (file_at s.index) (λ filename.
      bind_result (open_output s.new_segment filename s.directory)
        (λ d. ok (record s { directory = d; opened = true; new_segment = false })))

abbrev pub write_at : Result TranscriptError Filename → List ℕ → Directory → Directory
write_at (ok filename) bytes d = append_bytes filename bytes d
write_at (err e) bytes d = d

-- output.write, and the counts after it
unfoldable pub write_portion : List ℕ → Capture → Capture
unfolding append_bytes file_at
write_portion portion s = record s {
  directory = write_at (file_at s.index) portion s.directory;
  remaining = s.remaining - length portion;
  segment_size = s.segment_size + length portion;
}

abbrev pub after_write : List ℕ → Capture → Pass
after_write rest s = if eqb s.remaining 0 then halted transcript_limit s else going rest s

abbrev pub write_pass : ℕ → List ℕ → Capture → Result TranscriptError Capture → Pass
write_pass portion chunk s (ok s') =
    after_write (drop portion chunk) (write_portion (take portion chunk) s')
write_pass portion chunk s (err e) = failed e s

abbrev pub mark_stop : Capture → Capture
mark_stop s = record s { directory = record s.directory { stop_marker = true } }

-- A pass from the portion on.
unfoldable pub portion_pass : Limits → (ℕ → Option Space) → List ℕ → Capture → Pass
unfolding is_sufficient ensure_output write_portion
portion_pass limits space chunk s =
    let portion = portion_length limits.segment_bytes chunk s in
    if is_sufficient limits.minimum_free portion (space s.remaining)
    then write_pass portion chunk s (ensure_output s)
    else halted storage_reserve (mark_stop s)

abbrev pub rolled_pass :
    Limits → (ℕ → Option Space) → List ℕ → Capture → Result TranscriptError Capture → Pass
rolled_pass limits space chunk s (ok s') = portion_pass limits space chunk s'
rolled_pass limits space chunk s (err e) = failed e s

-- One pass of `while (position < chunk.length)`; the chunk is what is left of it from the position on.
unfoldable pub capture_pass : Limits → (ℕ → Option Space) → List ℕ → Capture → Pass
unfolding roll portion_pass
capture_pass limits space chunk s = rolled_pass limits space chunk s (roll limits.segment_bytes s)

-- What comes after a pass that does not leave the loop.
unfoldable pub follow : Pass → (List ℕ → Capture → Pass) → Pass
follow (going rest s) next = next rest s
follow (halted stop s) next = halted stop s
follow (failed e s) next = failed e s
follow (out_of_fuel s) next = out_of_fuel s

-- The passes over one chunk, on fuel: each takes one byte at least.
unfoldable pub capture_chunk : Limits → (ℕ → Option Space) → ℕ → List ℕ → Capture → Pass
unfolding capture_pass follow
capture_chunk limits space fuel [] s = going [] s
capture_chunk limits space zero (byte ∷ bytes) s = out_of_fuel s
capture_chunk limits space (suc fuel) (byte ∷ bytes) s =
    follow (capture_pass limits space (byte ∷ bytes) s)
      (λ rest s'. capture_chunk limits space fuel rest s')

-- for await (const chunk of input)
unfoldable pub capture_chunks : Limits → (ℕ → Option Space) → List (List ℕ) → Capture → Pass
unfolding capture_chunk follow
capture_chunks limits space [] s = going [] s
capture_chunks limits space (chunk ∷ chunks) s =
    follow (capture_chunk limits space (length chunk) chunk s)
      (λ rest s'. capture_chunks limits space chunks s')

-- The size of a file for what is there: an older transcript keeps its own.
unfoldable pub settled_bytes : ℕ → ℕ → Inventory → ℕ
settled_bytes maximum segment_bytes existing =
    let kept = if ltb 1 (length existing.segments) then existing.segment_bytes else segment_bytes in
    if eqb (length existing.segments) 1 && ltb kept existing.size then maximum else kept

abbrev pub last_size : List Segment → ℕ
last_size [] = 0
last_size (segment ∷ []) = segment.size
last_size (segment ∷ other ∷ segments) = last_size (other ∷ segments)

unfoldable pub begin_capture : ℕ → Inventory → Directory → Capture
begin_capture maximum existing d = record {
  directory = d;
  index = length existing.segments - 1;
  segment_size = last_size existing.segments;
  remaining = maximum - existing.size;
  opened = false;
  new_segment = eqb (length existing.segments) 0;
}

abbrev pub invalid_limits : Limits → Bool
invalid_limits limits =
    not (is_safe_integer limits.maximum)
    || ltb limits.maximum 1
    || not (is_safe_integer limits.minimum_free)
    || not (is_safe_integer limits.segment_bytes)
    || ltb limits.segment_bytes 1

-- From the inventory on.
unfoldable pub capture_from :
    Limits → (ℕ → Option Space) → List (List ℕ) → Directory → Inventory → Pass
unfolding capture_chunks settled_bytes begin_capture
capture_from limits space chunks d existing =
    if eqb (limits.maximum - existing.size) 0
    then halted transcript_limit (begin_capture limits.maximum existing d)
    else capture_chunks
        (record limits {
          segment_bytes =
              settled_bytes limits.maximum (min limits.segment_bytes limits.maximum) existing;
        })
        space chunks (begin_capture limits.maximum existing d)

-- `none` where the call throws before it has a state
abbrev pub after_inventory :
    Limits
    → (ℕ → Option Space)
    → List (List ℕ)
    → Directory
    → Result TranscriptError Inventory
    → Result TranscriptError Pass
after_inventory limits space chunks d (ok existing) =
    ok (capture_from limits space chunks d existing)
after_inventory limits space chunks d (err e) = err e

unfoldable pub capture_transcript :
    Limits → (ℕ → Option Space) → List (List ℕ) → Directory → Result TranscriptError Pass
unfolding capture_from
capture_transcript limits space chunks d =
    if invalid_limits limits
    then err invalid_capture_limits
    else after_inventory limits space chunks d
        (inspect_transcript_segments d (min limits.segment_bytes limits.maximum))
