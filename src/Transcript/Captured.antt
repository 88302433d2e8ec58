-- ===== src/Transcript/Captured.antt =====
-- scripts/transcript-capture.mjs: `captureTranscript` appends a first part of its input to the transcript,
-- and says why it stops.
use mathlib.Core.List.{append-nil}
use dp_beget_bridge.Base.{
  eqb, lt-cases, length, length-append, ok, ℕ, ◌-◌, ◌*◌, ◌≤◌, ◌<◌, min, max, ◌≡◌, refl, sym, ap,
  ◌∙◌, inl, inr, true, false, Option, List, [], ◌++◌, arith,
}
use dp_beget_bridge.Transcript.Segments.{
  index_over_limit, Directory, Inventory, inspect_transcript_segments,
}
use dp_beget_bridge.Transcript.Capture.{
  Space, Limits, transcript_limit, storage_reserve, Capture, Pass, going, halted, failed,
  out_of_fuel, capture_chunks, settled_bytes, begin_capture, invalid_limits, capture_from,
  capture_transcript,
}
use dp_beget_bridge.Transcript.Layout.{whole}
use dp_beget_bridge.Transcript.Inventories.{joined}
use dp_beget_bridge.Transcript.Contents.{inspect-Laid}
use dp_beget_bridge.Transcript.Progress.{State, State-Kept}
use dp_beget_bridge.Transcript.Passes.{Put, Stopped, Failed, Fine}
use dp_beget_bridge.Transcript.Loops.{Finished, capture_chunks-Fine}
use dp_beget_bridge.Transcript.Scarcity.{Scarce, capture_from-Scarce}
use dp_beget_bridge.Transcript.Outcome.{Readable, Kept-Readable}
use dp_beget_bridge.Transcript.Beginning.{inspect-Begun}

abbrev pub directory_of : Pass → Directory
directory_of (going rest s) = s.directory
directory_of (halted stop s) = s.directory
directory_of (failed e s) = s.directory
directory_of (out_of_fuel s) = s.directory

-- Why the capture ends, with the bytes of the transcript then and the input that it has left.
unfoldable pub Ending : Limits → ℕ → ℕ → List ℕ → Pass → Type 0
Ending limits segment_bytes total rest (going left s) = rest ≡ []
Ending limits segment_bytes total rest (halted transcript_limit s) = limits.maximum ≤ total
Ending limits segment_bytes total rest (halted storage_reserve s) =
    (1 ≤ limits.minimum_free) × (s.directory.stop_marker ≡ true)
Ending limits segment_bytes total rest (failed e s) =
    (e ≡ index_over_limit) × (total ≡ 1025 * segment_bytes)
Ending limits segment_bytes total rest (out_of_fuel s) = ⊥

pub record Captured (limits : Limits) (w input : List ℕ) (p : Pass) : Type 0 where
  pub segment_bytes : ℕ
  pub portion : List ℕ
  pub rest : List ℕ
  pub split : input ≡ portion ++ rest
  pub readable : Readable segment_bytes (w ++ portion) (directory_of p)
  pub bounded : length (w ++ portion) ≤ max limits.maximum (length w)
  pub ending : Ending limits segment_bytes (length (w ++ portion)) rest p

state_total :
    (segment_bytes maximum : ℕ) (w : List ℕ) (s : Capture)
    → State segment_bytes maximum w s
    → length w ≤ maximum
unfolding State
state_total segment_bytes maximum w s (inl blank) = omega (arith, ap length blank.content)
state_total segment_bytes maximum w s (inr now) = omega (arith, now.left)

Put-Captured :
    (limits : Limits) (segment_bytes : ℕ) (w input : List ℕ) (p : Pass) (Known : ℕ → Type 0)
    → 1 ≤ segment_bytes
    → segment_bytes ≤ 9007199254740991
    → limits.maximum ≤ 9007199254740991
    → (put : Put segment_bytes w input (directory_of p) Known)
    → length (w ++ put.portion) ≤ limits.maximum
    → Ending limits segment_bytes (length (w ++ put.portion)) put.rest p
    → Captured limits w input p
Put-Captured limits b w input p Known pos safe limit put fits ending = record {
  segment_bytes = b;
  portion = put.portion;
  rest = put.rest;
  split = put.split;
  readable = Kept-Readable b (w ++ put.portion) (directory_of p) pos safe (omega arith) put.kept;
  bounded = omega arith;
  ending = ending;
}

-- From what the loops come to, with the size of a file that they use.
Fine-Captured :
    (limits : Limits) (segment_bytes : ℕ) (w input : List ℕ) (p : Pass)
    → 1 ≤ segment_bytes
    → segment_bytes ≤ 9007199254740991
    → limits.maximum ≤ 9007199254740991
    → length w ≤ limits.maximum
    → Fine (record limits { segment_bytes = segment_bytes }) w input p
    → Finished p
    → Captured limits w input p
unfolding Fine Finished Ending
Fine-Captured limits b w input (going rest s) pos safe limit small (portion, split, state, left)
      done =
    let total = state_total b limits.maximum (w ++ portion) s state in
    record {
      segment_bytes = b;
      portion = portion;
      rest = rest;
      split = split;
      readable =
          Kept-Readable b (w ++ portion) s.directory pos safe (omega arith)
            (State-Kept b limits.maximum (w ++ portion) s state);
      bounded = omega arith;
      ending = done;
    }
Fine-Captured limits b w input (halted transcript_limit s) pos safe limit small put done =
    let full = put.known in
    Put-Captured limits b w input (halted transcript_limit s) (Stopped limits s transcript_limit)
      pos safe limit put (omega arith) (omega arith)
Fine-Captured limits b w input (halted storage_reserve s) pos safe limit small put done =
    let (fits, asked, marked) = put.known in
    Put-Captured limits b w input (halted storage_reserve s) (Stopped limits s storage_reserve) pos
      safe limit put fits (asked, marked)
Fine-Captured limits b w input (failed e s) pos safe limit small put done =
    let (fits, is_limit, full) = put.known in
    Put-Captured limits b w input (failed e s) (Failed (record limits { segment_bytes = b }) e) pos
      safe limit put fits (is_limit, full)
Fine-Captured limits b w input (out_of_fuel s) pos safe limit small h done = absurd h

-- A call that finds the transcript at its limit.
full-Captured :
    (limits : Limits) (segment_bytes : ℕ) (input : List ℕ) (d : Directory) (inventory : Inventory)
    → inspect_transcript_segments d segment_bytes ≡ ok inventory
    → limits.maximum ≤ inventory.size
    → Captured limits
        (whole d)
        input
        (halted transcript_limit (begin_capture limits.maximum inventory d))
unfolding Ending begin_capture
full-Captured limits segment_bytes input d inventory h full =
    let (laid, total) = inspect-Laid d segment_bytes inventory h in
    record {
      segment_bytes = segment_bytes;
      portion = [];
      rest = input;
      split = refl;
      readable = record {
        inventory = inventory;
        inspected = h;
        measured = total ∙ ap length (sym (append-nil (whole d)));
        content = sym (append-nil (whole d));
      };
      bounded = omega (arith, length-append (whole d) []);
      ending = omega (arith, total, length-append (whole d) []);
    }

-- A call that has still something to write, in the state that it begins in.
begun-Captured :
    (limits : Limits) (space : ℕ → Option Space) (chunks : List (List ℕ)) (segment_bytes : ℕ)
    (w : List ℕ) (s : Capture)
    → 1 ≤ segment_bytes
    → segment_bytes ≤ 9007199254740991
    → limits.maximum ≤ 9007199254740991
    → length w < limits.maximum
    → State segment_bytes limits.maximum w s
    → 1 ≤ s.remaining
    → Captured limits w
        (joined chunks)
        (capture_chunks (record limits { segment_bytes = segment_bytes }) space chunks s)
begun-Captured limits space chunks segment_bytes w s pos safe limit small state left =
    let (fine, done) =
      capture_chunks-Fine (record limits { segment_bytes = segment_bytes }) space w chunks s pos
        state left in
    Fine-Captured limits segment_bytes w (joined chunks)
      (capture_chunks (record limits { segment_bytes = segment_bytes }) space chunks s) pos safe
      limit (omega arith) fine done

inspected :
    (limits : Limits)
    → invalid_limits limits ≡ false
    → (1 ≤ min limits.segment_bytes limits.maximum)
      × (1 ≤ limits.maximum)
      × (limits.maximum ≤ 9007199254740991)
inspected limits h = (ground arith, ground arith, ground arith)

from-Captured :
    (limits : Limits) (space : ℕ → Option Space) (chunks : List (List ℕ)) (d : Directory)
    (inventory : Inventory)
    → invalid_limits limits ≡ false
    → inspect_transcript_segments d (min limits.segment_bytes limits.maximum) ≡ ok inventory
    → Captured limits (whole d) (joined chunks) (capture_from limits space chunks d inventory)
unfolding capture_from begin_capture
from-Captured limits space chunks d inventory valid h =
    let (pos, some_room, limit) = inspected limits valid in
    let (laid, total) = inspect-Laid d (min limits.segment_bytes limits.maximum) inventory h in
    elim (lt-cases inventory.size limits.maximum) [
      | inl small ↦
          let begun =
            inspect-Begun limits.maximum (min limits.segment_bytes limits.maximum) d inventory pos
              (omega arith) h (omega arith) in
          let more : eqb (limits.maximum - inventory.size) 0 ≡ false = ground arith in
          rw more (
            begun-Captured limits space chunks
              (settled_bytes limits.maximum (min limits.segment_bytes limits.maximum) inventory)
              (whole d) (begin_capture limits.maximum inventory d) begun.pos
              (omega (arith, begun.fits)) limit (omega arith) begun.state (omega arith))
      | inr full ↦
          let none_left : eqb (limits.maximum - inventory.size) 0 ≡ true = ground arith in
          rw none_left (
            full-Captured limits (min limits.segment_bytes limits.maximum) (joined chunks) d
              inventory h full)
    ]

-- A capture with valid limits of a transcript that has an inventory comes to an end, and never runs out of
-- fuel. Then the files have an inventory, and hold what they held before with a first part of the input
-- after it; the bytes are at most the maximum, or those that there were. The input is written whole,
-- unless the maximum is reached, or all 1,025 files are full, or a reserve is asked for and the free space
-- is told to be less than the reserve, a portion of the input and 4,096 bytes, or cannot be told; then the
-- mark is set.
pub capture_transcript-Captured :
    (limits : Limits) (space : ℕ → Option Space) (chunks : List (List ℕ)) (d : Directory)
    (inventory : Inventory)
    → invalid_limits limits ≡ false
    → inspect_transcript_segments d (min limits.segment_bytes limits.maximum) ≡ ok inventory
    → (p : Pass) × (capture_transcript limits space chunks d ≡ ok p)
      × Captured limits (whole d) (joined chunks) p
      × Scarce limits.minimum_free space (length (joined chunks)) p
unfolding capture_transcript
capture_transcript-Captured limits space chunks d inventory valid h = (
  capture_from limits space chunks d inventory,
  rw (valid, h) refl,
  from-Captured limits space chunks d inventory valid h,
  capture_from-Scarce limits space chunks d inventory,
)
