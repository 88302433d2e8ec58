-- ===== src/Transcript/Stored.antt =====
-- scripts/transcript-capture.mjs with scripts/transcript-segments.mjs: what a capture has written is what
-- later reads give.
use mathlib.Core.List.{append-nil}
use dp_beget_bridge.Base.{
  length, take, drop, ok, ℕ, ◌+◌, ◌≤◌, min, ◌≡◌, sym, ap, subst, ◌∙◌, false, Option, some, List, [],
  ◌++◌, arith,
}
use dp_beget_bridge.Transcript.Segments.{
  Directory, Inventory, lookup, inspect_transcript_segments, max_read, read_transcript_bytes,
}
use dp_beget_bridge.Transcript.Capture.{Space, Limits, Pass, invalid_limits, capture_transcript}
use dp_beget_bridge.Transcript.Layout.{whole, Grown}
use dp_beget_bridge.Transcript.Inventories.{joined}
use dp_beget_bridge.Transcript.Scarcity.{Scarce}
use dp_beget_bridge.Transcript.Captured.{Ending, directory_of, capture_transcript-Captured}
use dp_beget_bridge.Transcript.Reading.{read-inspect}

Grown-same : (d : Directory) → Grown d d
Grown-same d = record {
  grows = λ filename node h. (
    [],
    subst (λ xs. lookup filename d ≡ some (record node { bytes = xs }))
        (sym (append-nil node.bytes)) h,
  );
}

-- A capture followed by a read: of what was there and the first part of the input behind it, every part
-- that the limit of a read allows is read back, across the ends of the files. This part is the whole
-- input, unless the maximum is reached, or all 1,025 files are full, or a reserve is asked for and the free
-- space is told to be less than the reserve, a portion of the input and 4,096 bytes, or cannot be told.
pub read_transcript_bytes-capture_transcript :
    (limits : Limits) (space : ℕ → Option Space) (chunks : List (List ℕ)) (d : Directory)
    (inventory : Inventory)
    → invalid_limits limits ≡ false
    → inspect_transcript_segments d (min limits.segment_bytes limits.maximum) ≡ ok inventory
    → (p : Pass) × (segment_bytes : ℕ) × (later : Inventory) × (portion rest : List ℕ)
      × (capture_transcript limits space chunks d ≡ ok p)
      × (joined chunks ≡ portion ++ rest)
      × (inspect_transcript_segments (directory_of p) segment_bytes ≡ ok later)
      × Ending limits segment_bytes (length (whole d ++ portion)) rest p
      × Scarce limits.minimum_free space (length (joined chunks)) p
      × ((offset wanted : ℕ)
          → wanted ≤ max_read
          → offset + wanted ≤ length (whole d ++ portion)
          → read_transcript_bytes (directory_of p) later.segments offset wanted
            ≡ ok (take wanted (drop offset (whole d ++ portion))))
read_transcript_bytes-capture_transcript limits space chunks d inventory valid h =
    let (p, ends, captured, scarce) =
      capture_transcript-Captured limits space chunks d inventory valid h in
    let stored = captured.readable in
    (
      p,
      captured.segment_bytes,
      stored.inventory,
      captured.portion,
      captured.rest,
      ends,
      captured.split,
      stored.inspected,
      captured.ending,
      scarce,
      λ offset wanted short within.
          read-inspect (directory_of p) (directory_of p) captured.segment_bytes stored.inventory
            offset wanted stored.inspected (Grown-same (directory_of p)) short
            (omega (arith, stored.measured))
          ∙ ap (λ xs. ok (take wanted (drop offset xs))) stored.content,
    )
