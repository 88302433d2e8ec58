-- ===== src/Tests/Transcript.antt =====
-- The inventory, the reads and the capture of a transcript at concrete inputs.
use dp_beget_bridge.Base.{
  Bool-cases, length, take, drop, Result, ok, err, find, update, ℕ, ◌+◌, ◌≤◌, ◌≡◌, refl, sym, inl,
  inr, false, none, some, List, [], ◌∷◌, ◌++◌, arith,
}
use dp_beget_bridge.Transcript.Segments.{
  TranscriptError, invalid_segment_length, regular, Node, Directory, output_path, part_path,
  Inventory, same_suffix, lookup, inspect_transcript_segments, max_read, read_transcript_bytes,
}
use dp_beget_bridge.Transcript.Layout.{whole, Grown}
use dp_beget_bridge.Transcript.Reading.{read-inspect}
use dp_beget_bridge.Transcript.Capture.{Limits, Pass, invalid_limits, capture_transcript}
use dp_beget_bridge.Transcript.Inventories.{joined}
use dp_beget_bridge.Transcript.Scarcity.{Scarce}
use dp_beget_bridge.Transcript.Captured.{
  directory_of, Ending, Captured, capture_transcript-Captured,
}
use dp_beget_bridge.Transcript.Stored.{read_transcript_bytes-capture_transcript}

abbrev pub plain : List ℕ → Node
plain bytes = record { kind = regular; links = 1; bytes = bytes }

abbrev pub two_files : Directory
two_files = record {
  first = some (plain (1 ∷ 2 ∷ []));
  parts = record { suffix = 48 ∷ 48 ∷ 48 ∷ 48 ∷ 48 ∷ 49 ∷ []; node = plain (3 ∷ []) } ∷ [];
  stop_marker = false;
}

abbrev pub two_files_later : Directory
two_files_later = record {
  first = some (plain (1 ∷ 2 ∷ []));
  parts = record { suffix = 48 ∷ 48 ∷ 48 ∷ 48 ∷ 48 ∷ 49 ∷ []; node = plain (3 ∷ 4 ∷ []) } ∷ [];
  stop_marker = false;
}

abbrev pub inventory : Inventory
inventory = record {
  segments =
      record { filename = output_path; start = 0; size = 2 }
      ∷ record { filename = part_path (48 ∷ 48 ∷ 48 ∷ 48 ∷ 48 ∷ 49 ∷ []); start = 2; size = 1 }
      ∷ [];
  size = 3;
  missing = false;
  segment_bytes = 2;
}

pub inspected : inspect_transcript_segments two_files 8 ≡ ok inventory
unfolding inspect_transcript_segments find
inspected = refl

unequal_files :
    inspect_transcript_segments (record two_files_later { first = some (plain (1 ∷ [])) }) 8
    ≡ err invalid_segment_length
unfolding inspect_transcript_segments find
unequal_files = refl

no_such_part :
    (suffix : List ℕ) (node : Node)
    → lookup (part_path suffix) two_files ≡ some node
    → (more : List ℕ) × (lookup (part_path suffix) two_files_later
        ≡ some (record node { bytes = node.bytes ++ more }))
unfolding lookup find
no_such_part suffix node h =
    elim (Bool-cases (same_suffix (48 ∷ 48 ∷ 48 ∷ 48 ∷ 48 ∷ 49 ∷ []) suffix)) [
      | inl e ↦ let same : plain (3 ∷ []) ≡ node = ground arith in (4 ∷ [], rw (e, sym same) refl)
      | inr e ↦ absurd (ground arith)
    ]

pub later-Grown : Grown two_files two_files_later
unfolding lookup
later-Grown = record {
  grows = λ filename node h.
      elim filename
          as (λ f.
            lookup f two_files ≡ some node
            → (more : List ℕ) × (lookup f two_files_later
                ≡ some (record node { bytes = node.bytes ++ more }))) [
                  | output_path ↦
                      λ k. let same : plain (1 ∷ 2 ∷ []) ≡ node = cc k in ([], rw (sym same) refl)
                  | part_path suffix ↦ λ k. no_such_part suffix node k
                ]
        h;
}

read-inspect_example :
    read_transcript_bytes two_files_later inventory.segments 1 2
    ≡ ok (take 2 (drop 1 (whole two_files)))
read-inspect_example =
    read-inspect two_files two_files_later 8 inventory 1 2 inspected later-Grown (omega arith)
      (omega arith)

abbrev limits : Limits
limits = record { maximum = 6; minimum_free = 0; segment_bytes = 2 }

abbrev kept_bytes : Result TranscriptError Pass → Result TranscriptError (List ℕ)
kept_bytes (ok p) = ok (whole (directory_of p))
kept_bytes (err e) = err e

valid : invalid_limits limits ≡ false
valid = refl

inspected_first : inspect_transcript_segments two_files 2 ≡ ok inventory
unfolding inspect_transcript_segments find
inspected_first = refl

-- The part that is not full is filled, and two more are made, until the maximum is reached.
captured :
    kept_bytes (capture_transcript limits (λ n. none) ((5 ∷ 6 ∷ []) ∷ (7 ∷ 8 ∷ []) ∷ []) two_files)
    ≡ ok (1 ∷ 2 ∷ 3 ∷ 5 ∷ 6 ∷ 7 ∷ [])
unfolding capture_transcript inspect_transcript_segments whole find take drop update
captured = refl

capture_transcript-Captured_example :
    (p : Pass) × (capture_transcript limits (λ n. none) ((5 ∷ 6 ∷ []) ∷ (7 ∷ 8 ∷ []) ∷ []) two_files
      ≡ ok p)
    × Captured limits (whole two_files) (joined ((5 ∷ 6 ∷ []) ∷ (7 ∷ 8 ∷ []) ∷ [])) p
    × Scarce limits.minimum_free (λ n. none) (length (joined ((5 ∷ 6 ∷ []) ∷ (7 ∷ 8 ∷ []) ∷ []))) p
capture_transcript-Captured_example =
    capture_transcript-Captured limits (λ n. none) ((5 ∷ 6 ∷ []) ∷ (7 ∷ 8 ∷ []) ∷ []) two_files
      inventory valid inspected_first

read_transcript_bytes-capture_transcript_example :
    (p : Pass) × (segment_bytes : ℕ) × (later : Inventory) × (portion rest : List ℕ)
    × (capture_transcript limits (λ n. none) ((5 ∷ 6 ∷ []) ∷ (7 ∷ 8 ∷ []) ∷ []) two_files ≡ ok p)
    × (joined ((5 ∷ 6 ∷ []) ∷ (7 ∷ 8 ∷ []) ∷ []) ≡ portion ++ rest)
    × (inspect_transcript_segments (directory_of p) segment_bytes ≡ ok later)
    × Ending limits segment_bytes (length (whole two_files ++ portion)) rest p
    × Scarce limits.minimum_free (λ n. none) (length (joined ((5 ∷ 6 ∷ []) ∷ (7 ∷ 8 ∷ []) ∷ []))) p
    × ((offset wanted : ℕ)
        → wanted ≤ max_read
        → offset + wanted ≤ length (whole two_files ++ portion)
        → read_transcript_bytes (directory_of p) later.segments offset wanted
          ≡ ok (take wanted (drop offset (whole two_files ++ portion))))
read_transcript_bytes-capture_transcript_example =
    read_transcript_bytes-capture_transcript limits (λ n. none) ((5 ∷ 6 ∷ []) ∷ (7 ∷ 8 ∷ []) ∷ [])
      two_files inventory valid inspected_first
