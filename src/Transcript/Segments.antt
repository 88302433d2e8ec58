-- ===== src/Transcript/Segments.antt =====
-- scripts/transcript-segments.mjs: the files of one transcript, their inventory and the read of a part.
-- The directory that holds them is a value, at one moment: readdir, lstat, open and read look it up.
use mathlib.Core.Option
use dp_beget_bridge.Base.{
  ltb, leb, eqb, if◌then◌else◌, is_some, length, all, is_digit, take, drop, Result, ok, err,
  bind_result, find, ℕ, zero, suc, ◌+◌, ◌-◌, ◌/◌, ◌%◌, min, Bool, true, false, not, ◌&&◌, ◌||◌,
  Option, none, some, List, [], ◌∷◌, ◌++◌,
}

pub data TranscriptError : Type 0 where
  invalid_segment_size invalid_inventory unsafe_segment empty_first_file segment_missing :
      TranscriptError
  invalid_segment_length unsafe_byte_count index_over_limit : TranscriptError
  invalid_read_bounds segment_gap changed_during_reading incomplete_read : TranscriptError
  enoent eexist eloop invalid_capture_limits : TranscriptError

pub data FileKind : Type 0 where
  regular symbolic_link other_kind : FileKind

-- What lstat, stat and read tell of a file.
pub record Node : Type 0 where
  pub kind : FileKind
  pub links : ℕ
  pub bytes : List ℕ

-- A sibling `<output>.part-<suffix>`; a suffix is its characters.
pub record Part : Type 0 where
  pub suffix : List ℕ
  pub node : Node

pub record Directory : Type 0 where
  pub first : Option Node
  pub parts : List Part
  -- `<output>.capture-stopped`
  pub stop_marker : Bool

pub data Filename : Type 0 where
  output_path : Filename
  part_path : List ℕ → Filename

pub record Segment : Type 0 where
  pub filename : Filename
  pub start : ℕ
  pub size : ℕ

pub record Inventory : Type 0 where
  pub segments : List Segment
  pub size : ℕ
  pub missing : Bool
  pub segment_bytes : ℕ

abbrev pub default_segment_bytes : ℕ
default_segment_bytes = 8388608

abbrev pub max_segments : ℕ
max_segments = 1024

-- Number.isSafeInteger, of a number that is not negative
abbrev pub is_safe_integer : ℕ → Bool
is_safe_integer n = leb n 9007199254740991

-- String(index).padStart(6, "0"), of an index below a million
unfoldable pub padded : ℕ → List ℕ
padded n =
    (n / 100000 % 10 + 48)
    ∷ (n / 10000 % 10 + 48)
    ∷ (n / 1000 % 10 + 48)
    ∷ (n / 100 % 10 + 48)
    ∷ (n / 10 % 10 + 48)
    ∷ (n % 10 + 48)
    ∷ []

unfoldable pub segment_path : ℕ → Result TranscriptError Filename
unfolding padded
segment_path index =
    if ltb index 1 || ltb max_segments index
    then err index_over_limit
    else ok (part_path (padded index))

abbrev pub is_regular : FileKind → Bool
is_regular regular = true
is_regular symbolic_link = false
is_regular other_kind = false

abbrev pub is_plain : Node → Bool
is_plain node = is_regular node.kind && eqb node.links 1

unfoldable pub regular_size : Option Node → Result TranscriptError ℕ
regular_size none = err enoent
regular_size (some node) =
    if is_plain node && is_safe_integer (length node.bytes)
    then ok (length node.bytes)
    else err unsafe_segment

abbrev pub same_suffix : List ℕ → List ℕ → Bool
same_suffix [] [] = true
same_suffix [] (d ∷ ds) = false
same_suffix (c ∷ cs) [] = false
same_suffix (c ∷ cs) (d ∷ ds) = eqb c d && same_suffix cs ds

abbrev pub has_suffix : List ℕ → Part → Bool
has_suffix suffix part = same_suffix part.suffix suffix

unfoldable pub lookup : Filename → Directory → Option Node
lookup output_path d = d.first
lookup (part_path suffix) d = Option.map (λ part. part.node) (find (has_suffix suffix) d.parts)

-- ^\d{6}$
abbrev pub is_six_digits : List ℕ → Bool
is_six_digits cs = eqb (length cs) 6 && all is_digit cs

abbrev pub is_numbered : Part → Bool
is_numbered part = is_six_digits part.suffix

abbrev pub with_segment :
    Segment → Result TranscriptError (List Segment × ℕ) → Result TranscriptError (List Segment × ℕ)
with_segment segment (ok r) = ok (segment ∷ r.0, r.1)
with_segment segment (err e) = err e

-- The tests of the loop on one numbered file that is there.
unfoldable pub check_length : (actual last index size length : ℕ) → Result TranscriptError ℕ
check_length actual last index size length =
    if ltb actual length || (ltb index last && not (eqb length actual))
    then err invalid_segment_length
    else if not (is_safe_integer (size + length))
    then err unsafe_byte_count
    else ok length

-- `numbered.includes(path.basename(filename))`, then lstat
unfoldable pub listed : Filename → Directory → Result TranscriptError ℕ
unfolding lookup regular_size
listed filename d =
    if is_some (lookup filename d) then regular_size (lookup filename d) else err segment_missing

-- The loop from `index` on, `left` files before its end; `size` is the bytes before it.
unfoldable pub number_segments :
    Directory → (actual last left index size : ℕ) → Result TranscriptError (List Segment × ℕ)
unfolding segment_path listed check_length
number_segments d actual last zero index size = ok ([], size)
number_segments d actual last (suc left) index size = bind_result (segment_path index) (λ filename.
    bind_result (listed filename d) (λ found.
      bind_result (check_length actual last index size found) (λ bytes.
        with_segment (record { filename = filename; start = size; size = bytes })
          (number_segments d actual last left (index + 1) (size + bytes)))))

abbrev pub inventory_of :
    ℕ → Segment → Result TranscriptError (List Segment × ℕ) → Result TranscriptError Inventory
inventory_of actual first (ok r) =
    ok (record { segments = first ∷ r.0; size = r.1; missing = false; segment_bytes = actual })
inventory_of actual first (err e) = err e

-- From the size of the first file on.
unfoldable pub inspect_chain : Directory → ℕ → ℕ → Result TranscriptError Inventory
unfolding number_segments
inspect_chain d segment_bytes first =
    let last = length d.parts in
    let actual = if ltb 0 last then first else segment_bytes in
    if ltb 0 last && ltb actual 1
    then err empty_first_file
    else inventory_of actual (record { filename = output_path; start = 0; size = first })
        (number_segments d actual last last 1 first)

abbrev pub no_transcript : ℕ → Inventory
no_transcript segment_bytes = record {
  segments = [];
  size = 0;
  missing = true;
  segment_bytes = segment_bytes;
}

abbrev pub missing_first : Directory → ℕ → Result TranscriptError Inventory
missing_first d segment_bytes =
    if ltb 0 (length d.parts) then err enoent else ok (no_transcript segment_bytes)

-- `catch (error)`: only ENOENT with no numbered file is no error
abbrev pub inspect_first : Directory → ℕ → Option Node → Result TranscriptError Inventory
inspect_first d segment_bytes none = missing_first d segment_bytes
inspect_first d segment_bytes (some node) =
    bind_result (regular_size (some node)) (inspect_chain d segment_bytes)

unfoldable pub inspect_transcript_segments : Directory → ℕ → Result TranscriptError Inventory
unfolding regular_size inspect_chain
inspect_transcript_segments d segment_bytes =
    if not (is_safe_integer segment_bytes) || ltb segment_bytes 1
    then err invalid_segment_size
    else if ltb max_segments (length d.parts) || not (all is_numbered d.parts)
    then err invalid_inventory
    else inspect_first d segment_bytes d.first

-- open with O_NOFOLLOW
abbrev pub open_node : Option Node → Result TranscriptError Node
open_node none = err enoent
open_node (some node) = elim node.kind [ symbolic_link ↦ err eloop | _ ↦ ok node ]

-- The bytes that one segment gives to a read: `place` is the place in it.
unfoldable pub read_part : Option Node → (size place wanted : ℕ) → Result TranscriptError (List ℕ)
read_part found size place wanted = bind_result (open_node found) (λ node.
    if not (is_plain node) || ltb (length node.bytes) size
    then err changed_during_reading
    else let got = take wanted (drop place node.bytes) in
      if eqb (length got) wanted then ok got else err changed_during_reading)

abbrev pub then_bytes :
    Result TranscriptError (List ℕ)
    → Result TranscriptError (List ℕ)
    → Result TranscriptError (List ℕ)
then_bytes (ok got) (ok rest) = ok (got ++ rest)
then_bytes (ok got) (err e) = err e
then_bytes (err e) rest = err e

-- The loop of a read, with what it has still to copy; the bytes copied before are not in its result.
unfoldable pub read_from :
    Directory → List Segment → (offset length copied : ℕ) → Result TranscriptError (List ℕ)
unfolding read_part lookup
read_from d [] offset length copied = if eqb copied length then ok [] else err incomplete_read
read_from d (entry ∷ entries) offset length copied =
    let place = offset + copied - entry.start in
    let wanted = min (length - copied) (entry.size - place) in
    let past = read_from d entries offset length copied in
    let next = read_from d entries offset length (copied + wanted) in
    if eqb copied length
    then ok []
    else if leb (entry.start + entry.size) (offset + copied)
    then past
    else if ltb (offset + copied) entry.start
    then err segment_gap
    else then_bytes (read_part (lookup entry.filename d) entry.size place wanted) next

-- the most that one read gives, a page and the bytes of a character that it may cut
abbrev pub max_read : ℕ
max_read = 262147

unfoldable pub read_transcript_bytes :
    Directory → List Segment → (offset length : ℕ) → Result TranscriptError (List ℕ)
unfolding read_from
read_transcript_bytes d segments offset length =
    if not (is_safe_integer offset) || not (is_safe_integer length) || ltb max_read length
    then err invalid_read_bounds
    else read_from d segments offset length 0
