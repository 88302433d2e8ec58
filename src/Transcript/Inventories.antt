-- ===== src/Transcript/Inventories.antt =====
-- scripts/transcript-segments.mjs: the inventory of a directory that holds given files, and the files of
-- a directory that has an inventory.
use dp_beget_bridge.Base.{
  lt-cases, length, all, length-append, ok, bind_result, ℕ, zero, suc, ◌+◌, ◌≤◌, ◌<◌, ◌≡◌, refl,
  sym, ap, ◌∙◌, inl, inr, true, false, some, List, [], ◌∷◌, ◌++◌, arith,
}
use dp_beget_bridge.Transcript.Segments.{
  Node, Directory, Filename, output_path, Segment, Inventory, segment_path, is_plain, regular_size,
  lookup, is_numbered, check_length, listed, number_segments, inventory_of, inspect_chain,
  inspect_first, inspect_transcript_segments,
}
use dp_beget_bridge.Transcript.Names.{name_at}
use dp_beget_bridge.Transcript.Files.{File, Files, Holds}
use dp_beget_bridge.Transcript.Layout.{chain_inventory}

-- the bytes of the files, one after another
unfoldable pub joined : List (List ℕ) → List ℕ
joined [] = []
joined (bytes ∷ files) = bytes ++ joined files

-- Files of one size, but for the last one, which may be shorter.
unfoldable pub Sized : ℕ → List (List ℕ) → Type 0
Sized segment_bytes [] = Unit
Sized segment_bytes (bytes ∷ []) = length bytes ≤ segment_bytes
Sized segment_bytes (bytes ∷ next ∷ files) =
    (length bytes ≡ segment_bytes) × Sized segment_bytes (next ∷ files)

unfoldable pub segments_of : ℕ → ℕ → List (List ℕ) → List Segment
unfolding name_at
segments_of index size [] = []
segments_of index size (bytes ∷ files) =
    record { filename = name_at index; start = size; size = length bytes }
    ∷ segments_of (suc index) (size + length bytes) files

unfoldable pub inventory_of_files : ℕ → List (List ℕ) → Inventory
unfolding segments_of joined
inventory_of_files segment_bytes files = record {
  segments = segments_of 0 0 files;
  size = length (joined files);
  missing = false;
  segment_bytes = segment_bytes;
}

plain_size :
    (node : Node)
    → is_plain node ≡ true
    → length node.bytes ≤ 9007199254740991
    → regular_size (some node) ≡ ok (length node.bytes)
unfolding regular_size
plain_size node h k = ground arith

listed-File :
    (d : Directory) (name : Filename) (bytes : List ℕ)
    → File d name bytes
    → length bytes ≤ 9007199254740991
    → listed name d ≡ ok (length bytes)
unfolding listed
listed-File d name bytes file h = rw file.found (
    plain_size file.node file.plain (omega (arith, ap length file.same))
    ∙ ap (λ xs. ok (length xs)) file.same)

pub segment_path-name_at :
    (index : ℕ) → 1 ≤ index → index ≤ 1024 → segment_path index ≡ ok (name_at index)
unfolding segment_path name_at
segment_path-name_at zero h k = absurd (omega arith)
segment_path-name_at (suc n) h k = ground arith

check_length_ok :
    (actual last index size length : ℕ)
    → length ≤ actual
    → (index < last → length ≡ actual)
    → size + length ≤ 9007199254740991
    → check_length actual last index size length ≡ ok length
unfolding check_length
check_length_ok actual last index size length h k safe = elim (lt-cases index last) [
  | inl more ↦ let e = k more in ground arith
  | inr done ↦ ground arith
]

Sized-first :
    (segment_bytes : ℕ) (bytes : List ℕ) (files : List (List ℕ))
    → Sized segment_bytes (bytes ∷ files)
    → (length bytes ≤ segment_bytes)
      × (1 ≤ length files → length bytes ≡ segment_bytes)
      × Sized segment_bytes files
unfolding Sized
Sized-first segment_bytes bytes [] h = (h, λ k. absurd (omega arith), tt)
Sized-first segment_bytes bytes (next ∷ files) (e, h) = (omega arith, λ k. e, h)

number_segments-Files :
    (d : Directory) (actual last index size : ℕ) (files : List (List ℕ))
    → Files d index files
    → Sized actual files
    → 1 ≤ index
    → index + length files ≡ suc last
    → last ≤ 1024
    → size + length (joined files) ≤ 9007199254740991
    → number_segments d actual last (length files) index size
      ≡ ok (segments_of index size files, size + length (joined files))
unfolding number_segments Files segments_of joined
number_segments-Files d actual last index size [] tt sized low e high safe =
    let same : size + 0 ≡ size = omega arith in ap (λ n. ok ([], n)) (sym same)
number_segments-Files d actual last index size (bytes ∷ files) (file, rest) sized low e high safe =
    let total = length-append bytes (joined files) in
    let (fits, full, sized') = Sized-first actual bytes files sized in
    let here : index + 1 ≡ suc index = omega arith in
    let later =
      number_segments-Files d actual last (suc index) (size + length bytes) files rest sized'
        (omega arith) (omega arith) high (omega (arith, total)) in
    let sum : size + length bytes + length (joined files) ≡ size + length (bytes ++ joined files) =
      omega (arith, total) in
    rw
      (
        segment_path-name_at index low (omega arith),
        listed-File d (name_at index) bytes file (omega (arith, total)),
        check_length_ok actual last index size (length bytes) fits (λ k. full (omega arith))
            (omega (arith, total)),
        here,
        later,
        sum,
      )
      refl

inspect_chain_lem :
    (d : Directory) (segment_bytes first : ℕ)
    → 1 ≤ segment_bytes
    → (1 ≤ length d.parts → first ≡ segment_bytes)
    → inspect_chain d segment_bytes first
      ≡ inventory_of segment_bytes
          (record { filename = output_path; start = 0; size = first })
          (number_segments d segment_bytes (length d.parts) (length d.parts) 1 first)
unfolding inspect_chain
inspect_chain_lem d segment_bytes first pos full = elim (lt-cases 0 (length d.parts)) [
  | inl more ↦ let e : segment_bytes ≡ first = sym (full (omega arith)) in rw e (ground arith)
  | inr none_there ↦ ground arith
]

inspect_passed :
    (d : Directory) (segment_bytes : ℕ)
    → 1 ≤ segment_bytes
    → segment_bytes ≤ 9007199254740991
    → length d.parts ≤ 1024
    → all is_numbered d.parts ≡ true
    → inspect_transcript_segments d segment_bytes ≡ inspect_first d segment_bytes d.first
unfolding inspect_transcript_segments
inspect_passed d segment_bytes pos safe few numbered = ground arith

-- The inventory of a directory that holds these files.
pub inspect-Holds :
    (d : Directory) (segment_bytes : ℕ) (bytes : List ℕ) (files : List (List ℕ))
    → Holds d (bytes ∷ files)
    → Sized segment_bytes (bytes ∷ files)
    → 1 ≤ segment_bytes
    → segment_bytes ≤ 9007199254740991
    → length files ≤ 1024
    → length (joined (bytes ∷ files)) ≤ 9007199254740991
    → inspect_transcript_segments d segment_bytes
      ≡ ok (inventory_of_files segment_bytes (bytes ∷ files))
unfolding joined Files inventory_of_files name_at lookup
inspect-Holds d segment_bytes bytes files holds sized pos safe few total =
    let (file, rest) = holds.all_files in
    let (fits, full, sized') = Sized-first segment_bytes bytes files sized in
    let count : length d.parts ≡ length files = omega (arith, holds.counted) in
    let sum = length-append bytes (joined files) in
    let begins : length bytes ≡ 0 + length bytes = omega arith in
    let there : d.first ≡ some file.node = file.found in
    let size_is : regular_size (some file.node) ≡ ok (length bytes) =
      plain_size file.node file.plain (omega (arith, ap length file.same, sum))
      ∙ ap (λ xs. ok (length xs)) file.same in
    inspect_passed d segment_bytes pos safe (omega arith) holds.numbered
    ∙ ap (inspect_first d segment_bytes) there
    ∙ ap (λ r. bind_result r (inspect_chain d segment_bytes)) size_is
    ∙ inspect_chain_lem d segment_bytes (length bytes) pos (λ k. full (omega arith))
    ∙ ap
        (λ k.
          inventory_of segment_bytes
            (record { filename = output_path; start = 0; size = length bytes })
            (number_segments d segment_bytes k k 1 (length bytes)))
        count
    ∙ ap
        (inventory_of segment_bytes
          (record { filename = output_path; start = 0; size = length bytes }))
        (number_segments-Files d segment_bytes (length files) 1 (length bytes) files rest sized'
          (omega arith) (omega arith) few (omega (arith, sum)))
    ∙ ap
        (λ n. ok (
          chain_inventory segment_bytes (length bytes)
            (segments_of 1 n files, length bytes + length (joined files))))
        begins
    ∙ ap
        (λ n. ok (
          chain_inventory segment_bytes (length bytes) (segments_of 1 (0 + length bytes) files, n)))
        (sym sum)
