-- ===== src/Transcript/Files.antt =====
-- scripts/transcript-capture.mjs: a directory that holds files with given bytes, in the order of their
-- indices, and how appending to the last one and creating the next one change it.
use dp_beget_bridge.Base.{
  Bool-cases, length, all, length-append, update, length-update, ℕ, zero, suc, ◌+◌, ◌≤◌, ◌<◌, ◌≡◌,
  refl, sym, ap, ◌∙◌, inl, inr, true, none, some, List, [], ◌∷◌, ◌++◌, arith,
}
use dp_beget_bridge.Transcript.Segments.{
  Node, Part, Directory, Filename, output_path, part_path, padded, is_plain, has_suffix, lookup,
  is_six_digits, is_numbered,
}
use dp_beget_bridge.Transcript.Capture.{empty_node, longer, longer_part, create_file, append_bytes}
use dp_beget_bridge.Transcript.Names.{
  name_at, lookup-append_same, lookup-append_other, lookup-create_same, lookup-create_other,
}

-- A plain file of this name that holds these bytes.
pub record File (d : Directory) (name : Filename) (bytes : List ℕ) : Type 0 where
  pub node : Node
  pub found : lookup name d ≡ some node
  pub plain : is_plain node ≡ true
  pub same : node.bytes ≡ bytes

-- the files from an index on
unfoldable pub Files : Directory → ℕ → List (List ℕ) → Type 0
unfolding name_at
Files d index [] = Unit
Files d index (bytes ∷ rest) = File d (name_at index) bytes × Files d (suc index) rest

-- The files of the transcript are these, and no others.
pub record Holds (d : Directory) (files : List (List ℕ)) : Type 0 where
  pub all_files : Files d 0 files
  pub counted : suc (length d.parts) ≡ length files
  pub numbered : all is_numbered d.parts ≡ true

File-append_same :
    (d : Directory) (name : Filename) (bytes more : List ℕ)
    → File d name bytes
    → File (append_bytes name more d) name (bytes ++ more)
File-append_same d name bytes more file = record {
  node = longer more file.node;
  found = lookup-append_same name more d file.node file.found;
  plain = file.plain;
  same = ap (λ xs. xs ++ more) file.same;
}

File-elsewhere :
    (d d' : Directory) (name : Filename) (bytes : List ℕ)
    → lookup name d' ≡ lookup name d
    → File d name bytes
    → File d' name bytes
File-elsewhere d d' name bytes e file = record {
  node = file.node;
  found = e ∙ file.found;
  plain = file.plain;
  same = file.same;
}

Files-append :
    (d : Directory) (index last : ℕ) (before : List (List ℕ)) (bytes more : List ℕ)
    → last ≡ index + length before
    → last < 1000000
    → Files d index (before ++ bytes ∷ [])
    → Files (append_bytes (name_at last) more d) index (before ++ (bytes ++ more) ∷ [])
unfolding Files
Files-append d index last [] bytes more e h (file, tt) =
    let here : last ≡ index = omega arith in
    rw here (File-append_same d (name_at index) bytes more file, tt)
Files-append d index last (first ∷ before) bytes more e h (file, files) = (
  File-elsewhere d (append_bytes (name_at last) more d) (name_at index) first
      (lookup-append_other index last more d (omega arith) h (λ k. absurd (omega arith))) file,
  Files-append d (suc index) last before bytes more (omega arith) h files,
)

Files-create :
    (d : Directory) (index next : ℕ) (files : List (List ℕ))
    → next ≡ index + length files
    → lookup (name_at next) d ≡ none
    → Files d index files
    → Files (create_file (name_at next) d) index (files ++ [] ∷ [])
unfolding Files
Files-create d index next [] e fresh tt =
    let here : next ≡ index = omega arith in
    rw (sym here) (
      record {
        node = empty_node;
        found = lookup-create_same (name_at next) d fresh;
        plain = refl;
        same = refl;
      },
      tt,
    )
Files-create d index next (first ∷ files) e fresh (file, rest) = (
  record {
    node = file.node;
    found = lookup-create_other (name_at next) (name_at index) d file.node fresh file.found;
    plain = file.plain;
    same = file.same;
  },
  Files-create d (suc index) next files (omega arith) fresh rest,
)

numbered_update :
    (suffix more : List ℕ) (parts : List Part)
    → all is_numbered (update (has_suffix suffix) (longer_part more) parts) ≡ all is_numbered parts
unfolding update
numbered_update suffix more [] = refl
numbered_update suffix more (part ∷ parts) = elim (Bool-cases (has_suffix suffix part)) [
  | inl e ↦ rw (e, numbered_update suffix more parts) refl
  | inr e ↦ rw (e, numbered_update suffix more parts) refl
]

numbered_append :
    (parts : List Part) (part : Part)
    → all is_numbered parts ≡ true
    → is_numbered part ≡ true
    → all is_numbered (parts ++ part ∷ []) ≡ true
numbered_append [] part h k = ground arith
numbered_append (first ∷ parts) part h k = ground (arith, numbered_append parts part)

padded-six_digits : (n : ℕ) → is_six_digits (padded n) ≡ true
unfolding padded
padded-six_digits n = ground arith

count-append_bytes :
    (name : Filename) (more : List ℕ) (d : Directory)
    → length (append_bytes name more d).parts ≡ length d.parts
unfolding append_bytes
count-append_bytes output_path more d = refl
count-append_bytes (part_path suffix) more d =
    length-update (has_suffix suffix) (longer_part more) d.parts

numbered-append_bytes :
    (name : Filename) (more : List ℕ) (d : Directory)
    → all is_numbered (append_bytes name more d).parts ≡ all is_numbered d.parts
unfolding append_bytes
numbered-append_bytes output_path more d = refl
numbered-append_bytes (part_path suffix) more d = numbered_update suffix more d.parts

pub Holds-append :
    (d : Directory) (before : List (List ℕ)) (bytes more : List ℕ)
    → length before < 1000000
    → Holds d (before ++ bytes ∷ [])
    → Holds (append_bytes (name_at (length before)) more d) (before ++ (bytes ++ more) ∷ [])
Holds-append d before bytes more h holds = record {
  all_files = Files-append d 0 (length before) before bytes more (omega arith) h holds.all_files;
  counted = omega (
    arith,
    holds.counted,
    count-append_bytes (name_at (length before)) more d,
    length-append before (bytes ∷ []),
    length-append before ((bytes ++ more) ∷ []),
  );
  numbered = numbered-append_bytes (name_at (length before)) more d ∙ holds.numbered;
}

count-create :
    (next : ℕ) (d : Directory)
    → 1 ≤ next
    → length (create_file (name_at next) d).parts ≡ suc (length d.parts)
unfolding create_file name_at
count-create zero d h = absurd (omega arith)
count-create (suc n) d h =
    omega
      (arith, length-append d.parts (record { suffix = padded (suc n); node = empty_node } ∷ []))

numbered-create :
    (next : ℕ) (d : Directory)
    → all is_numbered d.parts ≡ true
    → all is_numbered (create_file (name_at next) d).parts ≡ true
unfolding create_file name_at
numbered-create zero d h = h
numbered-create (suc n) d h =
    numbered_append d.parts (record { suffix = padded (suc n); node = empty_node }) h
      (padded-six_digits (suc n))

pub Holds-create :
    (d : Directory) (files : List (List ℕ))
    → 1 ≤ length files
    → lookup (name_at (length files)) d ≡ none
    → Holds d files
    → Holds (create_file (name_at (length files)) d) (files ++ [] ∷ [])
Holds-create d files h fresh holds = record {
  all_files = Files-create d 0 (length files) files (omega arith) fresh holds.all_files;
  counted =
      omega (arith, holds.counted, count-create (length files) d h, length-append files ([] ∷ []));
  numbered = numbered-create (length files) d holds.numbered;
}

-- The first file of a transcript that has none.
pub Holds_first :
    (d : Directory) → d.first ≡ none → d.parts ≡ [] → Holds (create_file output_path d) ([] ∷ [])
unfolding create_file Files lookup name_at
Holds_first d h e = record {
  all_files = (record { node = empty_node; found = refl; plain = refl; same = refl }, tt);
  counted = ap (λ parts. suc (length parts)) e;
  numbered = ap (all is_numbered) e;
}

-- The mark of a capture that has stopped is none of the files.
lookup-mark :
    (name : Filename) (d : Directory)
    → lookup name (record d { stop_marker = true }) ≡ lookup name d
unfolding lookup
lookup-mark output_path d = refl
lookup-mark (part_path suffix) d = refl

Files-mark :
    (d : Directory) (index : ℕ) (files : List (List ℕ))
    → Files d index files
    → Files (record d { stop_marker = true }) index files
unfolding Files
Files-mark d index [] tt = tt
Files-mark d index (bytes ∷ files) (file, rest) = (
  File-elsewhere d (record d { stop_marker = true }) (name_at index) bytes
      (lookup-mark (name_at index) d) file,
  Files-mark d (suc index) files rest,
)

pub Holds-mark :
    (d : Directory) (files : List (List ℕ))
    → Holds d files
    → Holds (record d { stop_marker = true }) files
Holds-mark d files holds = record {
  all_files = Files-mark d 0 files holds.all_files;
  counted = holds.counted;
  numbered = holds.numbered;
}
