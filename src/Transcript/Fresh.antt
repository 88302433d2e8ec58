-- ===== src/Transcript/Fresh.antt =====
-- scripts/transcript-capture.mjs: the name of the next file of a transcript is free. The names of its
-- files are different, so that they take all the entries of the directory.
use mathlib.Core.Option.{none-ne-some, some-injective}
use mathlib.Core.Option
use dp_beget_bridge.Base.{
  Bool-cases, lt-cases, Option-cases, length, find, count, count-pos, ℕ, zero, suc, ◌+◌, ◌≤◌, ◌<◌,
  ◌≡◌, refl, sym, ap, ◌∙◌, inl, inr, Bool, true, false, ◌||◌, none, some, List, [], ◌∷◌, arith,
}
use dp_beget_bridge.Transcript.Segments.{
  Node, Part, Directory, part_path, padded, has_suffix, lookup,
}
use dp_beget_bridge.Transcript.Names.{same_suffix_sound, padded_injective, name_at, name_at_suc}
use dp_beget_bridge.Transcript.Files.{Files, Holds}

-- an entry whose name is that of one of the indices 1, …, n
covered : ℕ → Part → Bool
covered zero part = false
covered (suc n) part = has_suffix (padded (suc n)) part || covered n part

apart :
    (n k : ℕ) (part : Part)
    → n < k
    → k < 1000000
    → covered n part ≡ true
    → has_suffix (padded k) part ≡ true
    → ⊥
unfolding covered
apart zero k part h high c s = absurd (cc c)
apart (suc n) k part h high c s = elim (Bool-cases (has_suffix (padded (suc n)) part)) [
  | inl e ↦ absurd (
      omega (
        arith,
        padded_injective (suc n) k (omega arith) high (
            sym (same_suffix_sound part.suffix (padded (suc n)) e)
            ∙ same_suffix_sound part.suffix (padded k) s),
      ))
  | inr e ↦ apart n k part (omega arith) high (ground arith) s
]

count_step :
    (n : ℕ) (parts : List Part)
    → suc n < 1000000
    → count (has_suffix (padded (suc n))) parts + count (covered n) parts
      ≡ count (covered (suc n)) parts
unfolding count covered
count_step n [] h = refl
count_step n (part ∷ parts) h = elim (Bool-cases (has_suffix (padded (suc n)) part)) [
  | inl e ↦ elim (Bool-cases (covered n part)) [
    | inl c ↦ absurd (apart n (suc n) part (omega arith) h c e)
    | inr c ↦ rw (e, c) (omega (arith, count_step n parts h))
  ]
  | inr e ↦ rw e (omega (arith, count_step n parts h))
]

count_le_length : (p : Part → Bool) (parts : List Part) → count p parts ≤ length parts
unfolding count
count_le_length p [] = omega arith
count_le_length p (part ∷ parts) = ground (arith, count_le_length p parts)

found_counts :
    (d : Directory) (n : ℕ) (node : Node)
    → lookup (part_path (padded n)) d ≡ some node
    → 1 ≤ count (has_suffix (padded n)) d.parts
unfolding lookup
found_counts d n node h = elim (Option-cases (find (has_suffix (padded n)) d.parts)) [
  | inl e ↦ absurd (none-ne-some _ (sym (ap (Option.map (λ part. part.node)) e) ∙ h))
  | inr (part, e) ↦ count-pos (has_suffix (padded n)) d.parts part e
]

-- the files from an index on, up to another one
covers :
    (d : Directory) (n : ℕ)
    → n < 1000000
    → ((i : ℕ) → 1 ≤ i → i ≤ n → (node : Node) × (lookup (part_path (padded i)) d ≡ some node))
    → n ≤ count (covered n) d.parts
unfolding covered
covers d zero h there = omega arith
covers d (suc n) h there =
    let (node, found) = there (suc n) (omega arith) (omega arith) in
    omega (
      arith,
      count_step n d.parts h,
      found_counts d (suc n) node found,
      covers d n (omega arith) (λ i low high. there i low (omega arith)),
    )

file_of :
    (d : Directory) (index i : ℕ) (files : List (List ℕ))
    → Files d index files
    → index ≤ i
    → i < index + length files
    → (node : Node) × (lookup (name_at i) d ≡ some node)
unfolding Files
file_of d index i [] tt low high = absurd (omega arith)
file_of d index i (bytes ∷ files) (file, rest) low high = elim (lt-cases index i) [
  | inl later ↦ file_of d (suc index) i files rest (omega arith) (omega arith)
  | inr here ↦
      let e : index ≡ i = omega arith in
      (file.node, ap (λ k. lookup (name_at k) d) (sym e) ∙ file.found)
]

all_there :
    (d : Directory) (n : ℕ) (files : List (List ℕ)) (node : Node)
    → Files d 0 files
    → n ≡ length files
    → lookup (name_at n) d ≡ some node
    → (i : ℕ) → 1 ≤ i
    → i ≤ n
    → (found : Node) × (lookup (part_path (padded i)) d ≡ some found)
all_there d n files node held e last i low high =
    let name = ap (λ f. lookup f d) (sym (name_at_suc i low)) in
    elim (lt-cases i n) [
      | inl before ↦
          let (found, there) = file_of d 0 i files held (omega arith) (omega arith) in
          (found, name ∙ there)
      | inr here ↦
          let same : n ≡ i = omega arith in
          (node, name ∙ ap (λ k. lookup (name_at k) d) (sym same) ∙ last)
    ]

pub Holds_fresh :
    (d : Directory) (files : List (List ℕ))
    → 1 ≤ length files
    → length files ≤ 1024
    → Holds d files
    → lookup (name_at (length files)) d ≡ none
Holds_fresh d files pos few holds = elim (Option-cases (lookup (name_at (length files)) d)) [
  | inl e ↦ e
  | inr (node, e) ↦ absurd (
      omega (
        arith,
        holds.counted,
        count_le_length (covered (length files)) d.parts,
        covers d (length files) (omega arith)
            (all_there d (length files) files node holds.all_files refl e),
      ))
]
