-- ===== src/Transcript/Contents.antt =====
-- scripts/transcript-segments.mjs: the segments of an inventory lie one after another in the bytes of the
-- transcript.
use dp_beget_bridge.Base.{
  length, ok, ℕ, suc, ◌+◌, ◌≤◌, ◌≡◌, refl, sym, ap, subst, ◌∙◌, inl, inr, none, List, [], ◌∷◌, ◌++◌,
  arith,
}
use dp_beget_bridge.Transcript.Segments.{Directory, Inventory, lookup, inspect_transcript_segments}
use dp_beget_bridge.Transcript.Names.{name_at, name_at_suc}
use dp_beget_bridge.Transcript.Files.{Files, Holds}
use dp_beget_bridge.Transcript.Layout.{node_bytes, numbered_bytes, whole, Laid}
use dp_beget_bridge.Transcript.Inventories.{joined, segments_of, inventory_of_files}
use dp_beget_bridge.Transcript.Recovered.{inspect-Existing}

numbered-Files :
    (d : Directory) (index : ℕ) (files : List (List ℕ))
    → 1 ≤ index
    → Files d index files
    → numbered_bytes d (length files) index ≡ joined files
unfolding numbered_bytes Files joined
numbered-Files d index [] low tt = refl
numbered-Files d index (bytes ∷ files) low (file, rest) =
    let here : index + 1 ≡ suc index = omega arith in
    let found = ap (λ f. lookup f d) (sym (name_at_suc index low)) ∙ file.found in
    rw (here, numbered-Files d (suc index) files (omega arith) rest)
      (ap (λ o. node_bytes o ++ joined files) found ∙ ap (λ xs. xs ++ joined files) file.same)

pub whole-Holds : (d : Directory) (files : List (List ℕ)) → Holds d files → whole d ≡ joined files
unfolding whole Files joined lookup name_at
whole-Holds d [] holds = absurd (omega (arith, holds.counted))
whole-Holds d (bytes ∷ files) holds =
    let (file, rest) = holds.all_files in
    let count : length d.parts ≡ length files = omega (arith, holds.counted) in
    ap (λ o. node_bytes o ++ numbered_bytes d (length d.parts) 1) file.found
    ∙ ap (λ xs. xs ++ numbered_bytes d (length d.parts) 1) file.same
    ∙ ap (λ n. bytes ++ numbered_bytes d n 1) count
    ∙ ap (λ xs. bytes ++ xs) (numbered-Files d 1 files (omega arith) rest)

pub whole-none : (d : Directory) → d.first ≡ none → length d.parts ≡ 0 → whole d ≡ []
unfolding whole numbered_bytes
whole-none d h e =
    ap (λ o. node_bytes o ++ numbered_bytes d (length d.parts) 1) h
    ∙ ap (λ n. numbered_bytes d n 1) e

Files-Laid :
    (d : Directory) (index size : ℕ) (files : List (List ℕ))
    → Files d index files
    → Laid d size (segments_of index size files) (joined files)
unfolding Files Laid segments_of joined
Files-Laid d index size [] tt = refl
Files-Laid d index size (bytes ∷ files) (file, rest) =
    let sized = ap length file.same in
    (
      record {
        node = file.node;
        found = file.found;
        plain = file.plain;
        starts = refl;
        sized = sym sized;
      },
      joined files,
      ap (λ xs. xs ++ joined files) (sym file.same),
      subst
          (λ n.
            Laid d (size + n) (segments_of (suc index) (size + length bytes) files) (joined files))
          (sym sized) (Files-Laid d (suc index) (size + length bytes) files rest),
    )

-- The segments of an inventory lie one after another from 0 and hold the transcript.
pub inspect-Laid :
    (d : Directory) (segment_bytes : ℕ) (inventory : Inventory)
    → inspect_transcript_segments d segment_bytes ≡ ok inventory
    → Laid d 0 inventory.segments (whole d) × (inventory.size ≡ length (whole d))
unfolding Laid inventory_of_files
inspect-Laid d segment_bytes inventory h = elim (inspect-Existing d segment_bytes inventory h) [
  | inl (made, no_first, no_parts) ↦ rw (made, whole-none d no_first no_parts) (refl, refl)
  | inr existing ↦
      let files = existing.bytes ∷ existing.files in
      rw (existing.result, whole-Holds d files existing.holds)
        (Files-Laid d 0 0 files existing.holds.all_files, refl)
]
