-- ===== src/Transcript/Outcome.antt =====
-- scripts/transcript-capture.mjs: what a capture makes of the transcript.
use dp_beget_bridge.Base.{
  length, ok, ℕ, ◌≤◌, ◌≡◌, sym, ap, ◌∙◌, inl, inr, none, List, [], ◌∷◌, arith,
}
use dp_beget_bridge.Transcript.Segments.{
  Directory, Inventory, no_transcript, inspect_transcript_segments,
}
use dp_beget_bridge.Transcript.Layout.{whole}
use dp_beget_bridge.Transcript.Inventories.{inventory_of_files, inspect-Holds}
use dp_beget_bridge.Transcript.Contents.{whole-Holds, whole-none}
use dp_beget_bridge.Transcript.Progress.{Kept}

-- The directory has an inventory of these bytes, and holds them.
pub record Readable (segment_bytes : ℕ) (w : List ℕ) (d : Directory) : Type 0 where
  pub inventory : Inventory
  pub inspected : inspect_transcript_segments d segment_bytes ≡ ok inventory
  pub measured : inventory.size ≡ length w
  pub content : whole d ≡ w

inspect_none :
    (d : Directory) (segment_bytes : ℕ)
    → 1 ≤ segment_bytes
    → segment_bytes ≤ 9007199254740991
    → d.first ≡ none
    → d.parts ≡ []
    → inspect_transcript_segments d segment_bytes ≡ ok (no_transcript segment_bytes)
unfolding inspect_transcript_segments
inspect_none d segment_bytes pos safe h e = rw (e, h) (ground arith)

pub Kept-Readable :
    (segment_bytes : ℕ) (w : List ℕ) (d : Directory)
    → 1 ≤ segment_bytes
    → segment_bytes ≤ 9007199254740991
    → length w ≤ 9007199254740991
    → Kept segment_bytes w d
    → Readable segment_bytes w d
unfolding Kept inventory_of_files
Kept-Readable segment_bytes w d pos safe total (inl (h, e, empty)) = record {
  inventory = no_transcript segment_bytes;
  inspected = inspect_none d segment_bytes pos safe h e;
  measured = ap length (sym empty);
  content = whole-none d h (ap length e) ∙ sym empty;
}
Kept-Readable segment_bytes w d pos safe total (inr ([], holds, sized, few, content)) =
    absurd (omega (arith, holds.counted))
Kept-Readable segment_bytes w d pos safe total (inr (bytes ∷ files, holds, sized, few, content)) =
    record {
      inventory = inventory_of_files segment_bytes (bytes ∷ files);
      inspected =
          inspect-Holds d segment_bytes bytes files holds sized pos safe (omega arith)
            (omega (arith, ap length content));
      measured = ap length content;
      content = whole-Holds d (bytes ∷ files) holds ∙ content;
    }
