-- ===== src/Transcript/Beginning.antt =====
-- scripts/transcript-capture.mjs: the state that a capture begins in, from the inventory of what is there.
use mathlib.Core.List.{append-nil}
use dp_beget_bridge.Base.{
  length, length-append, ok, ℕ, suc, ◌+◌, ◌≤◌, ◌≡◌, refl, sym, ap, subst, ◌∙◌, inl, inr, none, List,
  [], ◌∷◌, ◌++◌, arith,
}
use dp_beget_bridge.Transcript.Segments.{
  Part, Directory, Inventory, no_transcript, inspect_transcript_segments,
}
use dp_beget_bridge.Transcript.Capture.{settled_bytes, last_size, begin_capture}
use dp_beget_bridge.Transcript.Files.{Holds}
use dp_beget_bridge.Transcript.Layout.{whole}
use dp_beget_bridge.Transcript.Inventories.{joined, Sized, segments_of, inventory_of_files}
use dp_beget_bridge.Transcript.Recovered.{inspect-Existing}
use dp_beget_bridge.Transcript.Contents.{whole-Holds, whole-none}
use dp_beget_bridge.Transcript.Progress.{Writing, State}

-- the last file of a transcript
split_last :
    (bytes : List ℕ) (files : List (List ℕ))
    → (before : List (List ℕ)) × (last : List ℕ) × (bytes ∷ files ≡ before ++ last ∷ [])
split_last bytes [] = ([], bytes, refl)
split_last bytes (next ∷ files) =
    let (before, last, e) = split_last next files in (bytes ∷ before, last, ap (λ xs. bytes ∷ xs) e)

count-segments_of :
    (index size : ℕ) (files : List (List ℕ)) → length (segments_of index size files) ≡ length files
unfolding segments_of
count-segments_of index size [] = refl
count-segments_of index size (bytes ∷ files) =
    ap suc (count-segments_of (suc index) (size + length bytes) files)

last_size-segments_of :
    (index size : ℕ) (before : List (List ℕ)) (last : List ℕ)
    → last_size (segments_of index size (before ++ last ∷ [])) ≡ length last
unfolding segments_of
last_size-segments_of index size [] last = refl
last_size-segments_of index size (bytes ∷ []) last = refl
last_size-segments_of index size (bytes ∷ other ∷ before) last =
    last_size-segments_of (suc index) (size + length bytes) (other ∷ before) last

settled_many :
    (maximum segment_bytes : ℕ) (existing : Inventory)
    → 2 ≤ length existing.segments
    → settled_bytes maximum segment_bytes existing ≡ existing.segment_bytes
unfolding settled_bytes
settled_many maximum segment_bytes existing h = ground arith

settled_one :
    (maximum segment_bytes : ℕ) (existing : Inventory)
    → length existing.segments ≡ 1
    → existing.size ≤ maximum
    → existing.size ≤ settled_bytes maximum segment_bytes existing
unfolding settled_bytes
settled_one maximum segment_bytes existing h small = ground arith

settled_none :
    (maximum segment_bytes : ℕ) (existing : Inventory)
    → length existing.segments ≡ 0
    → settled_bytes maximum segment_bytes existing ≡ segment_bytes
unfolding settled_bytes
settled_none maximum segment_bytes existing h = ground arith

settled-Sized :
    (maximum segment_bytes kept : ℕ) (bytes : List ℕ) (files : List (List ℕ))
    → (1 ≤ length files → Sized kept (bytes ∷ files))
    → length (joined (bytes ∷ files)) ≤ maximum
    → Sized
        (settled_bytes maximum segment_bytes (inventory_of_files kept (bytes ∷ files)))
        (bytes ∷ files)
unfolding Sized inventory_of_files joined
settled-Sized maximum segment_bytes kept bytes [] sized small =
    let e = ap length (append-nil bytes) in
    omega (
      arith,
      e,
      settled_one maximum segment_bytes (inventory_of_files kept (bytes ∷ [])) refl small,
    )
settled-Sized maximum segment_bytes kept bytes (next ∷ files) sized small =
    subst (λ b. Sized b (bytes ∷ next ∷ files))
      (sym (
        settled_many maximum segment_bytes (inventory_of_files kept (bytes ∷ next ∷ files))
          (omega arith)))
      (sized (omega arith))

-- A capture of a transcript that is there begins at the end of its last file.
pub begin-Writing :
    (maximum segment_bytes kept : ℕ) (bytes : List ℕ) (files : List (List ℕ)) (d : Directory)
    → Holds d (bytes ∷ files)
    → (1 ≤ length files → Sized kept (bytes ∷ files))
    → length files ≤ 1024
    → length (joined (bytes ∷ files)) ≤ maximum
    → Writing
        (settled_bytes maximum segment_bytes (inventory_of_files kept (bytes ∷ files)))
        maximum
        (joined (bytes ∷ files))
        (begin_capture maximum (inventory_of_files kept (bytes ∷ files)) d)
unfolding begin_capture inventory_of_files
begin-Writing maximum segment_bytes kept bytes files d holds sized few small =
    let (before, last, e) = split_last bytes files in
    let settled = settled_bytes maximum segment_bytes (inventory_of_files kept (bytes ∷ files)) in
    let count : length files ≡ length before =
      omega (arith, ap length e, length-append before (last ∷ [])) in
    let segments = count-segments_of 0 0 (bytes ∷ files) in
    record {
      before = before;
      last = last;
      holds = subst (Holds d) e holds;
      sized =
          subst (Sized settled) e
            (settled-Sized maximum segment_bytes kept bytes files sized small);
      at_last = omega (arith, segments, count);
      filled = ap (λ fs. last_size (segments_of 0 0 fs)) e ∙ last_size-segments_of 0 0 before last;
      not_new = ground (arith, segments);
      content = ap joined (sym e);
      few = omega arith;
      left = omega arith;
    }

settled_bounds :
    (maximum segment_bytes : ℕ) (existing : Inventory)
    → 1 ≤ maximum
    → 1 ≤ segment_bytes
    → segment_bytes ≤ maximum
    → 1 ≤ existing.segment_bytes
    → existing.segment_bytes ≤ maximum
    → (1 ≤ settled_bytes maximum segment_bytes existing)
      × (settled_bytes maximum segment_bytes existing ≤ maximum)
unfolding settled_bytes
settled_bounds maximum segment_bytes existing h pos fits pos' fits' = (ground arith, ground arith)

first_le :
    (segment_bytes : ℕ) (bytes : List ℕ) (files : List (List ℕ))
    → 1 ≤ length files
    → Sized segment_bytes (bytes ∷ files)
    → segment_bytes ≤ length (joined (bytes ∷ files))
unfolding Sized joined
first_le segment_bytes bytes [] some_more h = absurd (omega arith)
first_le segment_bytes bytes (next ∷ files) some_more (e, h) =
    omega (arith, e, length-append bytes (joined (next ∷ files)))

-- What a capture begins with.
pub record Begun (maximum segment_bytes : ℕ) (d : Directory) (inventory : Inventory) : Type 0 where
  pub pos : 1 ≤ settled_bytes maximum segment_bytes inventory
  pub fits : settled_bytes maximum segment_bytes inventory ≤ maximum
  pub state :
      State
        (settled_bytes maximum segment_bytes inventory)
        maximum
        (whole d)
        (begin_capture maximum inventory d)

Blank-Begun :
    (maximum segment_bytes : ℕ) (d : Directory)
    → 1 ≤ segment_bytes
    → segment_bytes ≤ maximum
    → d.first ≡ none
    → d.parts ≡ []
    → Begun maximum segment_bytes d (no_transcript segment_bytes)
unfolding State begin_capture
Blank-Begun maximum segment_bytes d pos fits no_first no_parts =
    let settled = settled_none maximum segment_bytes (no_transcript segment_bytes) refl in
    record {
      pos = omega (arith, settled);
      fits = omega (arith, settled);
      state = inl (record {
        no_first = no_first;
        no_parts = no_parts;
        at_first = refl;
        nothing = refl;
        is_new = refl;
        closed = refl;
        content = whole-none d no_first (ap length no_parts);
        left = omega arith;
      });
    }

kept_le :
    (maximum segment_bytes kept : ℕ) (bytes : List ℕ) (files : List (List ℕ))
    → segment_bytes ≤ maximum
    → (length files ≡ 0 → kept ≡ segment_bytes)
    → (1 ≤ length files → Sized kept (bytes ∷ files))
    → length (joined (bytes ∷ files)) ≤ maximum
    → kept ≤ maximum
kept_le maximum segment_bytes kept bytes [] fits single sized small = omega (arith, single refl)
kept_le maximum segment_bytes kept bytes (next ∷ files) fits single sized small =
    omega (arith, first_le kept bytes (next ∷ files) (omega arith) (sized (omega arith)))

Existing-Begun :
    (maximum segment_bytes kept : ℕ) (bytes : List ℕ) (files : List (List ℕ)) (d : Directory)
    → 1 ≤ segment_bytes
    → segment_bytes ≤ maximum
    → 1 ≤ kept
    → Holds d (bytes ∷ files)
    → (length files ≡ 0 → kept ≡ segment_bytes)
    → (1 ≤ length files → Sized kept (bytes ∷ files))
    → length files ≤ 1024
    → length (joined (bytes ∷ files)) ≤ maximum
    → Begun maximum segment_bytes d (inventory_of_files kept (bytes ∷ files))
unfolding State inventory_of_files
Existing-Begun maximum segment_bytes kept bytes files d pos fits some_kept holds single sized few
      small =
    let (low, high) =
      settled_bounds maximum segment_bytes (inventory_of_files kept (bytes ∷ files)) (omega arith)
        pos fits some_kept
        (kept_le maximum segment_bytes kept bytes files fits single sized small) in
    record {
      pos = low;
      fits = high;
      state =
          subst
            (λ w.
              State (settled_bytes maximum segment_bytes (inventory_of_files kept (bytes ∷ files)))
                maximum w (begin_capture maximum (inventory_of_files kept (bytes ∷ files)) d))
            (sym (whole-Holds d (bytes ∷ files) holds))
            (inr (begin-Writing maximum segment_bytes kept bytes files d holds sized few small));
    }

no_rows : (parts : List Part) → length parts ≡ 0 → parts ≡ []
no_rows [] e = refl
no_rows (part ∷ parts) e = absurd (omega arith)

pub inspect-Begun :
    (maximum segment_bytes : ℕ) (d : Directory) (inventory : Inventory)
    → 1 ≤ segment_bytes
    → segment_bytes ≤ maximum
    → inspect_transcript_segments d segment_bytes ≡ ok inventory
    → inventory.size ≤ maximum
    → Begun maximum segment_bytes d inventory
unfolding inventory_of_files
inspect-Begun maximum segment_bytes d inventory pos fits h small =
    elim (inspect-Existing d segment_bytes inventory h) [
      | inl (made, no_first, no_parts) ↦
          subst (Begun maximum segment_bytes d) (sym made)
            (Blank-Begun maximum segment_bytes d pos fits no_first (no_rows d.parts no_parts))
      | inr existing ↦ subst (Begun maximum segment_bytes d) (sym existing.result) (
          Existing-Begun maximum segment_bytes inventory.segment_bytes existing.bytes existing.files
            d pos fits existing.pos existing.holds existing.single existing.sized existing.few
            (omega (arith, ap (λ (i : Inventory). i.size) existing.result)))
    ]
