-- ===== src/Transcript/Recovered.antt =====
-- scripts/transcript-segments.mjs: the files that a directory with an inventory holds.
use dp_beget_bridge.Base.{
  Option-cases, length, all, length-append, ok, bind_result_ok, ℕ, zero, suc, ◌+◌, ◌≤◌, ◌≡◌, refl,
  sym, ap, subst, ◌∙◌, ◌⊎◌, inl, inr, true, none, some, List, [], ◌∷◌, arith,
}
use dp_beget_bridge.Transcript.Segments.{
  Node, Directory, part_path, Segment, Inventory, padded, regular_size, lookup, is_numbered,
  number_segments, inspect_chain, no_transcript, inspect_first, inspect_transcript_segments,
}
use dp_beget_bridge.Transcript.Names.{name_at, name_at_suc}
use dp_beget_bridge.Transcript.Files.{Files, Holds}
use dp_beget_bridge.Transcript.Layout.{
  regular_size_lem, number_segments_step, inspect_first_ok, missing_first_ok, actual_bytes,
  chain_inventory, inspect_chain_ok,
}
use dp_beget_bridge.Transcript.Inventories.{joined, Sized, segments_of, inventory_of_files}

-- What the loop has found from an index on.
record Found (d : Directory) (actual left index size : ℕ) (out : List Segment × ℕ) : Type 0 where
  pub files : List (List ℕ)
  pub held : Files d index files
  pub counted : length files ≡ left
  pub sized : Sized actual files
  pub result : out ≡ (segments_of index size files, size + length (joined files))

Sized-more :
    (segment_bytes : ℕ) (bytes : List ℕ) (files : List (List ℕ))
    → length bytes ≤ segment_bytes
    → (1 ≤ length files → length bytes ≡ segment_bytes)
    → Sized segment_bytes files
    → Sized segment_bytes (bytes ∷ files)
unfolding Sized
Sized-more segment_bytes bytes [] fits full sized = fits
Sized-more segment_bytes bytes (next ∷ files) fits full sized = (full (omega arith), sized)

-- The inventory of a numbered file and of the files after it.
numbered_result :
    (index size : ℕ) (bytes : List ℕ) (later : List (List ℕ)) (inner out : List Segment × ℕ)
    → 1 ≤ index
    → inner ≡ (
      segments_of (suc index) (size + length bytes) later,
      size + length bytes + length (joined later),
    )
    → out ≡ (
      record { filename = part_path (padded index); start = size; size = length bytes } ∷ inner.0,
      inner.1,
    )
    → out ≡ (segments_of index size (bytes ∷ later), size + length (joined (bytes ∷ later)))
unfolding segments_of joined
numbered_result index size bytes later inner out low inner_is out_is =
    out_is
    ∙ ap
        (λ r. (
          record { filename = part_path (padded index); start = size; size = length bytes } ∷ r.0,
          r.1,
        ))
        inner_is
    ∙ ap
        (λ f. (
          record { filename = f; start = size; size = length bytes }
              ∷ segments_of (suc index) (size + length bytes) later,
          size + length bytes + length (joined later),
        ))
        (sym (name_at_suc index low))
    ∙ ap
        (λ n. (
          record { filename = name_at index; start = size; size = length bytes }
              ∷ segments_of (suc index) (size + length bytes) later,
          n,
        ))
        (omega (arith, length-append bytes (joined later)))

number_segments-Found :
    (d : Directory) (actual last left index size : ℕ) (out : List Segment × ℕ)
    → 1 ≤ index
    → index + left ≡ suc last
    → number_segments d actual last left index size ≡ ok out
    → Found d actual left index size out
unfolding number_segments Files Sized segments_of joined
number_segments-Found d actual last zero index size out low e h = record {
  files = [];
  held = tt;
  counted = refl;
  sized = tt;
  result =
      let same : size ≡ size + 0 = omega arith in
      let got : out ≡ ([], size) = cc h in got ∙ ap (λ n. ([], n)) same;
}
number_segments-Found d actual last (suc left) index size out low e h =
    let step = number_segments_step d actual last left index size out h in
    let here : index + 1 ≡ suc index = omega arith in
    let later =
      number_segments-Found d actual last left (suc index) (size + length step.node.bytes)
        step.inner (omega arith) (omega arith)
        (subst
          (λ i.
            number_segments d actual last left i (size + length step.node.bytes) ≡ ok step.inner)
          here step.rest) in
    let name = name_at_suc index low in
    record {
      files = step.node.bytes ∷ later.files;
      held = (
        record {
          node = step.node;
          found = ap (λ f. lookup f d) name ∙ step.found;
          plain = step.plain;
          same = refl;
        },
        later.held,
      );
      counted = ap suc later.counted;
      sized =
          Sized-more actual step.node.bytes later.files step.fits
            (λ k. step.full (omega (arith, later.counted))) later.sized;
      result =
          numbered_result index size step.node.bytes later.files step.inner out low later.result
            step.result;
    }

-- The files of a transcript that is there.
pub record Existing (d : Directory) (segment_bytes : ℕ) (inventory : Inventory) : Type 0 where
  pub bytes : List ℕ
  pub files : List (List ℕ)
  pub holds : Holds d (bytes ∷ files)
  pub sized : 1 ≤ length files → Sized inventory.segment_bytes (bytes ∷ files)
  pub single : length files ≡ 0 → inventory.segment_bytes ≡ segment_bytes
  pub pos : 1 ≤ inventory.segment_bytes
  pub few : length files ≤ 1024
  pub result : inventory ≡ inventory_of_files inventory.segment_bytes (bytes ∷ files)

passed :
    (d : Directory) (segment_bytes : ℕ) (inventory : Inventory)
    → inspect_transcript_segments d segment_bytes ≡ ok inventory
    → (1 ≤ segment_bytes) × (length d.parts ≤ 1024) × (all is_numbered d.parts ≡ true)
unfolding inspect_transcript_segments
passed d segment_bytes inventory h = (ground arith, ground arith, ground arith)

chain_pos :
    (d : Directory) (segment_bytes first : ℕ) (inventory : Inventory)
    → 1 ≤ segment_bytes
    → inspect_chain d segment_bytes first ≡ ok inventory
    → 1 ≤ actual_bytes d segment_bytes first
unfolding inspect_chain
chain_pos d segment_bytes first inventory pos h = ground arith

actual_many :
    (d : Directory) (segment_bytes first : ℕ)
    → 1 ≤ length d.parts
    → actual_bytes d segment_bytes first ≡ first
actual_many d segment_bytes first h = ground arith

actual_single :
    (d : Directory) (segment_bytes first : ℕ)
    → length d.parts ≡ 0
    → actual_bytes d segment_bytes first ≡ segment_bytes
actual_single d segment_bytes first h = ground arith

-- The inventory of a first file and of the numbered files after it.
first_result :
    (actual n : ℕ) (bytes : List ℕ) (files : List (List ℕ)) (inner : List Segment × ℕ)
    → n ≡ length bytes
    → inner ≡ (segments_of 1 n files, n + length (joined files))
    → chain_inventory actual n inner ≡ inventory_of_files actual (bytes ∷ files)
unfolding inventory_of_files joined name_at
first_result actual n bytes files inner n_is inner_is =
    ap (chain_inventory actual n) inner_is
    ∙ ap (λ k. chain_inventory actual k (segments_of 1 k files, k + length (joined files))) n_is
    ∙ ap
        (λ k.
          chain_inventory actual (length bytes)
            (segments_of 1 k files, length bytes + length (joined files)))
        (omega arith)
    ∙ ap (λ k. chain_inventory actual (length bytes) (segments_of 1 (0 + length bytes) files, k))
        (omega (arith, length-append bytes (joined files)))

first-Existing :
    (d : Directory) (segment_bytes : ℕ) (node : Node) (inventory : Inventory)
    → d.first ≡ some node
    → inspect_transcript_segments d segment_bytes ≡ ok inventory
    → inspect_first d segment_bytes (some node) ≡ ok inventory
    → Existing d segment_bytes inventory
unfolding Files Sized inventory_of_files joined name_at lookup
first-Existing d segment_bytes node inventory there whole_call h =
    let (pos, few, numbered) = passed d segment_bytes inventory whole_call in
    let (n, sized, chain) = bind_result_ok (regular_size (some node)) _ inventory h in
    let (node', same, plain, bytes) = regular_size_lem (some node) n sized in
    let (inner, loop, made) = inspect_chain_ok d segment_bytes n inventory chain in
    let found =
      number_segments-Found d (actual_bytes d segment_bytes n) (length d.parts) (length d.parts) 1 n
        inner (omega arith) (omega arith) loop in
    let is_inventory : inventory ≡ chain_inventory (actual_bytes d segment_bytes n) n inner =
      cc made in
    let actual_is : inventory.segment_bytes ≡ actual_bytes d segment_bytes n =
      ap (λ (i : Inventory). i.segment_bytes) is_inventory in
    let full : 1 ≤ length found.files → length node'.bytes ≡ actual_bytes d segment_bytes n =
      λ k. sym bytes ∙ sym (actual_many d segment_bytes n (omega (arith, found.counted))) in
    record {
      bytes = node'.bytes;
      files = found.files;
      holds = record {
        all_files =
            (record { node = node'; found = there ∙ same; plain = plain; same = refl }, found.held);
        counted = ap suc (sym found.counted);
        numbered = numbered;
      };
      sized = λ k.
          subst (λ b. Sized b (node'.bytes ∷ found.files)) (sym actual_is)
            (Sized-more (actual_bytes d segment_bytes n) node'.bytes found.files
              (omega (arith, full k)) full found.sized);
      single = λ k. actual_is ∙ actual_single d segment_bytes n (omega (arith, found.counted));
      pos = omega (arith, actual_is, chain_pos d segment_bytes n inventory pos chain);
      few = omega (arith, found.counted);
      result =
          is_inventory
          ∙ first_result (actual_bytes d segment_bytes n) n node'.bytes found.files inner bytes
              found.result
          ∙ ap (λ k. inventory_of_files k (node'.bytes ∷ found.files)) (sym actual_is);
    }

-- A directory with an inventory has no transcript, or files of which it is the inventory.
pub inspect-Existing :
    (d : Directory) (segment_bytes : ℕ) (inventory : Inventory)
    → inspect_transcript_segments d segment_bytes ≡ ok inventory
    → ((inventory ≡ no_transcript segment_bytes) × (d.first ≡ none) × (length d.parts ≡ 0))
      ⊎ Existing d segment_bytes inventory
inspect-Existing d segment_bytes inventory h =
    let k = inspect_first_ok d segment_bytes inventory h in
    elim (Option-cases d.first) [
      | inl e ↦
          let (empty, made) =
            missing_first_ok d segment_bytes inventory
              (subst (λ o. inspect_first d segment_bytes o ≡ ok inventory) e k) in
          inl (made, e, empty)
      | inr (node, e) ↦ inr (
          first-Existing d segment_bytes node inventory e h
            (subst (λ o. inspect_first d segment_bytes o ≡ ok inventory) e k))
    ]
