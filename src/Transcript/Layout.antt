-- ===== src/Transcript/Layout.antt =====
-- scripts/transcript-segments.mjs: what an inventory tells of the files.
use dp_beget_bridge.Base.{
  ltb, if◌then◌else◌, Option-cases, length, Result, ok, err, bind_result_ok, ℕ, zero, suc, ◌+◌, ◌≤◌,
  ◌<◌, ◌≡◌, refl, ap, subst, ◌∙◌, inl, inr, true, false, Option, none, some, List, [], ◌∷◌, ◌++◌,
  arith,
}
use dp_beget_bridge.Transcript.Segments.{
  TranscriptError, Node, Directory, Filename, output_path, part_path, Segment, Inventory, padded,
  segment_path, is_plain, regular_size, lookup, with_segment, check_length, listed, number_segments,
  inventory_of, inspect_chain, no_transcript, missing_first, inspect_first,
  inspect_transcript_segments,
}

-- The bytes of the transcript: those of the first file, then those of the numbered files in order.
abbrev pub node_bytes : Option Node → List ℕ
node_bytes none = []
node_bytes (some node) = node.bytes

unfoldable pub numbered_bytes : Directory → (left index : ℕ) → List ℕ
unfolding lookup padded
numbered_bytes d zero index = []
numbered_bytes d (suc left) index =
    node_bytes (lookup (part_path (padded index)) d) ++ numbered_bytes d left (index + 1)

unfoldable pub whole : Directory → List ℕ
unfolding numbered_bytes
whole d = node_bytes d.first ++ numbered_bytes d (length d.parts) 1

-- Segments that lie one after another from `start` on, and hold `content`.
pub record Entry (d : Directory) (start : ℕ) (segment : Segment) : Type 0 where
  pub node : Node
  pub found : lookup segment.filename d ≡ some node
  pub plain : is_plain node ≡ true
  pub starts : segment.start ≡ start
  pub sized : segment.size ≡ length node.bytes

unfoldable pub Laid : Directory → ℕ → List Segment → List ℕ → Type 0
Laid d start [] content = content ≡ []
Laid d start (segment ∷ segments) content =
    (entry : Entry d start segment) × (rest : List ℕ) × (content ≡ entry.node.bytes ++ rest)
    × Laid d (start + length entry.node.bytes) segments rest

-- A later state of the directory, in which files may have become longer and more of them there.
pub record Grown (d d' : Directory) : Type 0 where
  pub grows :
      (filename : Filename) (node : Node)
      → lookup filename d ≡ some node
      → (more : List ℕ) × (lookup filename d' ≡ some (record node { bytes = node.bytes ++ more }))

segment_path_lem :
    (index : ℕ) (f : Filename) → segment_path index ≡ ok f → f ≡ part_path (padded index)
unfolding segment_path
segment_path_lem index f h = ground arith

pub regular_size_lem :
    (found : Option Node) (n : ℕ)
    → regular_size found ≡ ok n
    → (node : Node) × (found ≡ some node) × (is_plain node ≡ true) × (n ≡ length node.bytes)
unfolding regular_size
regular_size_lem none n h = absurd (cc h)
regular_size_lem (some node) n h = (node, refl, ground arith, ground arith)

listed_lem :
    (f : Filename) (d : Directory) (n : ℕ) → listed f d ≡ ok n → regular_size (lookup f d) ≡ ok n
unfolding listed
listed_lem f d n h = ground arith

check_length_lem :
    (actual last index size n m : ℕ) → check_length actual last index size n ≡ ok m → m ≡ n
unfolding check_length
check_length_lem actual last index size n m h = ground arith

check_length_safe :
    (actual last index size n m : ℕ)
    → check_length actual last index size n ≡ ok m
    → (size + n ≤ 9007199254740991) × (n ≤ actual) × (index < last → n ≡ actual)
unfolding check_length
check_length_safe actual last index size n m h = (ground arith, ground arith, λ k. ground arith)

with_segment_ok :
    (segment : Segment) (r : Result TranscriptError (List Segment × ℕ)) (out : List Segment × ℕ)
    → with_segment segment r ≡ ok out
    → (inner : List Segment × ℕ) × (r ≡ ok inner) × (out ≡ (segment ∷ inner.0, inner.1))
with_segment_ok segment (ok inner) out h = (inner, refl, cc h)
with_segment_ok segment (err e) out h = absurd (cc h)

-- One step of the loop, taken apart.
pub record Step (d : Directory) (actual last left index size : ℕ) (out : List Segment × ℕ)
    : Type 0 where
  pub node : Node
  pub found : lookup (part_path (padded index)) d ≡ some node
  pub plain : is_plain node ≡ true
  pub safe : size + length node.bytes ≤ 9007199254740991
  pub fits : length node.bytes ≤ actual
  pub full : index < last → length node.bytes ≡ actual
  pub inner : List Segment × ℕ
  pub rest : number_segments d actual last left (index + 1) (size + length node.bytes) ≡ ok inner
  pub result : out ≡ (
    record { filename = part_path (padded index); start = size; size = length node.bytes }
        ∷ inner.0,
    inner.1,
  )

pub number_segments_step :
    (d : Directory) (actual last left index size : ℕ) (out : List Segment × ℕ)
    → number_segments d actual last (suc left) index size ≡ ok out
    → Step d actual last left index size out
unfolding number_segments
number_segments_step d actual last left index size out h =
    let (f, ef, h1) = bind_result_ok (segment_path index) _ out h in
    let (n, en, h2) = bind_result_ok (listed f d) _ out h1 in
    let (m, em, h3) = bind_result_ok (check_length actual last index size n) _ out h2 in
    let (inner, ei, eo) = with_segment_ok _ _ out h3 in
    let (node, found, plain, sized) = regular_size_lem (lookup f d) n (listed_lem f d n en) in
    let same : m ≡ length node.bytes = check_length_lem actual last index size n m em ∙ sized in
    let (safe, fits, full) = check_length_safe actual last index size n m em in
    let name = segment_path_lem index f ef in
    record {
      node = node;
      found = subst (λ g. lookup g d ≡ some node) name found;
      plain = plain;
      safe = omega (arith, safe, sized);
      fits = omega (arith, fits, sized);
      full = λ k. omega (arith, full k, sized);
      inner = inner;
      rest =
          subst (λ k. number_segments d actual last left (index + 1) (size + k) ≡ ok inner) same ei;
      result =
          eo
          ∙ ap (λ g. (record { filename = g; start = size; size = m } ∷ inner.0, inner.1)) name
          ∙ ap
              (λ k. (
                record { filename = part_path (padded index); start = size; size = k } ∷ inner.0,
                inner.1,
              ))
              same;
    }

number_segments_safe :
    (d : Directory) (actual last left index size : ℕ) (out : List Segment × ℕ)
    → size ≤ 9007199254740991
    → number_segments d actual last left index size ≡ ok out
    → out.1 ≤ 9007199254740991
unfolding number_segments
number_segments_safe d actual last zero index size out safe h =
    let e : out ≡ ([], size) = cc h in rw e safe
number_segments_safe d actual last (suc left) index size out safe h =
    let step = number_segments_step d actual last left index size out h in
    rw step.result
      (number_segments_safe d actual last left (index + 1) _ step.inner step.safe step.rest)

pub inspect_first_ok :
    (d : Directory) (segment_bytes : ℕ) (inventory : Inventory)
    → inspect_transcript_segments d segment_bytes ≡ ok inventory
    → inspect_first d segment_bytes d.first ≡ ok inventory
unfolding inspect_transcript_segments
inspect_first_ok d segment_bytes inventory h = ground arith

pub missing_first_ok :
    (d : Directory) (segment_bytes : ℕ) (inventory : Inventory)
    → missing_first d segment_bytes ≡ ok inventory
    → (length d.parts ≡ 0) × (inventory ≡ no_transcript segment_bytes)
missing_first_ok d segment_bytes inventory h = (ground arith, ground arith)

abbrev pub actual_bytes : Directory → ℕ → ℕ → ℕ
actual_bytes d segment_bytes first = if ltb 0 (length d.parts) then first else segment_bytes

abbrev pub chain_inventory : ℕ → ℕ → List Segment × ℕ → Inventory
chain_inventory actual first r = record {
  segments = record { filename = output_path; start = 0; size = first } ∷ r.0;
  size = r.1;
  missing = false;
  segment_bytes = actual;
}

inventory_of_ok :
    (actual : ℕ) (first : Segment) (r : Result TranscriptError (List Segment × ℕ))
    (inventory : Inventory)
    → inventory_of actual first r ≡ ok inventory
    → (inner : List Segment × ℕ) × (r ≡ ok inner)
      × (inventory_of actual first (ok inner) ≡ ok inventory)
inventory_of_ok actual first (ok inner) inventory h = (inner, refl, h)
inventory_of_ok actual first (err e) inventory h = absurd (cc h)

pub inspect_chain_ok :
    (d : Directory) (segment_bytes first : ℕ) (inventory : Inventory)
    → inspect_chain d segment_bytes first ≡ ok inventory
    → (inner : List Segment × ℕ) × (number_segments d
          (actual_bytes d segment_bytes first)
          (length d.parts)
          (length d.parts)
          1
          first
        ≡ ok inner)
      × (inventory_of
            (actual_bytes d segment_bytes first)
            (record { filename = output_path; start = 0; size = first })
            (ok inner)
          ≡ ok inventory)
unfolding inspect_chain
inspect_chain_ok d segment_bytes first inventory h = inventory_of_ok _ _ _ inventory (ground arith)

regular_size_safe : (found : Option Node) (n : ℕ) → regular_size found ≡ ok n → n ≤ 9007199254740991
unfolding regular_size
regular_size_safe none n h = absurd (cc h)
regular_size_safe (some node) n h = ground arith

pub inspect_safe :
    (d : Directory) (segment_bytes : ℕ) (inventory : Inventory)
    → inspect_transcript_segments d segment_bytes ≡ ok inventory
    → inventory.size ≤ 9007199254740991
inspect_safe d segment_bytes inventory h =
    let k = inspect_first_ok d segment_bytes inventory h in
    elim (Option-cases d.first) [
      | inl e ↦
          let (empty, made) =
            missing_first_ok d segment_bytes inventory
              (subst (λ o. inspect_first d segment_bytes o ≡ ok inventory) e k) in
          rw made (omega arith)
      | inr (node, e) ↦
          let (n, sized, chain) =
            bind_result_ok (regular_size (some node)) _ inventory
              (subst (λ o. inspect_first d segment_bytes o ≡ ok inventory) e k) in
          let (inner, numbered, made) = inspect_chain_ok d segment_bytes n inventory chain in
          let is_inventory : inventory ≡ chain_inventory (actual_bytes d segment_bytes n) n inner =
            cc made in
          rw is_inventory (
            number_segments_safe d _ _ _ 1 n inner (regular_size_safe (some node) n sized) numbered)
    ]
