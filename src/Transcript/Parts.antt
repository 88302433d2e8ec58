-- ===== src/Transcript/Parts.antt =====
-- scripts/transcript-segments.mjs, `readTranscriptBytes`: which part of a file a part of the transcript is.
use mathlib.Core.List.{append-nil}
use dp_beget_bridge.Base.{
  length, take, drop, length-drop, take_all, drop_beyond, slice_within, slice_across, count, ℕ, ◌+◌,
  ◌-◌, ◌≤◌, ◌<◌, ◌≡◌, sym, ap, ◌∙◌, List, [], ◌++◌, arith,
}

-- A part that begins after the first file lies in the rest.
pub past_slice :
    (offset start copied wanted : ℕ) (first rest content : List ℕ)
    → start + length first ≤ offset + copied
    → content ≡ first ++ rest
    → take (wanted - copied) (drop (offset + copied - (start + length first)) rest)
      ≡ take (wanted - copied) (drop (offset + copied - start) content)
past_slice offset start copied wanted first rest content past joined =
    let place = offset + copied - start in
    let k : offset + copied - (start + length first) ≡ place - length first = omega arith in
    ap (take (wanted - copied)) (
      ap (λ i. drop i rest) k
      ∙ sym (drop_beyond place first rest (omega arith))
      ∙ ap (drop place) (sym joined))

-- A part that goes over the end of the first file is the end of that file and a part of the rest.
pub across_slice :
    (offset start copied wanted k : ℕ) (first rest content : List ℕ)
    → start ≤ offset + copied
    → offset + copied < start + length first
    → start + length first < offset + wanted
    → k ≡ length first - (offset + copied - start)
    → content ≡ first ++ rest
    → take k (drop (offset + copied - start) first)
        ++ take (wanted - (copied + k)) (drop (offset + (copied + k) - (start + length first)) rest)
      ≡ take (wanted - copied) (drop (offset + copied - start) content)
unfolding drop
across_slice offset start copied wanted k first rest content after here on count joined =
    let place = offset + copied - start in
    let first_of_rest : offset + (copied + k) - (start + length first) ≡ 0 = omega arith in
    let left : wanted - (copied + k) ≡ wanted - copied - (length first - place) = omega arith in
    rw (take_all k (drop place first) (omega (arith, length-drop place first))) (
      ap (λ i. drop place first ++ take (wanted - (copied + k)) (drop i rest)) first_of_rest
      ∙ ap (λ i. drop place first ++ take i rest) left
      ∙ sym (slice_across place (wanted - copied) first rest (omega arith) (omega arith))
      ∙ ap (λ xs. take (wanted - copied) (drop place xs)) (sym joined))

-- A part that ends in the first file is a part of that file.
pub last_slice :
    (place wanted : ℕ) (first rest content : List ℕ)
    → place + wanted ≤ length first
    → content ≡ first ++ rest
    → take wanted (drop place first) ++ [] ≡ take wanted (drop place content)
last_slice place wanted first rest content within joined =
    append-nil (take wanted (drop place first))
    ∙ sym (slice_within place wanted first rest within)
    ∙ ap (λ xs. take wanted (drop place xs)) (sym joined)
