-- ===== src/Transcript/Reading.antt =====
-- scripts/transcript-segments.mjs, `readTranscriptBytes`: reads of any part give the bytes of the files
-- one after another, also while the files grow.
use dp_beget_bridge.Base.{
  lt-cases, length, take, drop, length-append, length-take, length-drop, take_zero, slice_within,
  ok, ℕ, ◌+◌, ◌-◌, ◌≤◌, ◌<◌, min, ◌≡◌, refl, sym, ap, ◌∙◌, inl, inr, true, some, List, [], ◌∷◌,
  ◌++◌, arith,
}
use dp_beget_bridge.Transcript.Segments.{
  FileKind, regular, symbolic_link, other_kind, Node, Directory, Segment, Inventory, is_regular,
  is_plain, lookup, inspect_transcript_segments, open_node, read_part, then_bytes, read_from,
  max_read, read_transcript_bytes,
}
use dp_beget_bridge.Transcript.Layout.{whole, Entry, Laid, Grown, inspect_safe}
use dp_beget_bridge.Transcript.Inventories.{joined}
use dp_beget_bridge.Transcript.Contents.{inspect-Laid}
use dp_beget_bridge.Transcript.Parts.{past_slice, across_slice, last_slice}

open_plain :
    (kind : FileKind) (links : ℕ) (bytes : List ℕ)
    → is_regular kind ≡ true
    → open_node (some (record { kind = kind; links = links; bytes = bytes }))
      ≡ ok (record { kind = kind; links = links; bytes = bytes })
open_plain regular links bytes h = refl
open_plain symbolic_link links bytes h = absurd (cc h)
open_plain other_kind links bytes h = refl

read_part_lem :
    (node : Node) (more : List ℕ) (place wanted : ℕ)
    → is_plain node ≡ true
    → place + wanted ≤ length node.bytes
    → read_part (some (record node { bytes = node.bytes ++ more })) (length node.bytes) place wanted
      ≡ ok (take wanted (drop place node.bytes))
unfolding read_part
read_part_lem node more place wanted plain within =
    let regular_kind : is_regular node.kind ≡ true = ground arith in
    let got : take wanted (drop place (node.bytes ++ more)) ≡ take wanted (drop place node.bytes) =
      slice_within place wanted node.bytes more within in
    rw (open_plain node.kind node.links (node.bytes ++ more) regular_kind, plain, got)
      (ground (
        arith,
        length-take wanted (drop place node.bytes),
        length-drop place node.bytes,
        length-append node.bytes more,
      ))

read_from_done :
    (d : Directory) (segments : List Segment) (offset wanted : ℕ)
    → read_from d segments offset wanted wanted ≡ ok []
unfolding read_from
read_from_done d [] offset wanted = ground arith
read_from_done d (segment ∷ segments) offset wanted = ground arith

read_from_past :
    (d : Directory) (segment : Segment) (segments : List Segment) (offset wanted copied : ℕ)
    → copied < wanted
    → segment.start + segment.size ≤ offset + copied
    → read_from d (segment ∷ segments) offset wanted copied
      ≡ read_from d segments offset wanted copied
unfolding read_from
read_from_past d segment segments offset wanted copied unfinished past = ground arith

abbrev part_length : (copied wanted place size : ℕ) → ℕ
part_length copied wanted place size = min (wanted - copied) (size - place)

read_from_here :
    (d : Directory) (segment : Segment) (segments : List Segment)
    (start size offset wanted copied : ℕ)
    → segment.start ≡ start
    → segment.size ≡ size
    → copied < wanted
    → start ≤ offset + copied
    → offset + copied < start + size
    → read_from d (segment ∷ segments) offset wanted copied
      ≡ then_bytes
          (read_part
            (lookup segment.filename d)
            segment.size
            (offset + copied - start)
            (part_length copied wanted (offset + copied - start) size))
          (read_from d segments offset wanted
            (copied + part_length copied wanted (offset + copied - start) size))
unfolding read_from
read_from_here d segment segments start size offset wanted copied starts sized unfinished after
      before =
    ground arith

-- What a segment that was there gives, in a later directory.
part_of :
    (d d' : Directory) (start : ℕ) (segment : Segment) (entry : Entry d start segment)
    (place wanted : ℕ)
    → Grown d d'
    → place + wanted ≤ length entry.node.bytes
    → read_part (lookup segment.filename d') segment.size place wanted
      ≡ ok (take wanted (drop place entry.node.bytes))
part_of d d' start segment entry place wanted grown within =
    let (more, there) = grown.grows segment.filename entry.node entry.found in
    rw (there, entry.sized) (read_part_lem entry.node more place wanted entry.plain within)

-- A loop at a segment that was there copies `k` bytes of it, and goes on.
read_from_part :
    (d d' : Directory) (segment : Segment) (segments : List Segment)
    (start offset wanted copied k : ℕ) (entry : Entry d start segment)
    → Grown d d'
    → copied < wanted
    → start ≤ offset + copied
    → offset + copied < start + length entry.node.bytes
    → part_length copied wanted (offset + copied - start) (length entry.node.bytes) ≡ k
    → read_from d' (segment ∷ segments) offset wanted copied
      ≡ then_bytes
          (ok (take k (drop (offset + copied - start) entry.node.bytes)))
          (read_from d' segments offset wanted (copied + k))
read_from_part d d' segment segments start offset wanted copied k entry grown unfinished after
      before count_is =
    let place = offset + copied - start in
    read_from_here d' segment segments start (length entry.node.bytes) offset wanted copied
      entry.starts entry.sized unfinished after before
    ∙ ap
        (λ n.
          then_bytes (read_part (lookup segment.filename d') segment.size place n)
            (read_from d' segments offset wanted (copied + n)))
        count_is
    ∙ ap (λ r. then_bytes r (read_from d' segments offset wanted (copied + k)))
        (part_of d d' start segment entry place k grown (omega arith))

-- The loop that has copied all copies no more.
finished_slice :
    (d : Directory) (segments : List Segment) (offset wanted copied place : ℕ) (content : List ℕ)
    → copied ≡ wanted
    → read_from d segments offset wanted copied ≡ ok (take (wanted - copied) (drop place content))
finished_slice d segments offset wanted copied place content e =
    ap (read_from d segments offset wanted) e
    ∙ read_from_done d segments offset wanted
    ∙ sym (ap ok (take_zero (wanted - copied) (drop place content) (omega arith)))

-- A loop that has still to copy what lies in the segments copies it.
pub read_from-Laid :
    (d d' : Directory) (segments : List Segment) (start offset wanted copied : ℕ) (content : List ℕ)
    → Laid d start segments content
    → Grown d d'
    → copied ≤ wanted
    → start ≤ offset + copied
    → offset + wanted ≤ start + length content
    → read_from d' segments offset wanted copied
      ≡ ok (take (wanted - copied) (drop (offset + copied - start) content))
unfolding Laid
read_from-Laid d d' [] start offset wanted copied content empty grown c s within =
    finished_slice d' [] offset wanted copied (offset + copied - start) content
      (omega (arith, ap length empty))
read_from-Laid d d' (segment ∷ segments) start offset wanted copied content laid grown c s within =
    let (entry, rest, joined, later) = laid in
    let total : length content ≡ length entry.node.bytes + length rest =
      ap length joined ∙ length-append entry.node.bytes rest in
    let starts = entry.starts in
    let sized = entry.sized in
    let first = entry.node.bytes in
    let size = length first in
    elim (lt-cases copied wanted) [
      | inr done ↦
          finished_slice d' (segment ∷ segments) offset wanted copied (offset + copied - start)
            content (omega arith)
      | inl unfinished ↦ elim (lt-cases (offset + copied) (start + size)) [
        | inr past ↦
            read_from_past d' segment segments offset wanted copied unfinished
              (omega (arith, starts, sized))
            ∙ read_from-Laid d d' segments (start + size) offset wanted copied rest later grown c
                past (omega (arith, total))
            ∙ ap ok (past_slice offset start copied wanted first rest content past joined)
        | inl here ↦
            let k = part_length copied wanted (offset + copied - start) size in
            read_from_part d d' segment segments start offset wanted copied k entry grown unfinished
              s here refl
            ∙ elim (lt-cases (start + size) (offset + wanted)) [
              | inl on ↦
                  ap (then_bytes (ok (take k (drop (offset + copied - start) first)))) (
                    read_from-Laid d d' segments (start + size) offset wanted (copied + k) rest
                      later grown (omega arith) (omega arith) (omega (arith, total)))
                  ∙ ap ok (
                      across_slice offset start copied wanted k first rest content s here on
                        (omega arith) joined)
              | inr ends ↦
                  let all_of : k ≡ wanted - copied = omega arith in
                  rw all_of (
                    ap
                      (then_bytes
                        (ok (take (wanted - copied) (drop (offset + copied - start) first))))
                      (ap (read_from d' segments offset wanted) (omega arith)
                        ∙ read_from_done d' segments offset wanted)
                    ∙ ap ok (
                        last_slice (offset + copied - start) (wanted - copied) first rest content
                          (omega arith) joined))
            ]
      ]
    ]

-- A read of a part that the inventory covers gives the bytes of the transcript at that place: the bytes
-- that the files held when the inventory was taken, one file after another, also when the files have
-- grown by the time of the read.
pub read-inspect :
    (d d' : Directory) (segment_bytes : ℕ) (inventory : Inventory) (offset wanted : ℕ)
    → inspect_transcript_segments d segment_bytes ≡ ok inventory
    → Grown d d'
    → wanted ≤ max_read
    → offset + wanted ≤ inventory.size
    → read_transcript_bytes d' inventory.segments offset wanted
      ≡ ok (take wanted (drop offset (whole d)))
unfolding read_transcript_bytes
read-inspect d d' segment_bytes inventory offset wanted h grown short within =
    let (laid, total) = inspect-Laid d segment_bytes inventory h in
    let safe = inspect_safe d segment_bytes inventory h in
    let all_of : wanted - 0 ≡ wanted = omega arith in
    let same : offset + 0 - 0 ≡ offset = omega arith in
    let e : read_from d' inventory.segments offset wanted 0
        ≡ ok (take wanted (drop offset (whole d))) =
      read_from-Laid d d' inventory.segments 0 offset wanted 0 (whole d) laid grown (omega arith)
        (omega arith) (omega (arith, total))
      ∙ ap ok (
          ap (λ k. take k (drop (offset + 0 - 0) (whole d))) all_of
          ∙ ap (λ k. take wanted (drop k (whole d))) same) in
    ground arith
