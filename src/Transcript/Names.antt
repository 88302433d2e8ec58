-- ===== src/Transcript/Names.antt =====
-- scripts/transcript-segments.mjs: the names of the numbered files are different, and lookups by name
-- before and after the changes that a capture makes.
use mathlib.Core.Option.{none-ne-some, some-injective}
use mathlib.Core.Option
use dp_beget_bridge.Base.{
  Bool-cases, Option-cases, find, amend, update, find_sound, find-update, find-append, ℕ, zero, suc,
  ◌+◌, ◌-◌, ◌*◌, ◌≤◌, ◌<◌, ◌≡◌, refl, sym, ap, ◌∙◌, ◌≢◌, inl, inr, true, Option, none, some, List,
  [], ◌∷◌, arith,
}
use dp_beget_bridge.Transcript.Segments.{
  Node, Part, Directory, Filename, output_path, part_path, padded, same_suffix, has_suffix, lookup,
}
use dp_beget_bridge.Transcript.Capture.{empty_node, longer, longer_part, create_file, append_bytes}

same_suffix_refl : (cs : List ℕ) → same_suffix cs cs ≡ true
same_suffix_refl [] = refl
same_suffix_refl (c ∷ cs) = ground (arith, same_suffix_refl cs)

pub same_suffix_sound : (cs ds : List ℕ) → same_suffix cs ds ≡ true → cs ≡ ds
same_suffix_sound [] [] h = refl
same_suffix_sound [] (d ∷ ds) h = absurd (cc h)
same_suffix_sound (c ∷ cs) [] h = absurd (cc h)
same_suffix_sound (c ∷ cs) (d ∷ ds) h = ground (arith, same_suffix_sound cs ds)

abbrev value_from : ℕ → List ℕ → ℕ
value_from n [] = n
value_from n (c ∷ cs) = value_from (n * 10 + (c - 48)) cs

value-padded : (n : ℕ) → n < 1000000 → value_from 0 (padded n) ≡ n
unfolding padded
value-padded n h = omega arith

pub padded_injective : (i j : ℕ) → i < 1000000 → j < 1000000 → padded i ≡ padded j → i ≡ j
padded_injective i j hi hj e = sym (value-padded i hi) ∙ ap (value_from 0) e ∙ value-padded j hj

-- the file of an index
unfoldable pub name_at : ℕ → Filename
name_at zero = output_path
name_at (suc n) = part_path (padded (suc n))

pub lookup-append_same :
    (f : Filename) (bytes : List ℕ) (d : Directory) (node : Node)
    → lookup f d ≡ some node
    → lookup f (append_bytes f bytes d) ≡ some (longer bytes node)
unfolding lookup append_bytes
lookup-append_same output_path bytes d node h = ap (Option.map (longer bytes)) h
lookup-append_same (part_path suffix) bytes d node h =
    ap (Option.map (λ part. part.node)) (
      find-update (has_suffix suffix) (has_suffix suffix) (longer_part bytes) d.parts
        (λ part. refl))
    ∙ amended (find (has_suffix suffix) d.parts) refl h
  where
    amended :
        (found : Option Part)
        → find (has_suffix suffix) d.parts ≡ found
        → Option.map (λ part. part.node) found ≡ some node
        → Option.map
            (λ part. part.node)
            (Option.map (amend (has_suffix suffix) (longer_part bytes)) found)
          ≡ some (longer bytes node)
    amended none e k = absurd (cc k)
    amended (some part) e k =
        rw (find_sound (has_suffix suffix) d.parts part e) (ap (Option.map (longer bytes)) k)

lookup_part_other :
    (a b : List ℕ) (bytes : List ℕ) (parts : List Part)
    → a ≢ b
    → Option.map
        (λ part. part.node)
        (find (has_suffix a) (update (has_suffix b) (longer_part bytes) parts))
      ≡ Option.map (λ part. part.node) (find (has_suffix a) parts)
lookup_part_other a b bytes parts apart =
    ap (Option.map (λ part. part.node))
      (find-update (has_suffix a) (has_suffix b) (longer_part bytes) parts (λ part. refl))
    ∙ kept (find (has_suffix a) parts) refl
  where
    kept :
        (found : Option Part)
        → find (has_suffix a) parts ≡ found
        → Option.map
            (λ part. part.node)
            (Option.map (amend (has_suffix b) (longer_part bytes)) found)
          ≡ Option.map (λ part. part.node) found
    kept none e = refl
    kept (some part) e = elim (Bool-cases (has_suffix b part)) [
      | inl hit ↦ absurd (
          apart (
            sym (same_suffix_sound part.suffix a (find_sound (has_suffix a) parts part e))
            ∙ same_suffix_sound part.suffix b hit))
      | inr miss ↦ rw miss refl
    ]

pub lookup-append_other :
    (i j : ℕ) (bytes : List ℕ) (d : Directory)
    → i < 1000000
    → j < 1000000
    → i ≢ j
    → lookup (name_at i) (append_bytes (name_at j) bytes d) ≡ lookup (name_at i) d
unfolding lookup append_bytes name_at
lookup-append_other zero zero bytes d hi hj apart = absurd (apart refl)
lookup-append_other zero (suc j) bytes d hi hj apart = refl
lookup-append_other (suc i) zero bytes d hi hj apart = refl
lookup-append_other (suc i) (suc j) bytes d hi hj apart =
    lookup_part_other (padded (suc i)) (padded (suc j)) bytes d.parts
      (λ e. apart (padded_injective (suc i) (suc j) hi hj e))

pub lookup-create_same :
    (f : Filename) (d : Directory)
    → lookup f d ≡ none
    → lookup f (create_file f d) ≡ some empty_node
unfolding lookup create_file
lookup-create_same output_path d h = refl
lookup-create_same (part_path suffix) d h = elim (Option-cases (find (has_suffix suffix) d.parts)) [
  | inl e ↦
      rw
        (find-append (has_suffix suffix) d.parts (record { suffix = suffix; node = empty_node }), e)
        (rw (same_suffix_refl suffix) refl)
  | inr (part, e) ↦ absurd (none-ne-some _ (sym h ∙ ap (Option.map (λ part. part.node)) e))
]

pub lookup-create_other :
    (f g : Filename) (d : Directory) (node : Node)
    → lookup f d ≡ none
    → lookup g d ≡ some node
    → lookup g (create_file f d) ≡ some node
unfolding lookup create_file
lookup-create_other output_path output_path d node h k = absurd (cc (h, k))
lookup-create_other output_path (part_path b) d node h k = k
lookup-create_other (part_path a) output_path d node h k = k
lookup-create_other (part_path a) (part_path b) d node h k =
    elim (Option-cases (find (has_suffix b) d.parts)) [
      | inl e ↦ absurd (none-ne-some _ (sym (ap (Option.map (λ part. part.node)) e) ∙ k))
      | inr (part, e) ↦
          rw (find-append (has_suffix b) d.parts (record { suffix = a; node = empty_node }), e)
            (sym (ap (Option.map (λ part. part.node)) e) ∙ k)
    ]

pub name_at_suc : (n : ℕ) → 1 ≤ n → name_at n ≡ part_path (padded n)
unfolding name_at
name_at_suc zero h = absurd (omega arith)
name_at_suc (suc n) h = refl
