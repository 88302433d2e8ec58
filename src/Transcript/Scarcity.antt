-- ===== src/Transcript/Scarcity.antt =====
-- scripts/transcript-capture.mjs: when `captureTranscript` stops for the free space.
use dp_beget_bridge.Base.{
  eqb, Bool-cases, lt-cases, length, take, length-append, length-drop, Result, ok, err, ℕ, zero,
  suc, ◌+◌, ◌-◌, ◌*◌, ◌≤◌, ◌<◌, min, ◌≡◌, ap, ◌∙◌, inl, inr, false, Option, none, some, List, [],
  ◌∷◌, ◌++◌, arith,
}
use dp_beget_bridge.Transcript.Segments.{TranscriptError, Directory, Inventory}
use dp_beget_bridge.Transcript.Capture.{
  Space, Limits, transcript_limit, storage_reserve, Capture, Pass, going, halted, failed,
  out_of_fuel, roll, portion_length, is_sufficient, ensure_output, write_portion, write_pass,
  portion_pass, rolled_pass, capture_pass, follow, capture_chunk, capture_chunks, settled_bytes,
  begin_capture, capture_from,
}
use dp_beget_bridge.Transcript.Inventories.{joined}

-- What statfs tells is too little for the reserve, a portion of `n` bytes and a block of 4,096; or it fails.
unfoldable pub Short : ℕ → ℕ → Option Space → Type 0
Short minimum_free n none = Unit
Short minimum_free n (some space) = space.available * space.block < minimum_free + n + 4096

-- A stop for the free space comes where it is too little for a portion of the `k` bytes of the input, of
-- which the limit of the transcript allows `s.remaining` still.
unfoldable pub Scarce : ℕ → (ℕ → Option Space) → ℕ → Pass → Type 0
unfolding Short
Scarce minimum_free space k (halted storage_reserve s) =
    (n : ℕ) × (n ≤ k) × (n ≤ s.remaining) × Short minimum_free n (space s.remaining)
Scarce minimum_free space k (going rest s) = length rest ≤ k
Scarce minimum_free space k (halted transcript_limit s) = Unit
Scarce minimum_free space k (failed e s) = Unit
Scarce minimum_free space k (out_of_fuel s) = Unit

insufficient-Short :
    (minimum_free n : ℕ) (space : Option Space)
    → is_sufficient minimum_free n space ≡ false
    → Short minimum_free n space
unfolding is_sufficient Short
insufficient-Short minimum_free n none h = tt
insufficient-Short minimum_free n (some space) h = elim (lt-cases 0 space.block) [
  | inl some_block ↦ ground arith
  | inr no_block ↦
      let e : space.block ≡ 0 = omega arith in
      let z : space.available * space.block ≡ 0 = ap (λ b. space.available * b) e ∙ omega arith in
      omega (arith, z)
]

written-Scarce :
    (limits : Limits) (space : ℕ → Option Space) (portion : ℕ) (chunk : List ℕ) (s : Capture)
    (x : Result TranscriptError Capture)
    → Scarce limits.minimum_free space (length chunk) (write_pass portion chunk s x)
unfolding Scarce
written-Scarce limits space portion chunk s (err e) = tt
written-Scarce limits space portion chunk s (ok s') =
    elim (Bool-cases (eqb (write_portion (take portion chunk) s').remaining 0)) [
      | inl limit ↦ rw limit tt
      | inr more ↦ rw more (omega (arith, length-drop portion chunk))
    ]

portion-Scarce :
    (limits : Limits) (space : ℕ → Option Space) (chunk : List ℕ) (s : Capture)
    → Scarce limits.minimum_free space (length chunk) (portion_pass limits space chunk s)
unfolding Scarce portion_pass
portion-Scarce limits space chunk s =
    let n = portion_length limits.segment_bytes chunk s in
    elim (Bool-cases (is_sufficient limits.minimum_free n (space s.remaining))) [
      | inl enough ↦ rw enough (written-Scarce limits space n chunk s (ensure_output s))
      | inr little ↦ rw little (
        n,
        omega arith,
        omega arith,
        insufficient-Short limits.minimum_free n (space s.remaining) little,
      )
    ]

pass-Scarce :
    (limits : Limits) (space : ℕ → Option Space) (chunk : List ℕ) (s : Capture)
    (x : Result TranscriptError Capture)
    → Scarce limits.minimum_free space (length chunk) (rolled_pass limits space chunk s x)
unfolding Scarce
pass-Scarce limits space chunk s (ok s') = portion-Scarce limits space chunk s'
pass-Scarce limits space chunk s (err e) = tt

Scarce-more :
    (limits : Limits) (space : ℕ → Option Space) (k m : ℕ) (p : Pass)
    → k ≤ m
    → Scarce limits.minimum_free space k p
    → Scarce limits.minimum_free space m p
unfolding Scarce
Scarce-more limits space k m (going rest s) le h = omega arith
Scarce-more limits space k m (halted transcript_limit s) le h = tt
Scarce-more limits space k m (halted storage_reserve s) le (n, in_input, in_limit, short) =
    (n, omega arith, in_limit, short)
Scarce-more limits space k m (failed e s) le h = tt
Scarce-more limits space k m (out_of_fuel s) le h = tt

follow-Scarce :
    (limits : Limits) (space : ℕ → Option Space) (k m : ℕ) (p : Pass)
    (next : List ℕ → Capture → Pass)
    → k ≤ m
    → Scarce limits.minimum_free space k p
    → ((rest : List ℕ) (s : Capture)
        → length rest ≤ k
        → Scarce limits.minimum_free space m (next rest s))
    → Scarce limits.minimum_free space m (follow p next)
unfolding Scarce follow
follow-Scarce limits space k m (going rest s) next le h after = after rest s h
follow-Scarce limits space k m (halted transcript_limit s) next le h after = tt
follow-Scarce limits space k m (halted storage_reserve s) next le h after =
    Scarce-more limits space k m (halted storage_reserve s) le h
follow-Scarce limits space k m (failed e s) next le h after = tt
follow-Scarce limits space k m (out_of_fuel s) next le h after = tt

chunk-Scarce :
    (limits : Limits) (space : ℕ → Option Space) (fuel : ℕ) (chunk : List ℕ) (s : Capture)
    → Scarce limits.minimum_free space (length chunk) (capture_chunk limits space fuel chunk s)
unfolding Scarce capture_chunk capture_pass
chunk-Scarce limits space fuel [] s = omega arith
chunk-Scarce limits space zero (byte ∷ bytes) s = tt
chunk-Scarce limits space (suc fuel) (byte ∷ bytes) s =
    let k = length (byte ∷ bytes) in
    follow-Scarce limits space k k
      (rolled_pass limits space (byte ∷ bytes) s (roll limits.segment_bytes s))
      (λ rest s'. capture_chunk limits space fuel rest s') (omega arith)
      (pass-Scarce limits space (byte ∷ bytes) s (roll limits.segment_bytes s))
      (λ rest s' le.
        Scarce-more limits space (length rest) k (capture_chunk limits space fuel rest s') le
          (chunk-Scarce limits space fuel rest s'))

chunks-Scarce :
    (limits : Limits) (space : ℕ → Option Space) (chunks : List (List ℕ)) (s : Capture)
    → Scarce limits.minimum_free space
        (length (joined chunks))
        (capture_chunks limits space chunks s)
unfolding Scarce capture_chunks joined
chunks-Scarce limits space [] s = omega arith
chunks-Scarce limits space (chunk ∷ chunks) s =
    follow-Scarce limits space (length chunk) (length (chunk ++ joined chunks))
      (capture_chunk limits space (length chunk) chunk s)
      (λ rest s'. capture_chunks limits space chunks s')
      (omega (arith, length-append chunk (joined chunks)))
      (chunk-Scarce limits space (length chunk) chunk s)
      (λ rest s' le.
        Scarce-more limits space (length (joined chunks)) (length (chunk ++ joined chunks))
          (capture_chunks limits space chunks s')
          (omega (arith, length-append chunk (joined chunks)))
          (chunks-Scarce limits space chunks s'))

pub capture_from-Scarce :
    (limits : Limits) (space : ℕ → Option Space) (chunks : List (List ℕ)) (d : Directory)
    (inventory : Inventory)
    → Scarce limits.minimum_free space
        (length (joined chunks))
        (capture_from limits space chunks d inventory)
unfolding Scarce capture_from
capture_from-Scarce limits space chunks d inventory =
    elim (Bool-cases (eqb (limits.maximum - inventory.size) 0)) [
      | inl full ↦ rw full tt
      | inr room ↦ rw room (
          chunks-Scarce
            (record limits {
              segment_bytes =
                  settled_bytes limits.maximum (min limits.segment_bytes limits.maximum) inventory;
            })
            space chunks (begin_capture limits.maximum inventory d))
    ]
