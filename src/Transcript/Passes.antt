-- ===== src/Transcript/Passes.antt =====
-- scripts/transcript-capture.mjs: a pass of the loop leaves what the files hold and appends a part of the
-- chunk to it.
use mathlib.Core.List.{append-nil}
use native.Mathlib.Nat.{suc-mul}
use dp_beget_bridge.Base.{
  eqb, Bool-cases, lt-cases, length, take, drop, length-append, length-take, length-drop, take-drop,
  ok, err, ℕ, suc, ◌+◌, ◌*◌, ◌≤◌, ◌<◌, ◌≡◌, refl, sym, ap, subst, ◌∙◌, ◌≢◌, inl, inr, true, false,
  Option, List, [], ◌∷◌, ◌++◌, arith,
}
use dp_beget_bridge.Transcript.Segments.{TranscriptError, index_over_limit, Directory, segment_path}
use dp_beget_bridge.Transcript.Capture.{
  Space, Limits, Stop, transcript_limit, storage_reserve, Capture, Pass, going, halted, failed,
  out_of_fuel, roll, portion_length, is_sufficient, write_portion, after_write, mark_stop,
  portion_pass, rolled_pass, capture_pass,
}
use dp_beget_bridge.Transcript.Inventories.{joined, Sized}
use dp_beget_bridge.Transcript.Progress.{
  Writing, Kept, State, write-Writing, Writing-Kept, Kept-mark, Ready, Blank-Ready,
}
use dp_beget_bridge.Transcript.Opening.{rolled, Full-Ready, Open-Ready}

-- The input is a portion that is written and a rest that is not, with what else is known of the number of
-- bytes that there are then.
pub record Put (segment_bytes : ℕ) (w input : List ℕ) (d : Directory) (Known : ℕ → Type 0)
    : Type 0 where
  pub portion : List ℕ
  pub rest : List ℕ
  pub split : input ≡ portion ++ rest
  pub kept : Kept segment_bytes (w ++ portion) d
  pub known : Known (length (w ++ portion))

abbrev pub Stopped : Limits → Capture → Stop → ℕ → Type 0
Stopped limits s transcript_limit total = total ≡ limits.maximum
Stopped limits s storage_reserve total =
    (total ≤ limits.maximum) × (1 ≤ limits.minimum_free) × (s.directory.stop_marker ≡ true)

abbrev pub Failed : Limits → TranscriptError → ℕ → Type 0
Failed limits e total =
    (total ≤ limits.maximum) × (e ≡ index_over_limit) × (total ≡ 1025 * limits.segment_bytes)

-- What a pass, or several, may come to.
unfoldable pub Fine : Limits → (w input : List ℕ) → Pass → Type 0
Fine limits w input (going rest s) =
    (portion : List ℕ) × (input ≡ portion ++ rest)
    × State limits.segment_bytes limits.maximum (w ++ portion) s
    × (1 ≤ s.remaining)
Fine limits w input (halted stop s) =
    Put limits.segment_bytes w input s.directory (Stopped limits s stop)
Fine limits w input (failed e s) = Put limits.segment_bytes w input s.directory (Failed limits e)
Fine limits w input (out_of_fuel s) = ⊥

unfoldable pub Shortens : List ℕ → Pass → Type 0
Shortens chunk (going rest s) = length rest < length chunk
Shortens chunk _ = Unit

after-write :
    (limits : Limits) (w chunk : List ℕ) (n : ℕ) (s : Capture)
    → 1 ≤ n
    → n ≤ length chunk
    → n ≤ s.remaining
    → s.segment_size + n ≤ limits.segment_bytes
    → Writing limits.segment_bytes limits.maximum w s
    → Fine limits w chunk (after_write (drop n chunk) (write_portion (take n chunk) s))
      × Shortens chunk (after_write (drop n chunk) (write_portion (take n chunk) s))
unfolding Fine Shortens State write_portion
after-write limits w chunk n s pos short room fits now =
    let taken : length (take n chunk) ≡ n = omega (arith, length-take n chunk) in
    let next =
      write-Writing limits.segment_bytes limits.maximum w (take n chunk) s now
        (omega (arith, taken)) (omega (arith, taken)) in
    elim (Bool-cases (eqb (write_portion (take n chunk) s).remaining 0)) [
      | inl done ↦
          let all_written : (write_portion (take n chunk) s).remaining ≡ 0 = ground arith in
          rw done (
            record {
              portion = take n chunk;
              rest = drop n chunk;
              split = sym (take-drop n chunk);
              kept =
                  Writing-Kept limits.segment_bytes limits.maximum (w ++ take n chunk)
                    (write_portion (take n chunk) s) next;
              known = omega (arith, next.left, all_written);
            },
            tt,
          )
      | inr more ↦ rw more (
        (take n chunk, sym (take-drop n chunk), inr next, ground arith),
        omega (arith, length-drop n chunk),
      )
    ]

-- nothing of the input is written
nothing_put :
    (segment_bytes : ℕ) (w input : List ℕ) (d : Directory) (Known : ℕ → Type 0)
    → Kept segment_bytes w d
    → Known (length w)
    → Put segment_bytes w input d Known
nothing_put segment_bytes w input d Known kept known = record {
  portion = [];
  rest = input;
  split = refl;
  kept = subst (λ v. Kept segment_bytes v d) (sym (append-nil w)) kept;
  known = subst (λ v. Known (length v)) (sym (append-nil w)) known;
}

refused :
    (limits : Limits) (n : ℕ) (space : Option Space)
    → is_sufficient limits.minimum_free n space ≡ false
    → 1 ≤ limits.minimum_free
unfolding is_sufficient
refused limits n space h = ground arith

portion_pass-Fine :
    (limits : Limits) (space : ℕ → Option Space) (w chunk : List ℕ) (s : Capture)
    → Ready limits.segment_bytes limits.maximum w s
    → 1 ≤ s.remaining
    → 1 ≤ length chunk
    → length w ≤ limits.maximum
    → Fine limits w chunk (portion_pass limits space chunk s)
      × Shortens chunk (portion_pass limits space chunk s)
unfolding portion_pass Fine Shortens
portion_pass-Fine limits space w chunk s ready left some_input small =
    let n = portion_length limits.segment_bytes chunk s in
    elim (Bool-cases (is_sufficient limits.minimum_free n (space s.remaining))) [
      | inl enough ↦
          rw (enough, ready.opens)
            (after-write limits w chunk n ready.after (omega (arith, ready.room)) (omega arith)
              (omega (arith, ready.same_left)) (omega (arith, ready.same_size, ready.room))
              ready.now)
      | inr less ↦ rw less (
        nothing_put limits.segment_bytes w chunk (mark_stop s).directory
            (Stopped limits (mark_stop s) storage_reserve)
            (Kept-mark limits.segment_bytes w s.directory ready.kept)
            (small, refused limits n (space s.remaining) less, refl),
        tt,
      )
    ]

full_length :
    (segment_bytes : ℕ) (before : List (List ℕ)) (last : List ℕ)
    → Sized segment_bytes (before ++ last ∷ [])
    → length last ≡ segment_bytes
    → length (joined (before ++ last ∷ [])) ≡ suc (length before) * segment_bytes
unfolding Sized joined
full_length segment_bytes [] last h full = omega (arith, length-append last [])
full_length segment_bytes (bytes ∷ []) last (e, h) full =
    omega (arith, length-append bytes (last ++ []), length-append last [])
full_length segment_bytes (bytes ∷ other ∷ before) last (e, h) full =
    let rest = full_length segment_bytes (other ∷ before) last h full in
    omega (
      arith,
      length-append bytes (joined ((other ∷ before) ++ last ∷ [])),
      suc-mul (suc (suc (length before))) segment_bytes,
    )

last_fits :
    (segment_bytes : ℕ) (before : List (List ℕ)) (last : List ℕ)
    → Sized segment_bytes (before ++ last ∷ [])
    → length last ≤ segment_bytes
unfolding Sized
last_fits segment_bytes [] last h = h
last_fits segment_bytes (bytes ∷ []) last (e, h) = h
last_fits segment_bytes (bytes ∷ other ∷ before) last (e, h) =
    last_fits segment_bytes (other ∷ before) last h

roll_over :
    (segment_bytes : ℕ) (s : Capture)
    → s.segment_size ≡ segment_bytes
    → s.index + 1 ≤ 1024
    → roll segment_bytes s ≡ ok (rolled s)
unfolding roll segment_path
roll_over segment_bytes s full low = ground arith

roll_ends :
    (segment_bytes : ℕ) (s : Capture)
    → s.segment_size ≡ segment_bytes
    → 1024 < s.index + 1
    → roll segment_bytes s ≡ err index_over_limit
unfolding roll segment_path
roll_ends segment_bytes s full high = ground arith

roll_stays :
    (segment_bytes : ℕ) (s : Capture) → s.segment_size ≢ segment_bytes → roll segment_bytes s ≡ ok s
unfolding roll
roll_stays segment_bytes s h = ground arith

-- a pass that begins with a full file
full_pass-Fine :
    (limits : Limits) (space : ℕ → Option Space) (w chunk : List ℕ) (s : Capture)
    → 1 ≤ limits.segment_bytes
    → (now : Writing limits.segment_bytes limits.maximum w s)
    → s.segment_size ≡ limits.segment_bytes
    → 1 ≤ s.remaining
    → 1 ≤ length chunk
    → Fine limits w chunk (rolled_pass limits space chunk s (roll limits.segment_bytes s))
      × Shortens chunk (rolled_pass limits space chunk s (roll limits.segment_bytes s))
unfolding Fine Shortens
full_pass-Fine limits space w chunk s pos now full left some_input =
    elim (lt-cases 1024 (s.index + 1)) [
      | inl ends ↦
          let all_full : length w ≡ suc (length now.before) * limits.segment_bytes =
            ap length (sym now.content)
            ∙ full_length limits.segment_bytes now.before now.last now.sized
                (sym now.filled ∙ full) in
          let last_index : suc (length now.before) ≡ 1025 = omega (arith, now.few, now.at_last) in
          rw (roll_ends limits.segment_bytes s full ends) (
            nothing_put limits.segment_bytes w chunk s.directory (Failed limits index_over_limit)
                (Writing-Kept limits.segment_bytes limits.maximum w s now)
                (
                  omega (arith, now.left),
                  refl,
                  all_full ∙ ap (λ n. n * limits.segment_bytes) last_index,
                ),
            tt,
          )
      | inr low ↦ rw (roll_over limits.segment_bytes s full low) (
          portion_pass-Fine limits space w chunk (rolled s)
            (Full-Ready limits.segment_bytes limits.maximum w s pos now full low) left some_input
            (omega (arith, now.left)))
    ]

pub capture_pass-Fine :
    (limits : Limits) (space : ℕ → Option Space) (w chunk : List ℕ) (s : Capture)
    → 1 ≤ limits.segment_bytes
    → State limits.segment_bytes limits.maximum w s
    → 1 ≤ s.remaining
    → 1 ≤ length chunk
    → Fine limits w chunk (capture_pass limits space chunk s)
      × Shortens chunk (capture_pass limits space chunk s)
unfolding capture_pass State Fine Shortens Sized
capture_pass-Fine limits space w chunk s pos (inl blank) left some_input =
    rw (roll_stays limits.segment_bytes s (λ e. absurd (omega (arith, blank.nothing)))) (
      portion_pass-Fine limits space w chunk s
        (Blank-Ready limits.segment_bytes limits.maximum w s pos blank) left some_input
        (omega (arith, ap length blank.content)))
capture_pass-Fine limits space w chunk s pos (inr now) left some_input =
    elim (lt-cases s.segment_size limits.segment_bytes) [
      | inl room ↦ rw (roll_stays limits.segment_bytes s (λ e. absurd (omega arith))) (
          portion_pass-Fine limits space w chunk s
            (Open-Ready limits.segment_bytes limits.maximum w s now room) left some_input
            (omega (arith, now.left)))
      | inr no_room ↦
          full_pass-Fine limits space w chunk s pos now
            (omega
              (arith, now.filled, last_fits limits.segment_bytes now.before now.last now.sized))
            left some_input
    ]
