-- ===== src/Terminal/Lengths.antt =====
-- apps/agent/src/tmux.js, `readOutput`: how long a page is, and how many bytes are skipped before it.
use dp_beget_bridge.Base.{
  eqb, Bool-cases, length, all, take, ℕ, ◌+◌, ◌-◌, ◌≤◌, min, max, ◌≡◌, refl, inl, inr, true, List,
  [], ◌∷◌, arith,
}
use dp_beget_bridge.Agent.Utf8.{
  byte_at, is_continuation, sequence_length, lead_from, whole_first, cut_at,
  utf8_safe_prefix_length, lead_le, cut_at_le, cut_at_pos,
}
use dp_beget_bridge.Terminal.Pages.{skip_from}

sequence_le : (b : ℕ) → sequence_length b ≤ 4
unfolding sequence_length
sequence_le b = ground arith

whole_first-max : (buffer : List ℕ) (cut : ℕ) → whole_first buffer cut ≤ max cut 4
unfolding whole_first
whole_first-max buffer cut = ground (arith, sequence_le (byte_at buffer 0))

cut_at-max : (buffer : List ℕ) (last : ℕ) → cut_at buffer last ≤ max (last + 1) 4
unfolding cut_at
cut_at-max buffer last =
    let lead = lead_from buffer last in
    ground
      (arith, lead_le buffer last, whole_first-max buffer lead, whole_first-max buffer (last + 1))

-- A page lies in its buffer, is no longer than it may be, and is not empty where the buffer has room
-- for any character.
pub safe_bounds :
    (buffer : List ℕ) (preferred : ℕ)
    → (utf8_safe_prefix_length buffer preferred ≤ length buffer)
      × (utf8_safe_prefix_length buffer preferred ≤ max preferred 4)
      × (1 ≤ preferred → 4 ≤ length buffer → 1 ≤ utf8_safe_prefix_length buffer preferred)
unfolding utf8_safe_prefix_length
safe_bounds buffer preferred =
    let last = min preferred (length buffer) - 1 in
    elim (Bool-cases (eqb (min preferred (length buffer)) 0)) [
      | inl empty ↦ rw empty (
        omega arith,
        omega arith,
        λ some_length room.
            absurd (let z : min preferred (length buffer) ≡ 0 = ground arith in omega arith),
      )
      | inr more ↦
          let pos : 1 ≤ min preferred (length buffer) = ground arith in
          rw more (
            cut_at_le buffer last (omega arith),
            omega (arith, cut_at-max buffer last),
            λ some_length room.
                cut_at_pos buffer last (omega (arith, sequence_le (byte_at buffer 0))),
          )
    ]

pub skip_from_le : (bytes : List ℕ) → skip_from bytes ≤ length bytes
unfolding skip_from
skip_from_le [] = omega arith
skip_from_le (byte ∷ bytes) = ground (arith, skip_from_le bytes)

pub skip_from-continuations :
    (bytes : List ℕ) → all is_continuation (take (skip_from bytes) bytes) ≡ true
unfolding skip_from take
skip_from-continuations [] = refl
skip_from-continuations (byte ∷ bytes) = elim (Bool-cases (is_continuation byte)) [
  | inl on ↦ rw on (rw on (skip_from-continuations bytes))
  | inr off ↦ rw off refl
]
