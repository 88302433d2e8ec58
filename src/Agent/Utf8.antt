-- ===== src/Agent/Utf8.antt =====
-- apps/agent/src/tmux.js: `utf8SafePrefixLength`, which keeps a page of a transcript from ending inside
-- a character. A buffer is its bytes, and 0 stands for a byte past its end.
use dp_beget_bridge.Base.{
  ltb, leb, eqb, if◌then◌else◌, Bool-cases, length, ℕ, zero, suc, ◌+◌, ◌-◌, ◌≤◌, ◌<◌, min, ◌≡◌, sym,
  subst, ◌∙◌, inl, inr, Bool, true, false, ◌&&◌, List, [], ◌∷◌, arith,
}

unfoldable pub byte_at : List ℕ → ℕ → ℕ
byte_at [] i = 0
byte_at (b ∷ bs) zero = b
byte_at (b ∷ bs) (suc i) = byte_at bs i

-- (byte & 0xc0) === 0x80
unfoldable pub is_continuation : ℕ → Bool
is_continuation b = leb 128 b && ltb b 192

-- The masks of the code, of a byte, as ranges.
unfoldable pub sequence_length : ℕ → ℕ
sequence_length b =
    if ltb b 128
    then 1
    else if leb 192 b && ltb b 224
    then 2
    else if leb 224 b && ltb b 240
    then 3
    else if leb 240 b && ltb b 248
    then 4
    else 1

-- while (lead > 0 && (buffer[lead] & 0xc0) === 0x80) lead -= 1
unfoldable pub lead_from : List ℕ → ℕ → ℕ
lead_from buffer zero = 0
lead_from buffer (suc i) =
    let back = lead_from buffer i in
    if is_continuation (byte_at buffer (suc i)) then back else suc i

-- the last test, for a length that the cut has made
unfoldable pub whole_first : List ℕ → ℕ → ℕ
whole_first buffer cut =
    if eqb cut 0 && leb (sequence_length (byte_at buffer 0)) (length buffer)
    then sequence_length (byte_at buffer 0)
    else cut

-- The length for a preferred length that is one more than `last`, at least 1 and at most the buffer's.
unfoldable pub cut_at : List ℕ → ℕ → ℕ
unfolding whole_first lead_from sequence_length
cut_at buffer last =
    let lead = lead_from buffer last in
    if ltb (last + 1) (lead + sequence_length (byte_at buffer lead))
    then whole_first buffer lead
    else whole_first buffer (last + 1)

unfoldable pub utf8_safe_prefix_length : List ℕ → ℕ → ℕ
unfolding cut_at
utf8_safe_prefix_length buffer preferred =
    if eqb (min preferred (length buffer)) 0
    then 0
    else cut_at buffer (min preferred (length buffer) - 1)

-- A buffer that begins with a character, and where a lead byte's sequence is followed by a lead byte or
-- by the end: a text in UTF-8, whose last character may be cut off.
pub record IsText (buffer : List ℕ) : Type 0 where
  pub first : is_continuation (byte_at buffer 0) ≡ false
  pub next :
      (i : ℕ)
      → is_continuation (byte_at buffer i) ≡ false
      → is_continuation (byte_at buffer (i + sequence_length (byte_at buffer i))) ≡ false

pub sequence_pos : (b : ℕ) → 1 ≤ sequence_length b
unfolding sequence_length
sequence_pos b = ground arith

pub lead_le : (buffer : List ℕ) (i : ℕ) → lead_from buffer i ≤ i
unfolding lead_from
lead_le buffer zero = omega arith
lead_le buffer (suc i) = elim (Bool-cases (is_continuation (byte_at buffer (suc i)))) [
  | inl on ↦ rw on (omega (arith, lead_le buffer i))
  | inr off ↦ rw off (omega arith)
]

lead_first :
    (buffer : List ℕ) (i : ℕ)
    → IsText buffer
    → is_continuation (byte_at buffer (lead_from buffer i)) ≡ false
unfolding lead_from
lead_first buffer zero h = h.first
lead_first buffer (suc i) h = elim (Bool-cases (is_continuation (byte_at buffer (suc i)))) [
  | inl on ↦ rw on (lead_first buffer i h)
  | inr off ↦ rw off off
]

after_lead :
    (buffer : List ℕ) (i j : ℕ)
    → lead_from buffer i < j
    → j ≤ i
    → is_continuation (byte_at buffer j) ≡ true
unfolding lead_from
after_lead buffer zero j low high = absurd (omega arith)
after_lead buffer (suc i) j low high =
    elim (Bool-cases (is_continuation (byte_at buffer (suc i)))) [
      | inr off ↦ absurd (let k = rw off at low in omega arith)
      | inl on ↦
          let k : lead_from buffer i < j = rw on at low in
          elim (Bool-cases (eqb j (suc i))) [
            | inl last ↦
                let same : suc i ≡ j = ground arith in
                subst (λ n. is_continuation (byte_at buffer n) ≡ true) same on
            | inr before ↦ after_lead buffer i j k (ground arith)
          ]
    ]

plus_zero : (n : ℕ) → 0 + n ≡ n
plus_zero n = omega arith

whole_first_lem :
    (buffer : List ℕ) (cut : ℕ)
    → IsText buffer
    → is_continuation (byte_at buffer cut) ≡ false
    → is_continuation (byte_at buffer (whole_first buffer cut)) ≡ false
unfolding whole_first
whole_first_lem buffer cut h ends =
    elim (Bool-cases (eqb cut 0 && leb (sequence_length (byte_at buffer 0)) (length buffer))) [
      | inl whole ↦ rw whole (
          subst (λ n. is_continuation (byte_at buffer n) ≡ false)
            (plus_zero (sequence_length (byte_at buffer 0))) (h.next 0 h.first))
      | inr other ↦ rw other ends
    ]

cut_at_lem :
    (buffer : List ℕ) (last : ℕ)
    → IsText buffer
    → is_continuation (byte_at buffer (cut_at buffer last)) ≡ false
unfolding cut_at
cut_at_lem buffer last h =
    let lead = lead_from buffer last in
    let end = lead + sequence_length (byte_at buffer lead) in
    let after = h.next lead (lead_first buffer last h) in
    elim (Bool-cases (ltb (last + 1) end)) [
      | inl inside ↦ rw inside (whole_first_lem buffer lead h (lead_first buffer last h))
      | inr past ↦ rw past (
          whole_first_lem buffer (last + 1) h (elim (Bool-cases (eqb end (last + 1))) [
            | inl exact ↦
                let same : end ≡ last + 1 = ground arith in
                subst (λ n. is_continuation (byte_at buffer n) ≡ false) same after
            | inr short ↦
                let positive = sequence_pos (byte_at buffer lead) in
                let within = after_lead buffer last end (omega arith) (ground arith) in
                (let bad = sym within ∙ after in cc)
          ]))
    ]

whole_first_le :
    (buffer : List ℕ) (cut : ℕ) → cut ≤ length buffer → whole_first buffer cut ≤ length buffer
unfolding whole_first
whole_first_le buffer cut h = ground arith

whole_first_pos :
    (buffer : List ℕ) (cut : ℕ)
    → sequence_length (byte_at buffer 0) ≤ length buffer
    → 1 ≤ whole_first buffer cut
unfolding whole_first
whole_first_pos buffer cut h = ground (arith, sequence_pos (byte_at buffer 0))

pub cut_at_le :
    (buffer : List ℕ) (last : ℕ) → last + 1 ≤ length buffer → cut_at buffer last ≤ length buffer
unfolding cut_at
cut_at_le buffer last h =
    let lead = lead_from buffer last in
    ground
      (arith, lead_le buffer last, whole_first_le buffer lead, whole_first_le buffer (last + 1))

pub cut_at_pos :
    (buffer : List ℕ) (last : ℕ)
    → sequence_length (byte_at buffer 0) ≤ length buffer
    → 1 ≤ cut_at buffer last
unfolding cut_at
cut_at_pos buffer last h =
    ground
      (arith, whole_first_pos buffer (lead_from buffer last) h, whole_first_pos buffer (last + 1) h)

-- The page of a text never ends inside a character: the byte after it does not continue a sequence. The
-- page lies in the buffer, and it is not empty if the buffer holds its first character and the preferred
-- length is not 0.
pub utf8_safe_prefix_length_lem :
    (buffer : List ℕ) (preferred : ℕ)
    → IsText buffer
    → (is_continuation (byte_at buffer (utf8_safe_prefix_length buffer preferred)) ≡ false)
      × (utf8_safe_prefix_length buffer preferred ≤ length buffer)
      × (sequence_length (byte_at buffer 0) ≤ length buffer
          → 0 < preferred
          → 0 < utf8_safe_prefix_length buffer preferred)
unfolding utf8_safe_prefix_length
utf8_safe_prefix_length_lem buffer preferred h =
    elim (Bool-cases (eqb (min preferred (length buffer)) 0)) [
      | inl empty ↦ rw empty (
        h.first,
        omega arith,
        λ whole some_length. (let positive = sequence_pos (byte_at buffer 0) in ground arith),
      )
      | inr more ↦ rw more (
        cut_at_lem buffer (min preferred (length buffer) - 1) h,
        cut_at_le buffer (min preferred (length buffer) - 1) (ground arith),
        λ whole some_length. cut_at_pos buffer (min preferred (length buffer) - 1) whole,
      )
    ]
