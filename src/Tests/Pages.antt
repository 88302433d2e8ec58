-- ===== src/Tests/Pages.antt =====
-- `utf8SafePrefixLength` of tmux.js at concrete inputs.
use dp_beget_bridge.Base.{
  length, ℕ, zero, suc, ◌+◌, ◌≤◌, ◌<◌, ◌≡◌, refl, false, List, [], ◌∷◌, arith,
}
use dp_beget_bridge.Agent.Utf8.{
  byte_at, is_continuation, sequence_length, utf8_safe_prefix_length, IsText,
  utf8_safe_prefix_length_lem,
}

-- "é" and "b"
abbrev buffer : List ℕ
buffer = 195 ∷ 169 ∷ 98 ∷ []

byte_past : (bytes : List ℕ) (i : ℕ) → length bytes ≤ i → byte_at bytes i ≡ 0
unfolding byte_at
byte_past [] i h = refl
byte_past (b ∷ bs) zero h = absurd (omega arith)
byte_past (b ∷ bs) (suc i) h = byte_past bs i (omega arith)

buffer_next :
    (i : ℕ)
    → is_continuation (byte_at buffer i) ≡ false
    → is_continuation (byte_at buffer (i + sequence_length (byte_at buffer i))) ≡ false
unfolding byte_at is_continuation sequence_length
buffer_next zero e = refl
buffer_next (suc zero) e = cc
buffer_next (suc (suc zero)) e = refl
buffer_next (suc (suc (suc i))) e = rw (byte_past buffer (suc (suc (suc i)) + 1) (omega arith)) refl

buffer-IsText : IsText buffer
unfolding byte_at is_continuation
buffer-IsText = record { first = refl; next = buffer_next }

-- a page of one byte is widened to the whole first character
widened : utf8_safe_prefix_length buffer 1 ≡ 2
unfolding utf8_safe_prefix_length byte_at is_continuation
widened = refl

utf8_safe_prefix_length_lem_example :
    (is_continuation (byte_at buffer (utf8_safe_prefix_length buffer 1)) ≡ false)
    × (utf8_safe_prefix_length buffer 1 ≤ length buffer)
    × (sequence_length (byte_at buffer 0) ≤ length buffer
        → 0 < 1
        → 0 < utf8_safe_prefix_length buffer 1)
utf8_safe_prefix_length_lem_example = utf8_safe_prefix_length_lem buffer 1 buffer-IsText
