-- ===== src/Terminal/CursorText.antt =====
-- apps/agent/src/tmux.js: a cursor is read back as the place that it was made for.
use dp_beget_bridge.Base.{
  ltb, eqb, lt-cases, codes, length, all, is_digit, is_id_char, ok, ℕ, zero, suc, ◌+◌, ◌/◌, ◌%◌,
  ◌≤◌, ◌<◌, ◌≡◌, refl, ap, ◌∙◌, inl, inr, Bool, true, false, not, ◌||◌, some, List, [], ◌∷◌, ◌++◌,
  arith,
}
use dp_beget_bridge.Agent.Model.{Session}
use dp_beget_bridge.Terminal.Cursors.{
  decimal_before, decimal, number_from, encode_cursor, fields_of, is_number, is_stream_id,
  match_fields, match_cursor, text, same_codes, matched_offset, parse_text, parse_cursor,
}

number-decimal_before :
    (fuel n : ℕ) (digits : List ℕ)
    → n < fuel
    → number_from 0 (decimal_before fuel n digits) ≡ number_from n digits
unfolding decimal_before
number-decimal_before zero n digits h = absurd (omega arith)
number-decimal_before (suc fuel) n digits h = elim (lt-cases n 10) [
  | inl small ↦
      let first : ltb n 10 ≡ true = ground arith in
      rw first (ap (λ k. number_from k digits) (omega arith))
  | inr large ↦
      let first : ltb n 10 ≡ false = ground arith in
      rw first (
        number-decimal_before fuel (n / 10) ((n % 10 + 48) ∷ digits) (omega arith)
        ∙ ap (λ k. number_from k digits) (omega arith))
]

fields_of-append :
    (xs ys : List ℕ)
    → all (λ c. not (eqb c b':')) xs ≡ true
    → fields_of (xs ++ b':' ∷ ys) ≡ xs ∷ fields_of ys
unfolding fields_of
fields_of-append [] ys h = refl
fields_of-append (c ∷ xs) ys h =
    let plain : eqb c b':' ≡ false = ground arith in
    let others : all (λ d. not (eqb d b':')) xs ≡ true = ground arith in
    rw (plain, fields_of-append xs ys others) refl

fields_of_plain : (xs : List ℕ) → all (λ c. not (eqb c b':')) xs ≡ true → fields_of xs ≡ xs ∷ []
unfolding fields_of
fields_of_plain [] h = refl
fields_of_plain (c ∷ xs) h =
    let plain : eqb c b':' ≡ false = ground arith in
    let others : all (λ d. not (eqb d b':')) xs ≡ true = ground arith in
    rw (plain, fields_of_plain xs others) refl

same_codes_refl : (cs : List ℕ) → same_codes cs cs ≡ true
same_codes_refl [] = refl
same_codes_refl (c ∷ cs) = ground (arith, same_codes_refl cs)

all_weaken :
    (p q : ℕ → Bool) (xs : List ℕ)
    → ((x : ℕ) → p x ≡ true → q x ≡ true)
    → all p xs ≡ true
    → all q xs ≡ true
all_weaken p q [] weaker h = refl
all_weaken p q (x ∷ xs) weaker h = ground (arith, weaker x, all_weaken p q xs weaker)

decimal_before-digits :
    (fuel n : ℕ) (digits : List ℕ)
    → all is_digit digits ≡ true
    → all is_digit (decimal_before fuel n digits) ≡ true
unfolding decimal_before
decimal_before-digits zero n digits h = h
decimal_before-digits (suc fuel) n digits h = elim (lt-cases n 10) [
  | inl small ↦ let first : ltb n 10 ≡ true = ground arith in rw first (ground arith)
  | inr large ↦
      let first : ltb n 10 ≡ false = ground arith in
      rw first (decimal_before-digits fuel (n / 10) ((n % 10 + 48) ∷ digits) (ground arith))
]

decimal_before_longer :
    (fuel n : ℕ) (digits : List ℕ) → n < fuel → 1 ≤ length (decimal_before fuel n digits)
unfolding decimal_before
decimal_before_longer zero n digits h = absurd (omega arith)
decimal_before_longer (suc fuel) n digits h = elim (lt-cases n 10) [
  | inl small ↦ let first : ltb n 10 ≡ true = ground arith in rw first (omega arith)
  | inr large ↦
      let first : ltb n 10 ≡ false = ground arith in
      rw first (decimal_before_longer fuel (n / 10) ((n % 10 + 48) ∷ digits) (omega arith))
]

number-decimal : (n : ℕ) → number_from 0 (decimal n) ≡ n
unfolding decimal
number-decimal n = number-decimal_before (suc n) n [] (omega arith)

decimal-digits : (n : ℕ) → all is_digit (decimal n) ≡ true
unfolding decimal
decimal-digits n = decimal_before-digits (suc n) n [] refl

decimal-is_number : (n : ℕ) → is_number (decimal n) ≡ true
unfolding decimal
decimal-is_number n = ground (arith, decimal_before_longer (suc n) n [], decimal-digits n)

decimal-no_colon : (n : ℕ) → all (λ c. not (eqb c b':')) (decimal n) ≡ true
decimal-no_colon n =
    all_weaken is_digit (λ c. not (eqb c b':')) (decimal n) (λ c h. ground arith) (decimal-digits n)

stream-no_colon : (cs : List ℕ) → is_stream_id cs ≡ true → all (λ c. not (eqb c b':')) cs ≡ true
stream-no_colon cs h =
    all_weaken is_id_char (λ c. not (eqb c b':')) cs (λ c k. ground arith) (ground arith)

-- the fields of a cursor
fields_of-encode :
    (session : Session) (offset : ℕ)
    → is_stream_id (codes session.stream_id) ≡ true
    → fields_of (encode_cursor session offset)
      ≡ (b'v' ∷ decimal 1) ∷ codes session.stream_id ∷ decimal session.epoch ∷ decimal offset ∷ []
unfolding encode_cursor
fields_of-encode session offset h =
    fields_of-append (b'v' ∷ decimal 1)
      (codes session.stream_id ++ b':' ∷ (decimal session.epoch ++ b':' ∷ decimal offset))
      (decimal-no_colon 1)
    ∙ ap (λ fs. (b'v' ∷ decimal 1) ∷ fs)
        (fields_of-append (codes session.stream_id) (decimal session.epoch ++ b':' ∷ decimal offset)
            (stream-no_colon (codes session.stream_id) h)
          ∙ ap (λ fs. codes session.stream_id ∷ fs)
              (fields_of-append (decimal session.epoch) (decimal offset)
                  (decimal-no_colon session.epoch)
                ∙ ap (λ fs. decimal session.epoch ∷ fs)
                    (fields_of_plain (decimal offset) (decimal-no_colon offset))))

match-encode :
    (session : Session) (offset : ℕ)
    → is_stream_id (codes session.stream_id) ≡ true
    → match_cursor (encode_cursor session offset)
      ≡ some (record {
        version = decimal 1;
        stream_id = codes session.stream_id;
        epoch = decimal session.epoch;
        offset = decimal offset;
      })
unfolding match_cursor match_fields
match-encode session offset h =
    rw
      (
        fields_of-encode session offset h,
        decimal-is_number 1,
        h,
        decimal-is_number session.epoch,
        decimal-is_number offset,
      )
      refl

parse-encode :
    (issued session : Session) (offset : ℕ)
    → parse_text (encode_cursor issued offset) session
      ≡ matched_offset session (match_cursor (encode_cursor issued offset))
unfolding parse_text encode_cursor
parse-encode issued session offset = refl

matched-decimal :
    (issued session : Session) (offset : ℕ)
    → 1 ≤ issued.epoch
    → issued.epoch ≤ 9007199254740991
    → offset ≤ 9007199254740991
    → matched_offset session (
        some (record {
          version = decimal 1;
          stream_id = codes issued.stream_id;
          epoch = decimal issued.epoch;
          offset = decimal offset;
        }))
      ≡ ok (record {
        offset = offset;
        mismatch =
            not (same_codes (codes issued.stream_id) (codes session.stream_id))
            || not (eqb issued.epoch session.epoch);
      })
unfolding matched_offset
matched-decimal issued session offset pos safe short =
    rw (number-decimal 1, number-decimal issued.epoch, number-decimal offset) (ground arith)

-- The cursor of a place, made for a session, is read for a session as that place; it is taken as one of
-- another stream exactly where the stream's identifier or its epoch has changed.
pub parse_cursor-encode_cursor :
    (issued session : Session) (offset : ℕ)
    → is_stream_id (codes issued.stream_id) ≡ true
    → 1 ≤ issued.epoch
    → issued.epoch ≤ 9007199254740991
    → offset ≤ 9007199254740991
    → parse_cursor (text (encode_cursor issued offset)) session
      ≡ ok (record {
        offset = offset;
        mismatch =
            not (same_codes (codes issued.stream_id) (codes session.stream_id))
            || not (eqb issued.epoch session.epoch);
      })
unfolding parse_cursor matched_offset
parse_cursor-encode_cursor issued session offset h pos safe short =
    parse-encode issued session offset
    ∙ ap (matched_offset session) (match-encode issued offset h)
    ∙ matched-decimal issued session offset pos safe short
