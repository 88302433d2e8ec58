-- ===== src/Terminal/Cursors.antt =====
-- apps/agent/src/tmux.js, `encodeCursor` and `parseCursor`: a place in a transcript as a text. A text is
-- its characters.
use dp_beget_bridge.Base.{
  ltb, leb, eqb, if◌then◌else◌, codes, length, all, is_digit, is_id_char, Result, ok, err, ℕ, zero,
  suc, ◌+◌, ◌-◌, ◌*◌, ◌/◌, ◌%◌, Bool, true, false, not, ◌&&◌, ◌||◌, Option, none, some, List, [],
  ◌∷◌, ◌++◌,
}
use dp_beget_bridge.Agent.Model.{invalid_cursor, StateError, bridge_error, Session}

-- A decimal numeral, with the digits that are there already behind it.
unfoldable pub decimal_before : ℕ → ℕ → List ℕ → List ℕ
decimal_before zero n digits = digits
decimal_before (suc fuel) n digits =
    let more = decimal_before fuel (n / 10) ((n % 10 + 48) ∷ digits) in
    if ltb n 10 then (n + 48) ∷ digits else more

-- String(n)
unfoldable pub decimal : ℕ → List ℕ
unfolding decimal_before
decimal n = decimal_before (suc n) n []

-- Number(text), of a text of digits
abbrev pub number_from : ℕ → List ℕ → ℕ
number_from n [] = n
number_from n (c ∷ cs) = number_from (n * 10 + (c - 48)) cs

abbrev pub safe_integer : ℕ → Bool
safe_integer n = leb n 9007199254740991

-- `v${CURSOR_VERSION}:${session.transcriptStreamId}:${session.transcriptEpoch}:${offset}`
unfoldable pub encode_cursor : Session → ℕ → List ℕ
unfolding decimal
encode_cursor session offset =
    (b'v' ∷ decimal 1)
    ++ b':' ∷ (codes session.stream_id ++ b':' ∷ (decimal session.epoch ++ b':' ∷ decimal offset))

abbrev pub push : ℕ → List (List ℕ) → List (List ℕ)
push c [] = (c ∷ []) ∷ []
push c (field ∷ fields) = (c ∷ field) ∷ fields

-- The fields between the colons: no class of the expression has a colon in it.
unfoldable pub fields_of : List ℕ → List (List ℕ)
fields_of [] = [] ∷ []
fields_of (c ∷ cs) = let rest = fields_of cs in if eqb c b':' then [] ∷ rest else push c rest

abbrev pub is_number : List ℕ → Bool
is_number cs = leb 1 (length cs) && all is_digit cs

abbrev pub is_stream_id : List ℕ → Bool
is_stream_id cs = leb 1 (length cs) && leb (length cs) 80 && all is_id_char cs

-- the groups of the expression
pub record CursorMatch : Type 0 where
  pub version : List ℕ
  pub stream_id : List ℕ
  pub epoch : List ℕ
  pub offset : List ℕ

unfoldable pub match_fields : List (List ℕ) → Option CursorMatch
match_fields ((c ∷ version) ∷ stream_id ∷ epoch ∷ offset ∷ []) =
    if eqb c b'v'
      && is_number version
      && is_stream_id stream_id
      && is_number epoch
      && is_number offset
    then some (record { version = version; stream_id = stream_id; epoch = epoch; offset = offset })
    else none
match_fields _ = none

-- ^v(\d+):([a-zA-Z0-9_-]{1,80}):(\d+):(\d+)$
unfoldable pub match_cursor : List ℕ → Option CursorMatch
unfolding fields_of match_fields
match_cursor cs = match_fields (fields_of cs)

-- The argument: undefined or null, a number (`none` where it is no natural number), or a text.
pub data CursorValue : Type 0 where
  absent : CursorValue
  numeric : Option ℕ → CursorValue
  text : List ℕ → CursorValue

pub record Requested : Type 0 where
  pub offset : ℕ
  pub mismatch : Bool

abbrev pub plain_offset : Option ℕ → Result StateError Requested
plain_offset none = err (bridge_error invalid_cursor 400)
plain_offset (some n) =
    if safe_integer n
    then ok (record { offset = n; mismatch = false })
    else err (bridge_error invalid_cursor 400)

abbrev pub same_codes : List ℕ → List ℕ → Bool
same_codes [] [] = true
same_codes [] (d ∷ ds) = false
same_codes (c ∷ cs) [] = false
same_codes (c ∷ cs) (d ∷ ds) = eqb c d && same_codes cs ds

unfoldable pub matched_offset : Session → Option CursorMatch → Result StateError Requested
matched_offset session none = err (bridge_error invalid_cursor 400)
matched_offset session (some found) =
    let epoch = number_from 0 found.epoch in
    let offset = number_from 0 found.offset in
    if not (eqb (number_from 0 found.version) 1)
      || not (safe_integer epoch)
      || ltb epoch 1
      || not (safe_integer offset)
    then err (bridge_error invalid_cursor 400)
    else ok (record {
      offset = offset;
      mismatch =
          not (same_codes found.stream_id (codes session.stream_id))
          || not (eqb epoch session.epoch);
    })

unfoldable pub parse_text : List ℕ → Session → Result StateError Requested
unfolding matched_offset match_cursor
parse_text [] session = ok (record { offset = session.earliest_offset; mismatch = false })
parse_text (c ∷ cs) session =
    if all is_digit (c ∷ cs)
    then plain_offset (some (number_from 0 (c ∷ cs)))
    else matched_offset session (match_cursor (c ∷ cs))

unfoldable pub parse_cursor : CursorValue → Session → Result StateError Requested
unfolding parse_text
parse_cursor absent session = ok (record { offset = session.earliest_offset; mismatch = false })
parse_cursor (numeric n) session = plain_offset n
parse_cursor (text cs) session = parse_text cs session
