-- ===== src/Agent/Completion.antt =====
-- state-store.js, `readOperationCompletion`: the exit record that the shell writes.
use dp_beget_bridge.Base.{
  ltb, leb, eqb, if◌then◌else◌, is_digit, Result, ok, err, Action, modify, find, delete, ℕ, ◌+◌,
  ◌-◌, ◌*◌, ◌/◌, ◌%◌, ◌≤◌, String, ◌≡◌, Bool, ◌&&◌, Option, none, some, List, [], ◌∷◌, arith, ◌==◌,
}
use dp_beget_bridge.Agent.Model.{
  operation_completion_invalid, StateError, bridge_error, file_error, ExitFile, State,
}

-- `\n?$`: one line feed at the end may be left out
unfoldable pub strip_newline : List ℕ → List ℕ
strip_newline [] = []
strip_newline (c ∷ []) = if eqb c b'\n' then [] else c ∷ []
strip_newline (c ∷ d ∷ cs) = c ∷ strip_newline (d ∷ cs)

-- 1 to 9
is_nonzero : ℕ → Bool
is_nonzero c = leb b'1' c && leb c b'9'

-- ^(0|[1-9]\d{0,2})$, with the number that it reads
unfoldable pub exit_number : List ℕ → Option ℕ
unfolding is_nonzero
exit_number (c ∷ []) = if is_digit c then some (c - 48) else none
exit_number (c ∷ d ∷ []) =
    if is_nonzero c && is_digit d then some ((c - 48) * 10 + (d - 48)) else none
exit_number (c ∷ d ∷ e ∷ []) =
    if is_nonzero c && is_digit d && is_digit e
    then some ((c - 48) * 100 + (d - 48) * 10 + (e - 48))
    else none
exit_number _ = none

in_byte : Option ℕ → Option ℕ
in_byte none = none
in_byte (some n) = if ltb 255 n then none else some n

-- The exit code of a record; `none` where the code throws operation_completion_invalid.
unfoldable pub parse_exit : List ℕ → Option ℕ
unfolding strip_newline exit_number in_byte
parse_exit raw = in_byte (exit_number (strip_newline raw))

pub record Completion : Type 0 where
  pub exit_code : ℕ
  pub completed_at : ℕ

abbrev pub exit_file_is : String → String → ExitFile → Bool
exit_file_is session_id operation_id file =
    file.session_id == session_id && file.operation_id == operation_id

unfoldable pub completion_of : Option ℕ → ℕ → Result StateError (Option Completion)
completion_of none at = err (bridge_error operation_completion_invalid 503)
completion_of (some code) at = ok (some (record { exit_code = code; completed_at = at }))

unfoldable pub read_exit : Option ExitFile → Result StateError (Option Completion)
unfolding completion_of
read_exit none = ok none
read_exit (some file) =
    if file.unreadable then err file_error else completion_of (parse_exit file.raw) file.modified_at

unfoldable pub read_operation_completion :
    String → String → State → Result StateError (Option Completion)
unfolding read_exit parse_exit
read_operation_completion session_id operation_id s =
    read_exit (find (exit_file_is session_id operation_id) s.exits)

-- `fs.rm` of the record; the `.part` file beside it is no record
unfoldable pub prepare_operation_completion : String → String → Action State StateError (Unit {0})
prepare_operation_completion session_id operation_id =
    modify (λ s. record s { exits = delete (exit_file_is session_id operation_id) s.exits })

-- The shell's `printf '%s\n' "$__dpb_exit"`, which writes the record.
unfoldable pub print_exit : ℕ → List ℕ
print_exit n =
    if ltb n 10
    then (n + 48) ∷ b'\n' ∷ []
    else if ltb n 100
    then (n / 10 + 48) ∷ (n % 10 + 48) ∷ b'\n' ∷ []
    else (n / 100 + 48) ∷ (n / 10 % 10 + 48) ∷ (n % 10 + 48) ∷ b'\n' ∷ []

-- The record of an exit code of one byte is read back as that code.
pub parse_exit-print_exit : (n : ℕ) → n ≤ 255 → parse_exit (print_exit n) ≡ some n
unfolding parse_exit print_exit
parse_exit-print_exit n h = ground arith

-- An exit code that a record is accepted for fits a byte.
pub parse_exit_bound : (raw : List ℕ) (n : ℕ) → parse_exit raw ≡ some n → n ≤ 255
unfolding parse_exit in_byte
parse_exit_bound raw n h = ground arith
