-- ===== src/Agent/Shell.antt =====
-- apps/agent/src/tmux.js: `shellQuote`, with which a command and paths are put into the line that is
-- pasted into a shell. A text is its characters.
use mathlib.Core.Option
use dp_beget_bridge.Base.{
  eqb, if◌then◌else◌, Bool-cases, ℕ, ◌≡◌, refl, inl, inr, Option, none, some, List, [], ◌∷◌, ◌++◌,
  arith,
}

-- value.replaceAll("'", "'\\''")
unfoldable pub escape_quotes : List ℕ → List ℕ
escape_quotes [] = []
escape_quotes (c ∷ cs) =
    let rest = escape_quotes cs in
    if eqb c b'\'' then b'\'' ∷ b'\\' ∷ b'\'' ∷ b'\'' ∷ rest else c ∷ rest

unfoldable pub shell_quote : List ℕ → List ℕ
unfolding escape_quotes
shell_quote value = b'\'' ∷ (escape_quotes value ++ b'\'' ∷ [])

-- Where a POSIX shell is in a word.
pub data Place : Type 0 where
  outside escaped quoted : Place

-- How a POSIX shell reads a word that is quoted by single quotes and backslashes: between single quotes
-- every character stands for itself, and outside of them a backslash makes the next one literal. It is
-- `none` where a quote is not closed, or where a character stands outside of the quotes.
unfoldable pub read_word : Place → List ℕ → Option (List ℕ)
read_word outside [] = some []
read_word escaped [] = none
read_word quoted [] = none
read_word escaped (c ∷ cs) = Option.map (λ w. c ∷ w) (read_word outside cs)
read_word outside (c ∷ cs) =
    let inside = read_word quoted cs in
    let literal = read_word escaped cs in
    if eqb c b'\'' then inside else if eqb c b'\\' then literal else none
read_word quoted (c ∷ cs) =
    let closed = read_word outside cs in
    let rest = read_word quoted cs in if eqb c b'\'' then closed else Option.map (λ w. c ∷ w) rest

quoted_rest : (value : List ℕ) → read_word quoted (escape_quotes value ++ b'\'' ∷ []) ≡ some value
unfolding escape_quotes read_word
quoted_rest [] = refl
quoted_rest (c ∷ cs) = elim (Bool-cases (eqb c b'\'')) [
  | inl quote ↦ rw quote (rw (quoted_rest cs) (ground arith))
  | inr other ↦ rw other (rw other (rw (quoted_rest cs) refl))
]

-- A quoted text is one word of the shell, and the word is the text, whatever characters are in it.
pub read_word-shell_quote : (value : List ℕ) → read_word outside (shell_quote value) ≡ some value
unfolding shell_quote read_word
read_word-shell_quote value = quoted_rest value
