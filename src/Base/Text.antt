-- ===== src/Base/Text.antt =====
-- Texts as the source's regular expressions and `length` read them.
use Prim.Native.Nat.{ℕ, suc, ◌+◌}
use Prim.Native.Char.{code}
use Prim.Native.String.{String}
use mathlib.Core.Bool.{Bool, true, false, ◌&&◌, ◌||◌}
use mathlib.Core.List.{List, [], ◌∷◌}
use dp_beget_bridge.Base.Tests.{ltb, leb, eqb, if◌then◌else◌}

-- The code points of a text.
abbrev pub codes : String → List ℕ
codes String.[] = []
codes (String.◌∷◌ c s) = code c ∷ codes s

abbrev pub length {ℓ} : {A : Type ℓ} → List A → ℕ
length [] = 0
length (x ∷ xs) = suc (length xs)

-- JavaScript's `length`: a code point past U+FFFF counts twice.
abbrev pub units : List ℕ → ℕ
units [] = 0
units (c ∷ cs) = (if ltb c 65536 then 1 else 2) + units cs

abbrev pub utf16_length : String → ℕ
utf16_length s = units (codes s)

-- Every item passes the test.
abbrev pub all {ℓ} : {A : Type ℓ} → (A → Bool) → List A → Bool
all p [] = true
all p (x ∷ xs) = p x && all p xs

-- Some item passes the test.
abbrev pub any {ℓ} : {A : Type ℓ} → (A → Bool) → List A → Bool
any p [] = false
any p (x ∷ xs) = p x || any p xs

abbrev pub is_lower : ℕ → Bool
is_lower c = leb b'a' c && leb c b'z'

abbrev pub is_upper : ℕ → Bool
is_upper c = leb b'A' c && leb c b'Z'

abbrev pub is_digit : ℕ → Bool
is_digit c = leb b'0' c && leb c b'9'

-- [a-zA-Z0-9_-]
abbrev pub is_id_char : ℕ → Bool
is_id_char c = is_lower c || is_upper c || is_digit c || eqb c b'_' || eqb c b'-'

-- ^[class]{low,high}$
abbrev pub matches_class : (ℕ → Bool) → ℕ → ℕ → String → Bool
matches_class class low high s =
    let cs = codes s in leb low (length cs) && leb (length cs) high && all class cs
