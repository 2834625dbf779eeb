-- ===== src/Prelude/Words.antt =====
-- `strings.ToLower`, `strconv.Atoi` and `%d` on the words of a command or of a hand description.
use Prim.Native.Nat.{ℕ, zero, suc, ◌+◌, ◌-◌, ◌*◌, ◌/◌, ◌%◌}
use Prim.Native.Char.{Char, code}
use Prim.Native.String.{String, [], ◌∷◌, char_at}
use mathlib.Core.Bool.{Bool, true, false, ◌&&◌, ◌||◌}
use mathlib.Core.Option.{Option, none, some}
use uknow.Prelude.Tests.{leb, ltb, ◌==◌, if◌then◌else◌}

-- The letters from A to Z become small. Other letters are left as they are.
abbrev lower_char : Char → Char
lower_char c =
    if leb 65 (code c) && leb (code c) 90
    then char_at "abcdefghijklmnopqrstuvwxyz" (code c - 65)
    else c

unfoldable pub to_lower : String → String
to_lower [] = []
to_lower (c ∷ s) = lower_char c ∷ to_lower s

-- The value of the digits, after those with the value n.
unfoldable pub digits_from : ℕ → String → Option ℕ
digits_from n [] = some n
digits_from n (c ∷ s) =
    if leb 48 (code c) && leb (code c) 57 then digits_from (10 * n + (code c - 48)) s else none

-- A word has no sign. A value of 2^63 or more is out of range.
unfoldable pub atoi : String → Option ℕ
atoi [] = none
atoi (c ∷ s) = elim (digits_from 0 (c ∷ s)) [
  | none ↦ none
  | some n ↦ if ltb n 9223372036854775808 then some n else none
]

-- What follows the prefix.
unfoldable pub strip : String → String → Option String
strip [] s = some s
strip (c ∷ p) [] = none
strip (c ∷ p) (d ∷ s) = if code c == code d then strip p s else none

-- A blank of ASCII.
abbrev is_space : Char → Bool
is_space c = leb 9 (code c) && leb (code c) 13 || code c == 32

abbrev trim_left : String → String
trim_left [] = []
trim_left (c ∷ s) = if is_space c then trim_left s else c ∷ s

abbrev no_text : String → Bool
no_text [] = true
no_text (c ∷ s) = false

abbrev trim_right : String → String
trim_right [] = []
trim_right (c ∷ s) = let t = trim_right s in if is_space c && no_text t then [] else c ∷ t

-- `strings.TrimSpace`
abbrev pub trim_space : String → String
trim_space s = trim_right (trim_left s)

-- `%d`, with enough fuel for the digits.
unfoldable pub decimal_from : ℕ → ℕ → String → String
decimal_from zero n text = text
decimal_from (suc fuel) n text =
    let longer = char_at "0123456789" (n % 10) ∷ text in
    if n / 10 == 0 then longer else decimal_from fuel (n / 10) longer

abbrev pub decimal : ℕ → String
decimal n = decimal_from (n + 1) n ""
