-- ===== src/Prelude/Texts.antt =====
-- Texts made of texts, and texts cut at line ends.
use Prim.Native.Char.{code}
use Prim.Native.String.{String, [] as no_chars, ◌∷◌ as char_cons, ◌++◌ as concat}
use mathlib.Core.List.{List, [], ◌∷◌}
use uknow.Prelude.Tests.{◌==◌, if◌then◌else◌}

-- The texts one after the other.
abbrev pub join : List String → String
join [] = ""
join (s ∷ texts) = concat s (join texts)

-- `strings.Split(s, "\n")`, with the line so far.
unfoldable pub split_lines : String → String → List String
split_lines line no_chars = line ∷ []
split_lines line (char_cons c s) =
    if code c == 10 then line ∷ split_lines "" s else split_lines (concat line (char_cons c "")) s
