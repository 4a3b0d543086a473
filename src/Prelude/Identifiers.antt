-- ===== src/Prelude/Identifiers.antt =====
-- Identifiers of letters, digits and underscores, as the libraries want them in names.
use Prim.Native.Char.{Char, code}
use Prim.Native.String.{String, [], ◌∷◌}
use mathlib.Core.Bool.{Bool, true, false, not, ◌&&◌}
use polymarket_indexer.Prelude.Tests.{leb, ◌==◌, if◌then◌else◌}

-- A letter, a digit or the underscore.
is_name_char : Char → Bool
is_name_char c =
    if leb 97 (code c) && leb (code c) 122
    then true
    else if leb 65 (code c) && leb (code c) 90
    then true
    else if leb 48 (code c) && leb (code c) 57
    then true
    else code c == 95

is_name_rest : String → Bool
unfolding is_name_char
is_name_rest [] = true
is_name_rest (c ∷ s) = is_name_char c && is_name_rest s

-- A text of these, not empty, that starts with no digit.
unfoldable pub is_name : String → Bool
unfolding is_name_rest
is_name [] = false
is_name (c ∷ s) = not (leb 48 (code c) && leb (code c) 57) && is_name_rest (c ∷ s)
