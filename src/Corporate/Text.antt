-- ===== src/Corporate/Text.antt =====
-- A text as the list of its UTF-16 code units, as JavaScript indexes it.
use Prim.Native.String.{String}
use Prim.Native.Char.{code}
use qift_platform.Prelude.{ℕ, Bool, ◌&&◌, ◌||◌, List, [], ◌∷◌, ◌==◌, leb, all}

abbrev pub Text : Type 0
Text = List ℕ

-- A literal of the basic plane.
unfoldable pub units : String → Text
units String.[] = []
units (String.◌∷◌ c s) = code c ∷ units s

-- White space and line terminators, which `trim` removes and `\s` matches.
unfoldable pub is_white : ℕ → Bool
is_white c =
    leb 9 c && leb c 13
    || c == 32
    || c == 160
    || c == 0x1680
    || leb 0x2000 c && leb c 0x200a
    || c == 0x2028
    || c == 0x2029
    || c == 0x202f
    || c == 0x205f
    || c == 0x3000
    || c == 0xfeff

-- `s.trim() === ''`
unfoldable pub is_blank : Text → Bool
unfolding is_white
is_blank = all is_white
