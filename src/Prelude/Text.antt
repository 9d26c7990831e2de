-- ===== src/Prelude/Text.antt =====
-- `String.prototype.trim` and the emptiness test of a text.
use Prim.Native.Nat.{ℕ}
use Prim.Native.Char.{Char, code}
use Prim.Native.String.{String}
use mathlib.Core.Bool.{Bool, true, false, ◌&&◌, ◌||◌}
use qift_platform.Prelude.Tests.{◌==◌, leb, if◌then◌else◌}

unfoldable pub is_empty : String → Bool
is_empty String.[] = true
is_empty (String.◌∷◌ c s) = false

-- The white space and line terminators that `trim` removes: those of one byte, those of Unicode's
-- category Zs, the separators of lines and paragraphs, and the byte order mark.
is_space : ℕ → Bool
is_space c =
    c == 32
    || (leb 9 c && leb c 13)
    || c == 160
    || c == 5760
    || (leb 8192 c && leb c 8202)
    || c == 8232
    || c == 8233
    || c == 8239
    || c == 8287
    || c == 12288
    || c == 65279

trim_start : String → String
unfolding is_space
trim_start String.[] = ""
trim_start (String.◌∷◌ c s) = if is_space (code c) then trim_start s else String.◌∷◌ c s

trim_end : String → String
unfolding is_space is_empty
trim_end String.[] = ""
trim_end (String.◌∷◌ c s) =
    let rest = trim_end s in if is_space (code c) && is_empty rest then "" else String.◌∷◌ c rest

unfoldable pub trim : String → String
unfolding trim_start trim_end
trim s = trim_end (trim_start s)

-- The letter of the second alphabet at the place that a character has in the first.
translate : String → String → Char → Char
translate String.[] us c = c
translate (String.◌∷◌ l ls) String.[] c = c
translate (String.◌∷◌ l ls) (String.◌∷◌ u us) c = if code c == code l then u else translate ls us c

-- `toUpperCase`, on the letters of ASCII; any other character stays.
unfoldable pub to_upper : String → String
unfolding translate
to_upper String.[] = ""
to_upper (String.◌∷◌ c s) =
    String.◌∷◌ (translate "abcdefghijklmnopqrstuvwxyz" "ABCDEFGHIJKLMNOPQRSTUVWXYZ" c) (to_upper s)
