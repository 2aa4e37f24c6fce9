-- ===== src/Prelude/Texts.antt =====
-- Python's operations on texts, by recursion on the text. A character is compared by its code.
use Prim.Native.Nat.{ℕ}
use Prim.Native.Char.{Char, code}
use Prim.Native.String.{String, ◌++◌ as str_append}
use mathlib.Core.Bool.{Bool, true, false, not, ◌&&◌, ◌||◌}
use mathlib.Core.List.{List, [], ◌∷◌}
use xbench_community.Prelude.Tests.{◌==◌, leb, if◌then◌else◌}

-- `s.split(sep)`: the first part, and the parts behind each separator.
unfoldable pub split_on : ℕ → String → String × List String
split_on sep String.[] = ("", [])
split_on sep (String.◌∷◌ c s) =
    let (part, parts) = split_on sep s in
    if code c == sep then ("", part ∷ parts) else (String.◌∷◌ c part, parts)

-- `s.replace(c, "")`
unfoldable pub without_char : ℕ → String → String
without_char x String.[] = ""
without_char x (String.◌∷◌ c s) =
    let rest = without_char x s in if code c == x then rest else String.◌∷◌ c rest

-- `c in s`
unfoldable pub has_char : ℕ → String → Bool
has_char x String.[] = false
has_char x (String.◌∷◌ c s) = (code c == x) || has_char x s

-- `s.startswith(c)`
unfoldable pub starts_with_char : ℕ → String → Bool
starts_with_char x String.[] = false
starts_with_char x (String.◌∷◌ c s) = code c == x

-- `sep.join([first] + rest)`
unfoldable pub join : String → String → List String → String
join sep first [] = first
join sep first (next ∷ rest) = str_append first (str_append sep (join sep next rest))

-- The characters at which `str.splitlines` breaks.
abbrev pub is_line_break : ℕ → Bool
is_line_break c =
    (c == 10)
    || (c == 11)
    || (c == 12)
    || (c == 13)
    || (c == 28)
    || (c == 29)
    || (c == 30)
    || (c == 133)
    || (c == 8232)
    || (c == 8233)

-- What `str.strip` takes off: the characters for which `str.isspace` holds.
abbrev pub is_space : ℕ → Bool
is_space c =
    (leb 9 c && leb c 13)
    || (leb 28 c && leb c 32)
    || (c == 133)
    || (c == 160)
    || (c == 5760)
    || (leb 8192 c && leb c 8202)
    || (c == 8232)
    || (c == 8233)
    || (c == 8239)
    || (c == 8287)
    || (c == 12288)

-- A character in front of the lines of what follows; "\r\n" is one break.
unfoldable pub cons_line : Char → String → List String → List String
unfolding starts_with_char
cons_line c s [] = if is_line_break (code c) then "" ∷ [] else String.◌∷◌ c "" ∷ []
cons_line c s (l ∷ ls) =
    if is_line_break (code c)
    then (if (code c == 13) && starts_with_char 10 s then l ∷ ls else "" ∷ l ∷ ls)
    else String.◌∷◌ c l ∷ ls

unfoldable pub splitlines : String → List String
unfolding cons_line
splitlines String.[] = []
splitlines (String.◌∷◌ c s) = cons_line c s (splitlines s)

unfoldable pub strip_start : String → String
strip_start String.[] = ""
strip_start (String.◌∷◌ c s) =
    let rest = strip_start s in if is_space (code c) then rest else String.◌∷◌ c s

-- Whether there is a character.
abbrev pub is_text : String → Bool
is_text String.[] = false
is_text (String.◌∷◌ c s) = true

unfoldable pub strip_end : String → String
strip_end String.[] = ""
strip_end (String.◌∷◌ c s) =
    let rest = strip_end s in
    if is_space (code c) && not (is_text rest) then "" else String.◌∷◌ c rest

-- `s.strip()`
unfoldable pub strip : String → String
unfolding strip_start strip_end
strip s = strip_end (strip_start s)

-- `"".join(parts)`, and an f-string of these parts
unfoldable pub concat : List String → String
concat [] = ""
concat (s ∷ ss) = str_append s (concat ss)

-- `s.startswith(prefix)`
unfoldable pub starts_with : String → String → Bool
starts_with String.[] s = true
starts_with (String.◌∷◌ c p) String.[] = false
starts_with (String.◌∷◌ c p) (String.◌∷◌ d s) = (code c == code d) && starts_with p s

-- `needle in s`
unfoldable pub contains : String → String → Bool
unfolding starts_with
contains needle String.[] = not (is_text needle)
contains needle (String.◌∷◌ c s) = starts_with needle (String.◌∷◌ c s) || contains needle s

-- `s.split()`: the word that `s` begins with, if any, and the other words.
unfoldable pub with_word : String → List String → List String
with_word w ws = if is_text w then w ∷ ws else ws

unfoldable pub split_words : String → String × List String
unfolding with_word
split_words String.[] = ("", [])
split_words (String.◌∷◌ c s) =
    let (w, ws) = split_words s in
    if is_space (code c) then ("", with_word w ws) else (String.◌∷◌ c w, ws)

unfoldable pub words : String → List String
unfolding split_words with_word
words s = let (w, ws) = split_words s in with_word w ws

-- `" ".join(words)`
unfoldable pub unwords : List String → String
unfolding join
unwords [] = ""
unwords (w ∷ ws) = join " " w ws
