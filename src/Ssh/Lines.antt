-- ===== src/Ssh/Lines.antt =====
-- Commands as texts and as lists of lines.
use Prim.Native.Char.{Char, code}
use Prim.Native.String.{◌++◌ as str_append}
use xbench_community.Prelude.{
  String, true, false, List, [], ◌∷◌, ◌≡◌, is_line_break, is_text, strip,
}

abbrev pub IsUnbroken : String → Type 0
IsUnbroken String.[] = Unit
IsUnbroken (String.◌∷◌ c s) = (is_line_break (code c) ≡ false) × IsUnbroken s

-- A line as it stands in a clean command: not empty, without a break, and without spaces around.
abbrev pub IsClean : String → Type 0
IsClean l = (is_text l ≡ true) × IsUnbroken l × (strip l ≡ l)

-- The last line has text; those before it may be empty.
abbrev pub IsLines : List String → Type 0
IsLines [] = Unit
IsLines (l ∷ []) = IsUnbroken l × (is_text l ≡ true)
IsLines (l ∷ m ∷ ls) = IsUnbroken l × IsLines (m ∷ ls)
