-- ===== src/FileStore/Format/Lines.antt =====
-- What eventcore-fs/src/format.rs uses of `str`: `find` of a newline, `lines`, `trim` and `join`.
use Prim.Native.Char.{Char, code}
use Prim.Native.String
use eventcore.Prelude.{
  ℕ, String, List, [], ◌∷◌, map, Bool, true, ◌||◌, ◌&&◌, Option, none, some, eqb, leb,
  if◌then◌else◌,
}

abbrev pub is_newline : Char → Bool
is_newline c = eqb (code c) 10

-- The text before the first newline and the text behind it.
unfoldable pub split_line : String → Option (String × String)
split_line String.[] = none
split_line (String.◌∷◌ c s) =
    let rest = split_line s in
    if is_newline c
    then some ("", s)
    else elim rest [ none ↦ none | some (line, payload) ↦ some (String.◌∷◌ c line, payload) ]

-- A character goes in front of the first line.
abbrev push_front : Char → List String → List String
push_front c [] = String.◌∷◌ c "" ∷ []
push_front c (line ∷ rest) = String.◌∷◌ c line ∷ rest

-- `split_terminator('\n')`
unfoldable pub split_lines : String → List String
split_lines String.[] = []
split_lines (String.◌∷◌ c s) =
    if is_newline c then "" ∷ split_lines s else push_front c (split_lines s)

-- A carriage return at the end of a line goes with its newline.
unfoldable pub strip_return : String → String
strip_return String.[] = ""
strip_return (String.◌∷◌ c String.[]) = if eqb (code c) 13 then "" else String.◌∷◌ c ""
strip_return (String.◌∷◌ c (String.◌∷◌ d s)) = String.◌∷◌ c (strip_return (String.◌∷◌ d s))

abbrev pub lines : String → List String
lines s = map strip_return (split_lines s)

abbrev between : ℕ → ℕ → ℕ → Bool
between low high n = leb low n && leb n high

-- `char::is_whitespace`
abbrev pub is_whitespace : Char → Bool
is_whitespace c =
    let n = code c in
    between 9 13 n
    || eqb n 32
    || eqb n 133
    || eqb n 160
    || eqb n 5760
    || between 8192 8202 n
    || between 8232 8233 n
    || eqb n 8239
    || eqb n 8287
    || eqb n 12288

-- `trim().is_empty()`
unfoldable pub is_blank : String → Bool
is_blank String.[] = true
is_blank (String.◌∷◌ c s) = is_whitespace c && is_blank s

-- `join("\n")`
unfoldable pub join : List String → String
join [] = ""
join (line ∷ []) = line
join (line ∷ next ∷ rest) = String.◌++◌ line (String.◌++◌ "\n" (join (next ∷ rest)))
