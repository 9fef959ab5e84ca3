-- ===== src/XmlPost.antt =====
-- fcgi/parse.c: a post as the content of an XML element. A range of bytes is a list, a pointer into it
-- the list of the bytes from there on, and what is printed a list of bytes.
pub mod Content
pub mod Ansi
pub mod Paragraph
pub mod Body
pub mod Header
pub mod Escape
mod Tests
use fbbs.Common.CString.{begins_with}
use fbbs.Text.Case.{to_lower}
use fbbs.Common.{
  ℕ, zero, suc, ◌+◌, ◌-◌, Bool, true, false, ◌&&◌, ◌||◌, Option, none, some, List, [], ◌∷◌, ◌++◌,
  leb, ltb, ◌==◌, if◌then◌else◌, length, drop,
}

-- `_xml_escape_internal`, for one byte.
unfoldable pub escape_char : ℕ → List ℕ
escape_char c =
    if c == 60
    then 38 ∷ 108 ∷ 116 ∷ 59 ∷ []
    else if c == 62
    then 38 ∷ 103 ∷ 116 ∷ 59 ∷ []
    else if c == 38
    then 38 ∷ 97 ∷ 109 ∷ 112 ∷ 59 ∷ []
    else if c == 32
    then 38 ∷ 35 ∷ 49 ∷ 54 ∷ 48 ∷ 59 ∷ []
    else if leb 1 c && leb c 8 || leb 10 c && leb c 31
    then []
    else c ∷ []

unfoldable pub escape : List ℕ → List ℕ
escape [] = []
escape (c ∷ s) = escape_char c ++ escape s

-- `_xml_escape`: `convert` stands for the conversion of libiconv, and for nothing where the request
-- is in UTF-8.
abbrev pub xml_escape : (convert : List ℕ → List ℕ) → List ℕ → List ℕ
xml_escape convert s = escape (convert s)

-- `_memstr`: the bytes before the first place of the pattern, and those from there on.
unfoldable pub memstr : (pattern s : List ℕ) → Option (List ℕ × List ℕ)
memstr pattern [] = none
memstr pattern (c ∷ s) =
    let further = memstr pattern s in
    if begins_with pattern (c ∷ s)
    then some ([], c ∷ s)
    else elim further [ none ↦ none | some r ↦ some (c ∷ r.0, r.1) ]

-- `get_line_end`: the line with its newline, and what is behind it.
unfoldable pub get_line_end : List ℕ → List ℕ × List ℕ
get_line_end [] = ([], [])
get_line_end (c ∷ s) =
    let rest = get_line_end s in if c == 10 then (c ∷ [], s) else (c ∷ rest.0, rest.1)

-- `BEGIN_WITH`: the comparison is that of `strncasecmp`.
unfoldable pub begins_with_case : (pattern s : List ℕ) → Bool
begins_with_case [] s = true
begins_with_case (p ∷ ps) [] = false
begins_with_case (p ∷ ps) (c ∷ s) = to_lower p == to_lower c && begins_with_case ps s

-- `END_WITH`
unfoldable pub ends_with_case : (pattern s : List ℕ) → Bool
ends_with_case pattern s =
    leb (length pattern) (length s) && begins_with_case pattern (drop (length s - length pattern) s)
