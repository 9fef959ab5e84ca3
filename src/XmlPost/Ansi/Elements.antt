-- ===== src/XmlPost/Ansi/Elements.antt =====
-- The elements that `_print_ansi_text` prints.
use mathlib.Core.Path.{ap₂}
use fbbs.Common.{
  subst, ℕ, ◌+◌, ◌≡◌, refl, ap, ◌∙◌, not, ◌&&◌, ◌||◌, List, [], ◌∷◌, ◌++◌, arith, leb, ◌==◌,
  if◌then◌else◌,
}
use fbbs.Common.Run.{ok}
use fbbs.XmlPost.{escape_char, escape, xml_escape}
use fbbs.XmlPost.Content.{start_tag, end_tag}
use fbbs.XmlPost.Ansi.{Color, decimal, parse_ansi_code, print_ansi_text}
use fbbs.XmlPost.Ansi.Colours.{IsColor, open_color-start_tag}
use fbbs.XmlPost.Ansi.Parameters.{read_code, parse_ansi_code-read_code}
use fbbs.XmlPost.Ansi.Pieces.{split, coloured, print_ansi_text-coloured}

-- "&lt;", "&gt;", "&amp;" and "&#160;" for the bytes that do not stand for themselves, and nothing for
-- control characters other than NUL and the tabulator.
abbrev pub quoted_char : ℕ → List ℕ
quoted_char c =
    if leb 33 c && not (c == 60 || (c == 62 || c == 38)) || (c == 0 || c == 9)
    then c ∷ []
    else if c == 32
    then 38 ∷ 35 ∷ 49 ∷ 54 ∷ 48 ∷ 59 ∷ []
    else if c == 60
    then 38 ∷ 108 ∷ 116 ∷ 59 ∷ []
    else if c == 62
    then 38 ∷ 103 ∷ 116 ∷ 59 ∷ []
    else if c == 38
    then 38 ∷ 97 ∷ 109 ∷ 112 ∷ 59 ∷ []
    else []

unfoldable pub quoted : List ℕ → List ℕ
quoted [] = []
quoted (c ∷ s) = quoted_char c ++ quoted s

escape_char-quoted_char : (c : ℕ) → escape_char c ≡ quoted_char c
unfolding escape_char
escape_char-quoted_char c = ground arith

escape-quoted : (s : List ℕ) → escape s ≡ quoted s
unfolding escape quoted
escape-quoted [] = refl
escape-quoted (c ∷ s) = ap₂ (λ t u. t ++ u) (escape_char-quoted_char c) (escape-quoted s)

-- "h", "f" and "b"
abbrev pub color_attributes : Color → List (List ℕ × List ℕ)
color_attributes k =
    (104 ∷ [], decimal (k.hl + 1) k.hl)
    ∷ (102 ∷ [], decimal (k.fg + 1) k.fg)
    ∷ (98 ∷ [], decimal (k.bg + 1) k.bg)
    ∷ []

module _ (convert : List ℕ → List ℕ) where
  abbrev element : Color → (text : List ℕ) → List ℕ × Color → List ℕ × Color
  element k text rest =
      (start_tag (99 ∷ []) (color_attributes k) ++ (text ++ (end_tag (99 ∷ []) ++ rest.0)), rest.1)

  -- An element "c" for each piece, of the colour that its code leaves; and the last colour.
  unfoldable pub elements : List (List ℕ) → Color → List ℕ × Color
  elements [] k = ([], k)
  elements (piece ∷ pieces) k =
      let code = read_code piece k in
      let rest = elements pieces code.1 in
      (
        start_tag (99 ∷ []) (color_attributes code.1)
            ++ (quoted (convert code.0) ++ (end_tag (99 ∷ []) ++ rest.0)),
        rest.1,
      )

  coloured-elements :
      (pieces : List (List ℕ)) (k : Color) → coloured convert pieces k ≡ elements pieces k
  unfolding coloured elements
  coloured-elements [] k = refl
  coloured-elements (piece ∷ pieces) k =
      let code = parse_ansi_code piece k in
      let rest = coloured convert pieces code.1 in
      ap (λ t. (t, rest.1))
        (open_color-start_tag code.1 (xml_escape convert code.0 ++ (end_tag (99 ∷ []) ++ rest.0)))
      ∙ (ap₂ (λ t r. element code.1 t r) (escape-quoted (convert code.0))
            (coloured-elements pieces code.1)
          ∙ ap (λ c. element c.1 (quoted (convert c.0)) (elements pieces c.1))
              (parse_ansi_code-read_code piece k))

  -- Of a text, that before the first ESC is printed with "<", ">", "&" and spaces as references and without
  -- control characters, and then for each ESC an element "c" around the text up to the next ESC, printed
  -- likewise; so each element is closed before the next is opened. Its colour is the one before, changed by
  -- the numbers between "[" and "m" behind the ESC, or the plain colour where there are none; where the code
  -- is none, its colour is the one before. From a colour that a terminal has, such a one is left.
  pub print_ansi_text_lem :
      (s : List ℕ) (k : Color)
      → IsColor k
      → (print_ansi_text convert s k
          ≡ ok (
            quoted (convert (split s).0) ++ (elements (split s).1 k).0,
            (elements (split s).1 k).1,
          ))
        × IsColor (elements (split s).1 k).1
  print_ansi_text_lem s k v =
      let (run, color) = print_ansi_text-coloured convert s k v in
      let same = coloured-elements (split s).1 k in
      (
        run ∙ ap₂ (λ t r. ok (t ++ r.0, r.1)) (escape-quoted (convert (split s).0)) same,
        subst (λ r. IsColor r.1) same color,
      )
