-- ===== src/XmlPost/Ansi.antt =====
-- Colour codes in a post: `_parse_ansi_code` and `_print_ansi_text`.
pub mod Colours
pub mod Parameters
pub mod Pieces
pub mod Elements
use fbbs.Common.{
  ℕ, zero, suc, ◌+◌, ◌-◌, ◌*◌, ◌/◌, ◌%◌, ◌^◌, Bool, true, false, ◌&&◌, ◌||◌, Option, none, some,
  List, [], ◌∷◌, ◌++◌, min, leb, ltb, ◌==◌, if◌then◌else◌, length,
}
use fbbs.Common.Run.{Run, ok, fault, endless, ◌>>=◌}
use fbbs.XmlPost.{xml_escape}

-- `ansi_color_t`
pub record Color : Type 0 where
  pub hl : ℕ
  pub fg : ℕ
  pub bg : ℕ

abbrev pub plain_color : Color
plain_color = record { hl = 0; fg = 37; bg = 40 }

-- The variable `a` of `_parse_ansi_code`; -1 is none.
pub record Codes : Type 0 where
  pub hl : Option ℕ
  pub fg : Option ℕ
  pub bg : Option ℕ

abbrev pub no_codes : Codes
no_codes = record { hl = none; fg = none; bg = none }

-- `strtol` on decimal digits, up to LONG_MAX, as an int.
unfoldable pub number : (sofar : ℕ) → List ℕ → ℕ
number sofar [] = min sofar (2 ^ 63 - 1) % 2 ^ 32
number sofar (d ∷ ds) = number (10 * sofar + (d - 48)) ds

unfoldable pub set_code : Codes → ℕ → Codes
set_code a num =
    if num == 0 || num == 1
    then record a { hl = some num }
    else if leb 30 num && leb num 37
    then record a { fg = some num }
    else if leb 40 num && leb num 47
    then record a { bg = some num }
    else a

abbrev pub or_else : Option ℕ → ℕ → ℕ
or_else none n = n
or_else (some m) n = m

unfoldable pub merge : Codes → Color → Color
merge a ansi = record {
  hl = or_else a.hl ansi.hl;
  fg = or_else a.fg ansi.fg;
  bg = or_else a.bg ansi.bg;
}

-- The loop of `_parse_ansi_code`: `digits` are the bytes from `last` on, `first` tells whether none
-- was read.
unfoldable pub code_loop : (first : Bool) → Codes → (digits s : List ℕ) → Color → List ℕ × Color
code_loop first a digits [] ansi = ([], ansi)
code_loop first a digits (c ∷ s) ansi =
    let read = set_code a (number 0 digits) in
    let further = code_loop false read [] s ansi in
    let longer = code_loop false a (digits ++ c ∷ []) s ansi in
    if c == 109
    then (s, if first then plain_color else merge read ansi)
    else if c == 59
    then further
    else if leb 48 c && leb c 57
    then longer
    else (c ∷ s, ansi)

-- `_parse_ansi_code`, from behind the ESC.
unfoldable pub parse_ansi_code : List ℕ → Color → List ℕ × Color
parse_ansi_code [] ansi = ([], ansi)
parse_ansi_code (c ∷ s) ansi = if c == 91 then code_loop true no_codes [] s ansi else (c ∷ s, ansi)

-- `%d` of printf
unfoldable pub decimal : (fuel n : ℕ) → List ℕ
decimal zero n = []
decimal (suc fuel) n =
    let more = decimal fuel (n / 10) in
    if ltb n 10 then (48 + n) ∷ [] else more ++ (48 + n % 10) ∷ []

-- "<c h='%d' f='%d' b='%d'>"
abbrev pub open_color : Color → List ℕ
open_color k =
    (60 ∷ 99 ∷ 32 ∷ 104 ∷ 61 ∷ 39 ∷ [])
    ++ decimal (k.hl + 1) k.hl
    ++ (39 ∷ 32 ∷ 102 ∷ 61 ∷ 39 ∷ [])
    ++ decimal (k.fg + 1) k.fg
    ++ (39 ∷ 32 ∷ 98 ∷ 61 ∷ 39 ∷ [])
    ++ decimal (k.bg + 1) k.bg
    ++ 39 ∷ 62 ∷ []

-- "</c>", where an element is open.
abbrev pub close_color : Bool → List ℕ
close_color false = []
close_color true = 60 ∷ 47 ∷ 99 ∷ 62 ∷ []

module _ (convert : List ℕ → List ℕ) where
  -- The loop of `_print_ansi_text`: `pending` are the bytes from `last` to `s`.
  unfoldable pub ansi_loop :
      (fuel : ℕ) → (opened : Bool) → (pending s : List ℕ) → Color → Run (List ℕ × Color)
  ansi_loop zero opened pending s ansi = fault endless
  ansi_loop (suc fuel) opened pending [] ansi =
      ok (xml_escape convert pending ++ close_color opened, ansi)
  ansi_loop (suc fuel) opened pending (c ∷ s) ansi =
      if c == 27
      then (do
        let code = parse_ansi_code s ansi
        rest ← ansi_loop fuel true [] code.0 code.1
        ok (
          xml_escape convert pending ++ (close_color opened ++ (open_color code.1 ++ rest.0)),
          rest.1,
        ))
      else ansi_loop fuel opened (pending ++ c ∷ []) s ansi

  -- What is printed, and the colour that is left. Each round takes a byte.
  unfoldable pub print_ansi_text : List ℕ → Color → Run (List ℕ × Color)
  print_ansi_text s ansi = ansi_loop (length s + 1) false [] s ansi
