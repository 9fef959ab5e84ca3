-- ===== src/Text/Width/Columns.antt =====
-- `fb_wcwidth` with its table as a set.
use fbbs.Common.{
  ℕ, ◌-◌, ◌≡◌, refl, Bool, true, false, ◌||◌, ◌&&◌, ltb, leb, ◌==◌, if◌then◌else◌, length,
}
use fbbs.Common.Run.{ok}
use fbbs.Text.Width.{Width, control, columns, combining, is_wide, fb_wcwidth}
use fbbs.Text.Width.Search.{covers, sorted_from, bisearch_lem}

combining_sorted : sorted_from 0 combining ≡ true
unfolding sorted_from
combining_sorted = refl

-- The width, with the table as a set.
unfoldable pub width_of : ℕ → Width
width_of ch =
    if ch == 0
    then columns 0
    else if ltb ch 32 || (leb 0x7f ch && ltb ch 0xa0)
    then control
    else if covers ch combining
    then columns 0
    else if is_wide ch
    then columns 2
    else columns 1

widths :
    (nul other narrow two : Bool)
    → (if nul
        then ok (columns 0)
        else if other
        then ok control
        else ok (columns (if narrow then 0 else if two then 2 else 1)))
      ≡ ok (
          if nul
          then columns 0
          else if other
          then control
          else if narrow
          then columns 0
          else if two
          then columns 2
          else columns 1)
widths true other narrow two = refl
widths false true narrow two = refl
widths false false true two = refl
widths false false false true = refl
widths false false false false = refl

-- `fb_wcwidth` ends for every character, reads inside the table, and gives the width that follows from
-- the table as a set.
pub fb_wcwidth_lem : (ch : ℕ) → fb_wcwidth ch ≡ ok (width_of ch)
unfolding fb_wcwidth width_of
fb_wcwidth_lem ch = rw (bisearch_lem ch (length combining - 1) combining combining_sorted refl) (
    widths (ch == 0) (ltb ch 32 || (leb 0x7f ch && ltb ch 0xa0)) (covers ch combining) (is_wide ch))
