-- ===== src/Text/Filter.antt =====
-- The functions that take characters out of a string in its place. The bytes that were written stand
-- in `out`, and `gap` bytes in front of the one that is read next.
pub mod Printable
pub mod Escapes
use fbbs.Common.{
  ℕ, zero, suc, ◌+◌, Bool, true, false, not, ◌&&◌, ◌||◌, List, [], ◌∷◌, ◌++◌, ltb, leb, ◌==◌,
  if◌then◌else◌, length, take, drop,
}
use fbbs.Common.Run.{Run, ok, fault, endless, overlap, ◌>>=◌}
use fbbs.Text.{char_at, Next, at_end, invalid, wide, next_wchar, no_limit}
use fbbs.Text.Width.{fb_wcwidth}
use fbbs.Text.Validate.{is_positive}

-- `memcpy` of `n` bytes to an address `gap` bytes in front of them, or nothing where it is the same.
unfoldable pub copy_down : List ℕ → (out : List ℕ) → (gap n : ℕ) → Run (List ℕ)
copy_down s out gap n = if not (gap == 0) && ltb gap n then fault overlap else ok (out ++ take n s)

-- The body of the loop of `string_remove_non_printable`: what was written, the gap, and how far the
-- pointer moves.
unfoldable pub filter_next : List ℕ → (out : List ℕ) → (gap : ℕ) → Next → Run (List ℕ × ℕ × ℕ)
filter_next s out gap at_end = ok (out, gap, 0)
filter_next s out gap invalid = ok (out, gap + 1, 1)
filter_next s out gap (wide wc incr) = if wc == 0 then ok (out, gap + incr, incr) else do
  w ← fb_wcwidth wc
  if is_positive w
      then (do written ← copy_down s out gap incr; ok (written, gap, incr))
      else ok (out, gap + incr, incr)

pub filter_loop : (fuel : ℕ) → List ℕ → (out : List ℕ) → (gap : ℕ) → Run (List ℕ)
filter_loop zero s out gap = fault endless
filter_loop (suc fuel) s out gap = if char_at s 0 == 0 then ok out else do
  (written, behind, incr) ← filter_next s out gap (next_wchar s no_limit)
  filter_loop fuel (drop incr s) written behind

pub remove_non_printable : List ℕ → Run (List ℕ)
remove_non_printable s = filter_loop (length s + 1) s [] 0

-- `isalpha` in the C locale.
abbrev pub is_alpha : ℕ → Bool
is_alpha c = (leb 65 c && leb c 90) || (leb 97 c && leb c 122)

-- The loop of `string_remove_ansi_control_code`.
unfoldable pub escape_loop : (flag : Bool) → List ℕ → List ℕ
escape_loop flag [] = []
escape_loop flag (c ∷ s) =
    let inside = escape_loop true s in
    let outside = escape_loop false s in
    if c == 27
    then inside
    else if not flag
    then c ∷ outside
    else if is_alpha c
    then outside
    else inside

-- The result is as long as the string at most, so it can stand in its place.
unfoldable pub remove_ansi_control_code : List ℕ → List ℕ
remove_ansi_control_code s = escape_loop false s
