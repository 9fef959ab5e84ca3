-- ===== src/Text/Trim.antt =====
-- lib/string.c: functions that shorten, escape and append strings.
pub mod Blanks
pub mod Url
use fbbs.Common.{
  ℕ, zero, suc, ◌+◌, ◌-◌, ◌*◌, ◌/◌, ◌%◌, Bool, true, false, not, ◌&&◌, ◌||◌, Option, none, some,
  List, [], ◌∷◌, ◌++◌, ltb, leb, ◌==◌, if◌then◌else◌, length, take, drop, get_elem?,
}
use fbbs.Common.Run.{Run, ok, fault, bad_access, ◌>>=◌}
use fbbs.Common.Memory.{copy_in}
use fbbs.Text.{char_at, strlcpy}

-- The loop of `rtrim` and `trim` from the NUL down. Where every byte is a blank it reads the byte before
-- the string.
unfoldable pub right_loop : List ℕ → (ptr : ℕ) → Run ℕ
right_loop s zero = if leb (char_at s 0) 0x20 then fault bad_access else ok 0
right_loop s (suc ptr) = elim (leb (char_at s (suc ptr)) 0x20) [
  | true ↦ right_loop s ptr
  | false ↦ ok (suc ptr)
]

unfoldable pub rtrim : List ℕ → Run (List ℕ)
rtrim str = do ptr ← right_loop str (length str); ok (take (ptr + 1) str)

-- The loop of `trim` from the left.
unfoldable pub skip_left : List ℕ → List ℕ
skip_left [] = []
skip_left (c ∷ s) = let rest = skip_left s in if leb c 0x20 && not (c == 0) then rest else c ∷ s

unfoldable pub trim : List ℕ → Run (List ℕ)
trim str = do right ← rtrim str; ok (skip_left right)

-- A byte of an array.
unfoldable pub read_at : List ℕ → ℕ → Run ℕ
read_at m i = elim (get_elem? m i) [ none ↦ fault bad_access | some c ↦ ok c ]

-- The first loop of `ellipsis`: the pointer and `inGBK`.
unfoldable pub walk : List ℕ → (i ptr : ℕ) → (in_gbk : Bool) → Run (ℕ × Bool)
walk m zero ptr in_gbk = ok (ptr, in_gbk)
walk m (suc i) ptr in_gbk = do
  c ← read_at m ptr
  elim (c == 0) [ true ↦ ok (ptr, in_gbk) | false ↦ walk m i (ptr + 1) (not in_gbk && leb 0x80 c) ]

-- The second loop, which begins behind the pointer, also where this is at the NUL: the pointer and `i`.
unfoldable pub ahead : List ℕ → (i ptr : ℕ) → Run (ℕ × ℕ)
ahead m zero ptr = ok (ptr, 0)
ahead m (suc i) ptr = do
  c ← read_at m (ptr + 1)
  elim (c == 0 || i == 0) [
    | true ↦ ok (ptr + 1, if c == 0 then suc i else i)
    | false ↦ ahead m i (ptr + 1)
  ]

-- The dots of `ellipsis`.
unfoldable pub put_dots : List ℕ → (len ptr : ℕ) → (in_gbk : Bool) → Run (List ℕ)
put_dots m len ptr in_gbk = do
  ended ← copy_in m len (0 ∷ [])
  dotted ← copy_in ended (ptr - 2) (46 ∷ 46 ∷ [])
  c ← read_at dotted (ptr - 3)
  (if not in_gbk && leb 0x80 c then copy_in dotted (ptr - 3) (46 ∷ []) else ok dotted)

-- `ellipsis` on the array that holds the string, for `len` not negative.
unfoldable pub ellipsis : List ℕ → (len : ℕ) → Run (List ℕ)
ellipsis m len = if ltb len 3 then copy_in m len (0 ∷ []) else (do
  first ← walk m (len - 3) 0 false
  second ← ahead m 3 first.0
  c ← read_at m second.0
  if not (c == 0) && second.1 == 0 then put_dots m len second.0 first.1 else ok m)

-- A digit of `strtourl`.
abbrev pub hex_digit : ℕ → ℕ
hex_digit h = if ltb 9 h then 55 + h else 48 + h

-- What `strtourl` writes for a byte. From 128 on `char` is negative, and so are both its digits.
unfoldable pub url_char : ℕ → List ℕ
url_char c =
    if leb 0x21 c && leb c 0x7e && not (c == 37)
    then c ∷ []
    else if ltb c 0x80
    then 37 ∷ hex_digit (c / 16) ∷ hex_digit (c % 16) ∷ []
    else 37 ∷ (48 - (256 - c) / 16) ∷ (48 - (256 - c) % 16) ∷ []

unfoldable pub strtourl : List ℕ → List ℕ
strtourl [] = []
strtourl (c ∷ s) = url_char c ++ strtourl s

-- An array, and where in it `strappend` goes on with how many bytes.
pub record Cursor : Type 0 where
  pub block : List ℕ
  pub dst : ℕ
  pub size : ℕ

-- `strlcpy` writes at most `size - 1` bytes and a NUL, and nothing for 0.
unfoldable pub strappend : Cursor → List ℕ → Run Cursor
unfolding strlcpy
strappend k src = do
  let copy = strlcpy src k.size
  block ← (if k.size == 0 then ok k.block else copy_in k.block k.dst (copy.0 ++ 0 ∷ []))
  let len = if leb k.size copy.1 then k.size else copy.1
  ok (record { block = block; dst = k.dst + len; size = k.size - len })

-- `string_copy_allow_null`, for an array of at least one byte.
unfoldable pub string_copy_allow_null : Option (List ℕ) → (size : ℕ) → List ℕ × ℕ
unfolding strlcpy
string_copy_allow_null none size = ([], 0)
string_copy_allow_null (some src) size = strlcpy src size

-- `isprint2`
abbrev pub is_print2 : ℕ → Bool
is_print2 c = leb 0x80 c && not (c == 0xff) || leb 0x20 c && leb c 0x7e

unfoldable pub remove_non_printable_gbk : List ℕ → List ℕ
remove_non_printable_gbk [] = []
remove_non_printable_gbk (c ∷ s) =
    let rest = remove_non_printable_gbk s in if is_print2 c then c ∷ rest else rest
