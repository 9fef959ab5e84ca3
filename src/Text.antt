-- ===== src/Text.antt =====
-- lib/string.c: strings of bytes. A string is the list of its bytes before the NUL.
pub mod Bytes
pub mod Utf8
pub mod Tail
pub mod CheckTail
pub mod Copy
pub mod Width
pub mod Validate
pub mod Filter
pub mod Gbk
pub mod Case
pub mod Trim
pub mod Pstring
mod Tests
mod Runs
use fbbs.Common.{
  ℕ, zero, suc, ◌+◌, ◌-◌, ◌*◌, ◌^◌, bit_and, bit_or, Bool, true, false, not, ◌&&◌, ◌||◌, Option,
  none, some, List, [], ◌∷◌, ltb, leb, ◌==◌, if◌then◌else◌, length, get_elem?, take, drop,
}

-- `s[i]`; behind the bytes stands the NUL.
abbrev pub char_at : List ℕ → ℕ → ℕ
char_at s i = elim (get_elem? s i) [ none ↦ 0 | some c ↦ c ]

-- `is_cont(c)`
unfoldable pub is_cont : ℕ → Bool
is_cont c = bit_and c 0xc0 == 0x80

-- What `next_wchar` returns: 0 at the end, WEOF, or a character and how far the pointer moves.
pub data Next : Type 0 where
  at_end : Next
  invalid : Next
  wide : (wc incr : ℕ) → Next

-- The three tests on the first byte, with those on the bytes that follow it.
unfoldable pub starts_two : List ℕ → (left : ℕ) → Bool
unfolding is_cont
starts_two s left = bit_and (char_at s 0) 0xe0 == 0xc0 && ltb 1 left && is_cont (char_at s 1)

unfoldable pub starts_three : List ℕ → (left : ℕ) → Bool
unfolding is_cont
starts_three s left =
    bit_and (char_at s 0) 0xf0 == 0xe0
    && ltb 2 left
    && is_cont (char_at s 1)
    && is_cont (char_at s 2)

unfoldable pub starts_four : List ℕ → (left : ℕ) → Bool
unfolding is_cont
starts_four s left =
    bit_and (char_at s 0) 0xf8 == 0xf0
    && ltb 3 left
    && is_cont (char_at s 1)
    && is_cont (char_at s 2)
    && is_cont (char_at s 3)

abbrev pub low_six : ℕ → ℕ
low_six c = bit_and c 0x3f

-- `next_wchar` with `*leftp`.
unfoldable pub next_wchar : List ℕ → (left : ℕ) → Next
unfolding starts_two starts_three starts_four
next_wchar s left =
    let c = char_at s 0 in
    if left == 0 || c == 0
    then at_end
    else if ltb c 0x80
    then wide c 1
    else if starts_two s left
    then wide (bit_or (bit_and c 0x1f * 2 ^ 6) (low_six (char_at s 1))) 2
    else if starts_three s left
    then wide
        (bit_or (bit_or (bit_and c 0x0f * 2 ^ 12) (low_six (char_at s 1) * 2 ^ 6))
          (low_six (char_at s 2)))
        3
    else if starts_four s left
    then wide
        (bit_or
          (bit_or (bit_or (bit_and c 0x07 * 2 ^ 18) (low_six (char_at s 1) * 2 ^ 12))
            (low_six (char_at s 2) * 2 ^ 6))
          (low_six (char_at s 3)))
        4
    else invalid

-- With `leftp` NULL there are nine bytes left.
abbrev pub no_limit : ℕ
no_limit = 9

-- What the last sequence, which starts at `i`, decides: the string afterwards, and how many bytes it lost.
abbrev pub cut_at : List ℕ → (i : ℕ) → Next → List ℕ × ℕ
cut_at s i invalid = (take i s, length s - i)
cut_at s i at_end = (s, 0)
cut_at s i (wide wc incr) = (s, 0)

-- The loop of `string_check_tail` from `begin + i - 1` down.
unfoldable pub tail_loop : (i : ℕ) → List ℕ → List ℕ × ℕ
tail_loop zero s = (s, 0)
tail_loop (suc i) s =
    let further = tail_loop i s in
    if is_cont (char_at s i) then further else cut_at s i (next_wchar (drop i s) no_limit)

-- `string_check_tail` of a string to its end.
pub check_tail : List ℕ → List ℕ × ℕ
check_tail s = tail_loop (length s) s

-- `strlcpy`: what stands in the array of `siz` bytes, and the length of `src`.
pub strlcpy : List ℕ → (siz : ℕ) → List ℕ × ℕ
strlcpy src siz = (take (siz - 1) src, length src)

-- `string_cp`, for an array of at least one byte.
unfoldable pub string_cp : List ℕ → (siz : ℕ) → List ℕ × ℕ
unfolding strlcpy check_tail
string_cp src siz =
    let copy = strlcpy src siz in
    let (cut, lost) = check_tail copy.0 in if leb siz copy.1 then (cut, copy.1 - lost) else copy
