-- ===== src/ReadMark.antt =====
-- lib/boardrc.c: which posts of a board a user has read. This file has the record of one board, the
-- static variable `brc`; its first `size` items are the list, the newest first.
pub mod Sorted
pub mod Marking
pub mod Clear
pub mod Record
pub mod Buffer
mod Tests
use fbbs.Common.Run.{Run, ok, fault, endless, overflow}
use fbbs.Common.{
  not, ℕ, zero, suc, ◌+◌, ◌-◌, ◌%◌, ◌^◌, Bool, true, false, Option, none, some, List, [], ◌∷◌, ◌++◌,
  ltb, leb, ◌==◌, if◌then◌else◌, length, take,
}

-- BRC_MAXNUM and BRC_STRLEN
abbrev pub max_num : ℕ
max_num = 60

abbrev pub str_len : ℕ
str_len = 20

-- `brc_t`; `name` is the text in its array.
pub record Brc : Type 0 where
  pub dirty : Bool
  pub name : List ℕ
  pub items : List ℕ

-- What the loop of `brc_mark_as_read` meets: the item itself, an older item in front of which the
-- new one is put, or the end of the list.
pub data Mark : Type 0 where
  known : Mark
  inserted : List ℕ → Mark
  oldest : Mark

pub behind : ℕ → Mark → Mark
behind x known = known
behind x (inserted xs) = inserted (x ∷ xs)
behind x oldest = oldest

unfoldable pub scan : ℕ → List ℕ → Mark
unfolding behind
scan item [] = oldest
scan item (x ∷ xs) =
    if item == x
    then known
    else if ltb x item
    then inserted (item ∷ x ∷ xs)
    else behind x (scan item xs)

-- The write that follows the loop; `memmove` drops the last item of a full list.
pub after_scan : Brc → ℕ → Mark → Bool × Brc
after_scan b item known = (false, b)
after_scan b item (inserted xs) = (true, record b { items = take max_num xs; dirty = true })
after_scan b item oldest = (
  false,
  (if ltb (length b.items) max_num
      then record b { items = b.items ++ item ∷ []; dirty = true }
      else b),
)

pub mark_as_read : Brc → ℕ → Bool × Brc
mark_as_read b item =
    if length b.items == 0
    then (true, record b { items = item ∷ []; dirty = true })
    else after_scan b item (scan item b.items)

unfoldable pub unread_loop : ℕ → List ℕ → Bool
unread_loop item [] = false
unread_loop item (x ∷ xs) =
    if ltb x item then true else if item == x then false else unread_loop item xs

pub unread : Brc → ℕ → Bool
unread b item = if length b.items == 0 then true else unread_loop item b.items

pub last_read : Brc → ℕ
last_read b = elim b.items [ [] ↦ 0 | x ∷ xs ↦ x ]

-- `i` is a signed integer of 32 bits; it is compared and passed on as an unsigned one.
pub clear_loop : (fuel : ℕ) → Brc → (i item : ℕ) → Run Brc
clear_loop zero b i item = fault endless
clear_loop (suc fuel) b i item =
    if not (leb i item)
    then ok b
    else if i == 2 ^ 31 - 1
    then fault overflow
    else clear_loop fuel (mark_as_read b i).1 ((i + 1) % 2 ^ 32) item

-- The loop starts at `item - 59`, which wraps below 59; then it makes no round. Otherwise it makes 60,
-- unless `i` overflows or `item` is the largest number.
pub clear : Brc → ℕ → Run Brc
clear b item = clear_loop (max_num + 1) b ((item + 2 ^ 32 - max_num + 1) % 2 ^ 32) item

-- `brc_clear_all`, the time given.
pub clear_all : Brc → (time : ℕ) → Run Brc
clear_all b time = clear b time

-- `brc_zapbuf`, on the value of a signed variable that is not negative.
pub zapbuf : Brc → ℕ → ℕ
zapbuf b zbuf = if ltb 0 zbuf then elim b.items [ [] ↦ zbuf | x ∷ xs ↦ x ] else zbuf
