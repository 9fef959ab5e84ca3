-- ===== src/ReadMark/Record.antt =====
-- `brc_put_record` and `brc_get_record`: the record of a board as bytes. It is the name in 20 bytes, the
-- number of items in one, and each item in four.
pub mod Bytes
pub mod RoundTrip
use fbbs.Common.{
  ◌-◌, ℕ, zero, suc, ◌+◌, ◌*◌, ◌%◌, min, Bool, List, [], ◌∷◌, ◌++◌, ◌==◌, if◌then◌else◌, length,
  take, drop, get_elem?, some, none,
}
use fbbs.Common.CString.{contents}
use fbbs.Common.Endian.{little_endian, of_little_endian}
use fbbs.Common.Memory.{copy_in, copy_out}
use fbbs.Common.Run.{Run, ok, fault, bad_access, ◌>>=◌}
use fbbs.ReadMark.{Brc, max_num, str_len}

-- `brc_item_t items[]` in memory.
unfoldable pub pack : List ℕ → List ℕ
pack [] = []
pack (x ∷ xs) = little_endian 4 x ++ pack xs

unfoldable pub unpack : (count : ℕ) → List ℕ → List ℕ
unpack zero bytes = []
unpack (suc count) bytes = of_little_endian (take 4 bytes) ∷ unpack count (drop 4 bytes)

-- What `strlcpy` leaves of a name in the array of 20 bytes.
abbrev pub clip : List ℕ → List ℕ
clip name = take (str_len - 1) name

abbrev pub stored_count : List ℕ → ℕ
stored_count items = min (length items) max_num

-- The block and the pointer behind the record.
unfoldable pub put_record : List ℕ → (ptr : ℕ) → Brc → Run (List ℕ × ℕ)
put_record block ptr b = if length b.items == 0 then ok (block, ptr) else do
  let size = stored_count b.items
  named ← copy_in block ptr (clip b.name ++ 0 ∷ [])
  sized ← copy_in named (ptr + str_len) (size ∷ [])
  full ← copy_in sized (ptr + str_len + 1) (pack (take size b.items))
  ok (full, ptr + str_len + 1 + size * 4)

unfoldable pub byte_at : List ℕ → ℕ → Run ℕ
byte_at block i = elim (get_elem? block i) [ none ↦ fault bad_access | some x ↦ ok x ]

-- A size above 60, or one that is negative as a `char`, counts as 60. The flag of `b` stays.
unfoldable pub get_record : List ℕ → (ptr : ℕ) → Brc → Run (Brc × ℕ)
get_record block ptr b = do
  name ← contents (drop ptr block)
  count ← byte_at block (ptr + str_len)
  let size = min count max_num
  bytes ← copy_out block (ptr + str_len + 1) (size * 4)
  ok (record b { name = clip name; items = unpack size bytes }, ptr + str_len + 1 + size * 4)
