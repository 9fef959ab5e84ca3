-- ===== src/Text/Pstring.antt =====
-- lib/string.c: strings that grow, in memory of a pool. A fresh block holds zeros here; no code reads
-- what it holds. `memory` tells whether the pool gives the block, which no code tests.
pub mod Append
pub mod Size
pub mod Printf
use fbbs.Common.{
  ℕ, zero, suc, ◌+◌, ◌-◌, ◌*◌, ◌%◌, ◌^◌, Bool, true, false, not, ◌&&◌, ◌||◌, List, [], ◌∷◌, ◌++◌,
  ltb, leb, ◌==◌, if◌then◌else◌, length, take, replicate,
}
use fbbs.Common.Run.{Run, ok, fault, endless, bad_access, null_pointer, ◌>>=◌}
use fbbs.Common.Memory.{copy_in}
use fbbs.Text.Trim.{read_at}

-- `pstring_t`
pub record Pstring : Type 0 where
  pub str : List ℕ
  pub len : ℕ
  pub size : ℕ

-- FB_UINT_MAX and PSTRING_DEFAULT_LEN
abbrev pub uint_max : ℕ
uint_max = 2 ^ 32 - 1

abbrev pub default_len : ℕ
default_len = 7

-- The loop of `pstring_round_size`. After 29 rounds the unsigned size is 0, and stays so.
unfoldable pub round_loop : (fuel : ℕ) → (s size : ℕ) → Run ℕ
round_loop zero s size = fault endless
round_loop (suc fuel) s size = elim (leb s size) [
  | true ↦ round_loop fuel (s * 2 % 2 ^ 32) size
  | false ↦ ok s
]

unfoldable pub pstring_round_size : ℕ → Run ℕ
pstring_round_size size =
    if size == uint_max then ok uint_max else round_loop 30 (default_len + 1) size

unfoldable pub pstring_sized_new : (memory : Bool) → ℕ → Run Pstring
pstring_sized_new memory size = do
  rounded ← pstring_round_size size
  (if memory
      then ok (record { str = replicate rounded 0; len = 0; size = rounded })
      else fault null_pointer)

unfoldable pub pstring_new : (memory : Bool) → Run Pstring
pstring_new memory = pstring_sized_new memory default_len

-- `_pstring_realloc` copies the bytes and the one behind them.
unfoldable pub pstring_move : (memory : Bool) → Pstring → (size : ℕ) → Run Pstring
pstring_move memory s size =
    if not memory
    then fault null_pointer
    else if leb (s.len + 1) (length s.str)
    then (do
      str ← copy_in (replicate size 0) 0 (take (s.len + 1) s.str)
      ok (record { str = str; len = s.len; size = size }))
    else fault bad_access

-- `pstring_realloc`, which leaves the string where it cannot grow.
unfoldable pub pstring_realloc : (memory : Bool) → Pstring → Run Pstring
pstring_realloc memory s =
    if s.size == uint_max then ok s else pstring_move memory s (s.size * 2 % 2 ^ 32)

unfoldable pub pstring_append_c : (memory : Bool) → Pstring → (c : ℕ) → Run Pstring
pstring_append_c memory s c = do
  room ← (if s.len == s.size - 1 then pstring_realloc memory s else ok s)
  str ← copy_in room.str room.len (c % 2 ^ 8 ∷ [])
  ok (record { str = str; len = room.len + 1; size = room.size })

unfoldable pub pstring_append_string : (memory : Bool) → Pstring → List ℕ → Run Pstring
pstring_append_string memory s str = do
  room ← (if leb s.size (s.len + length str) then pstring_realloc memory s else ok s)
  block ← copy_in room.str room.len str
  ok (record { str = block; len = room.len + length str; size = room.size })

-- `pstring_append_printf`, for what the format gives: `vsnprintf` writes what fits, and a NUL.
unfoldable pub pstring_append_printf :
    (memory : Bool) → Pstring → (formatted : List ℕ) → Run Pstring
pstring_append_printf memory s formatted = do
  let remain = s.size - s.len
  let chars = length formatted
  first ← copy_in s.str s.len (take (remain - 1) formatted ++ 0 ∷ [])
  let cut : Pstring = record { str = first; len = s.len; size = s.size }
  whole ←
      (if leb remain chars
        then (do
          size ← pstring_round_size (s.len + chars + 1)
          room ← pstring_move memory cut size
          block ← copy_in room.str room.len (formatted ++ 0 ∷ [])
          ok (record room { str = block }))
        else ok cut)
  ok (record whole { len = whole.len + chars })

-- `isspace`
abbrev pub is_space : ℕ → Bool
is_space c = c == 32 || leb 9 c && leb c 13

unfoldable pub pstring_append_space : (memory : Bool) → Pstring → Run Pstring
pstring_append_space memory s = elim (s.len == 0) [
  | true ↦ ok s
  | false ↦ do
    last ← read_at s.str (s.len - 1)
    if is_space last then ok s else pstring_append_c memory s 32
]

-- `pstring`: the bytes before the NUL that is written.
unfoldable pub pstring : Pstring → Run (List ℕ)
pstring s = do str ← copy_in s.str s.len (0 ∷ []); ok (take s.len str)
