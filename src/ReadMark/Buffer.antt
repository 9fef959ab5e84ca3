-- ===== src/ReadMark/Buffer.antt =====
-- The buffer of all boards, the static variable `brc_buf`, and the functions that go through it.
pub mod Packed
pub mod Find
pub mod Merge
pub mod Session
use fbbs.Common.{
  ℕ, zero, suc, ◌+◌, ◌-◌, ◌*◌, Bool, true, false, not, ◌&&◌, ◌||◌, Option, none, some, List, [],
  ◌∷◌, ◌++◌, ltb, leb, ◌==◌, if◌then◌else◌, length, take, replicate,
}
use fbbs.Common.Memory.{copy_in}
use fbbs.Common.Run.{Run, ok, fault, endless, ◌>>=◌}
use fbbs.ReadMark.{Brc, max_num, str_len, unread}
use fbbs.ReadMark.Record.{put_record, get_record, byte_at, clip}

-- BRC_BUFSIZE, and BRC_ITEMSIZE = 20 + 1 + 60 * 4
abbrev pub buf_size : ℕ
buf_size = 50000

abbrev pub item_size : ℕ
item_size = 261

-- `brc_buf_t`
pub record Buf : Type 0 where
  pub size : ℕ
  pub dirty : Bool
  pub initialized : Bool
  pub ptr : List ℕ

-- The two static variables of the module.
pub record State : Type 0 where
  pub buf : Buf
  pub brc : Brc

-- `strneq` of two names that fit into 20 bytes.
unfoldable pub same_name : List ℕ → List ℕ → Bool
same_name [] [] = true
same_name [] (y ∷ ys) = false
same_name (x ∷ xs) [] = false
same_name (x ∷ xs) (y ∷ ys) = x == y && same_name xs ys

-- `*ptr >= ' ' && *ptr <= '~'`
abbrev pub printable : ℕ → Bool
printable c = leb 32 c && leb c 126

-- `ptr < end && (*ptr >= ' ' && *ptr <= '~')`
pub more_records : List ℕ → (ptr end : ℕ) → Run Bool
more_records block ptr end =
    if ltb ptr end then (do c ← byte_at block ptr; ok (printable c)) else ok false

-- The loop of `brc_init`: whether the board was found, and the record that was read last.
pub find_loop : (fuel : ℕ) → List ℕ → (ptr end : ℕ) → Brc → List ℕ → Run (Bool × Brc)
find_loop zero block ptr end b name = fault endless
find_loop (suc fuel) block ptr end b name = do
  more ← more_records block ptr end
  if not more then ok (false, b) else do
    (now, next) ← get_record block ptr b
    if same_name now.name name then ok (true, now) else find_loop fuel block next end now name

-- The loop of `brc_merge`, which copies the records of the other boards.
pub merge_loop :
    (fuel : ℕ)
    → Brc
    → (out : List ℕ) → (ptr : ℕ) → (from : List ℕ) → (tmp end : ℕ) → Brc
    → Run (List ℕ × ℕ)
merge_loop zero own out ptr from tmp end b = fault endless
merge_loop (suc fuel) own out ptr from tmp end b = do
  more ← more_records from tmp end
  if not more then ok (out, ptr) else do
    (now, next) ← get_record from tmp b
    (out', ptr') ← (if same_name now.name own.name then ok (out, ptr) else put_record out ptr now)
    merge_loop fuel own out' ptr' from next end now

-- A buffer that is nearly full is cut.
abbrev pub merged_end : ℕ → ℕ
merged_end size = if ltb (buf_size - item_size) size then buf_size - item_size * 2 + 1 else size

abbrev pub no_record : Brc
no_record = record { dirty = false; name = []; items = [] }

-- A record takes 21 bytes at least, so `end` rounds and one more are enough.
pub merge : State → Buf → Run State
merge s other = do
  (own_out, own_ptr) ← put_record s.buf.ptr 0 s.brc
  let end = merged_end other.size
  (out, ptr) ← merge_loop (end + 1) s.brc own_out own_ptr other.ptr 0 end no_record
  ok (record {
    buf = record s.buf { size = ptr; dirty = true; ptr = out };
    brc = record s.brc { dirty = false };
  })

-- `file` is the content of the user's `.boardrc`, at most 50000 bytes of it; `none` is no such file.
pub load : Option (List ℕ) → Buf → Run Buf
load none buf = ok (record buf { size = 0; initialized = true; dirty = false })
load (some bytes) buf = do
  let read = take buf_size bytes
  block ← copy_in buf.ptr 0 read
  ok (record { size = length read; dirty = false; initialized = true; ptr = block })

-- What `brc_save` writes to the file, which it empties first.
abbrev pub saved : Buf → List ℕ
saved buf = take buf.size buf.ptr

pub fresh_buf : Buf
fresh_buf = record { size = 0; dirty = false; initialized = false; ptr = replicate buf_size 0 }

-- `brc_sync`: the state and the content of the file afterwards.
pub sync : Option (List ℕ) → State → Run (State × Option (List ℕ))
sync file s =
    if not s.brc.dirty && not s.buf.dirty
    then ok (s, file)
    else do other ← load file fresh_buf; t ← merge s other; ok (t, some (saved t.buf))

-- `brc_init`, its result the number of items.
pub init : Option (List ℕ) → List ℕ → State → Run (ℕ × State)
init file board s = if same_name s.brc.name board then ok (length s.brc.items, s) else do
  t ← (if s.brc.dirty then merge s s.buf else ok s)
  buf ← (if t.buf.initialized then ok t.buf else load file t.buf)
  (found, b) ← find_loop (buf.size + 1) buf.ptr 0 buf.size t.brc board
  if found
      then ok (length b.items, record { buf = buf; brc = b })
      else ok (
        0,
        record { buf = buf; brc = record { dirty = true; name = clip board; items = 1 ∷ [] } },
      )

-- `brc_reset`
abbrev pub reset : State
reset = record { buf = fresh_buf; brc = no_record }

-- `brc_board_unread`, the time of the last post of the board given.
pub board_unread : Option (List ℕ) → List ℕ → (last_post : ℕ) → State → Run (Bool × State)
board_unread file board last_post s = do
  (count, t) ← init file board s
  ok (count == 0 || unread t.brc last_post, t)
