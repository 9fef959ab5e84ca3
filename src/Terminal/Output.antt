-- ===== src/Terminal/Output.antt =====
-- The output buffer of src/terminal.c, the static variable `output_buffer`.
pub mod Stream
pub mod Refine
use fbbs.Common.{
  not, ◌^◌, ℕ, zero, suc, ◌+◌, ◌-◌, ◌%◌, Bool, true, false, List, [], ◌∷◌, ◌++◌, ltb, leb, ◌==◌,
  if◌then◌else◌, length, take, drop, replicate,
}
use fbbs.Common.Memory.{copy_in}
use fbbs.Common.Run.{Run, ok, fault, endless, ◌>>=◌}

-- OUTPUT_BUFFER_SIZE
abbrev pub buffer_size : ℕ
buffer_size = 4088

-- `output_buffer_t`, and the bytes that were given to `terminal_write` so far.
pub record Output : Type 0 where
  pub ptr : List ℕ
  pub size : ℕ
  pub sent : List ℕ

-- `terminal_flush`; the bytes are gone from the buffer whether `terminal_write` succeeds or not.
pub flush : Output → Output
flush o =
    (if ltb 0 o.size
      then record o { sent = o.sent ++ take o.size o.ptr; size = 0 }
      else record o { size = 0 })

unfoldable pub put_raw_ch : Output → ℕ → Run Output
unfolding flush
put_raw_ch o ch = do
  ptr ← copy_in o.ptr o.size (ch ∷ [])
  let next = record o { ptr = ptr; size = o.size + 1 }
  ok (if next.size == buffer_size then flush next else next)

-- `terminal_putchar`
unfoldable pub putchar : Output → ℕ → Run Output
unfolding put_raw_ch
putchar o ch = put_raw_ch o (ch % 2 ^ 8)

-- The loop of `terminal_write_cached`.
pub write_loop : (fuel : ℕ) → Output → List ℕ → Run Output
write_loop zero o str = fault endless
write_loop (suc fuel) o str =
    let len = buffer_size - o.size in
    if not (ltb 0 (length str))
    then ok o
    else if ltb len (length str)
    then (do
      ptr ← copy_in o.ptr o.size (take len str)
      write_loop fuel (flush (record o { ptr = ptr; size = o.size + len })) (drop len str))
    else (do
      ptr ← copy_in o.ptr o.size str
      ok (record o { ptr = ptr; size = o.size + length str }))

-- A round that finds the buffer full copies nothing, and every later one copies 4088 bytes.
pub write_cached : Output → List ℕ → Run Output
write_cached o str = write_loop (length str + 2) o str
