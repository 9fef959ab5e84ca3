-- ===== src/Vector.antt =====
-- lib/vector.c: a growable array of elements of `len` bytes. A `vector_t *` is never NULL here, so
-- each guard `if (v)` passes; a pointer to an element is its offset in the block.
pub mod Capacity
pub mod Valid
pub mod Grow
pub mod Erase
mod Tests
use fbbs.Common.{
  ℕ, zero, suc, ◌+◌, ◌-◌, ◌*◌, ◌%◌, ◌^◌, Bool, true, false, ◌&&◌, Option, none, some, List, ltb,
  leb, if◌then◌else◌, is_some,
}
use fbbs.Common.Alloc.{Allocator}
use fbbs.Common.Run.{Run, ok, fault, endless, null_pointer, ◌>>=◌}
use fbbs.Common.Memory.{move}

-- `data` is `block`, NULL being `none`.
pub record Vector : Type 0 where
  pub len : ℕ
  pub size : ℕ
  pub capacity : ℕ
  pub block : Option (List ℕ)

-- `vector_size_t` is a 32-bit unsigned integer.
abbrev pub u32 : ℕ → ℕ
u32 n = n % 2 ^ 32

abbrev pub default_capacity : ℕ
default_capacity = 8

-- `while (val < capacity) val *= 2`
pub grow_loop : (fuel val capacity : ℕ) → Run ℕ
grow_loop zero val capacity = fault endless
grow_loop (suc fuel) val capacity =
    let rest = grow_loop fuel (u32 (val * 2)) capacity in if ltb val capacity then rest else ok val

-- 29 tests are enough whenever the loop ends (`Vector.Capacity`).
abbrev pub rounds : ℕ
rounds = 29

pub grow_capacity : ℕ → Run ℕ
grow_capacity capacity = grow_loop rounds default_capacity capacity

pub reserve : Allocator → Vector → ℕ → Run (Bool × Vector)
reserve al v capacity =
    if ltb v.capacity capacity
    then (do
      c ← grow_capacity capacity
      let b = al.realloc v.block (u32 (v.len * c))
      ok (is_some b, record v { capacity = c; block = b }))
    else ok (true, v)

pub init : Allocator → (len capacity : ℕ) → Run (Bool × Vector)
init al len capacity =
    reserve al (record { len = len; size = 0; capacity = 0; block = none }) capacity

pub at : Vector → ℕ → Option ℕ
at v position =
    if is_some v.block && ltb position v.size then some (u32 (v.len * position)) else none

-- `_vector_grow`
pub extend : Allocator → Vector → ℕ → Run (Bool × Vector)
extend al v n = let size' = u32 (v.size + n) in reserve al (record v { size = size' }) size'

pub grow : Allocator → Vector → ℕ → Run (Option ℕ × Vector)
grow al v n = do
  (done, w) ← extend al v n
  ok ((if done && leb n w.size then some (u32 (w.len * (w.size - n))) else none), w)

-- `memmove` inside the block of the vector.
pub shift_down : Vector → (dst src n : ℕ) → Run Vector
shift_down v dst src n = elim v.block [
  | none ↦ fault null_pointer
  | some b ↦ do b' ← move b dst src n; ok (record v { block = some b' })
]

pub erase_range : Vector → (first last : ℕ) → Run (Bool × Vector)
erase_range v first last =
    if ltb first last && ltb first v.size
    then (if leb last v.size
        then (do
          w ←
              shift_down v (u32 (first * v.len)) (u32 (last * v.len))
                (u32 (v.len * (v.size - last + 1)))
          ok (true, record w { size = w.size - (last - first) }))
        else ok (true, record v { size = first }))
    else ok (false, v)

pub erase : Vector → ℕ → Run (Bool × Vector)
erase v position = erase_range v position (u32 (position + 1))

-- `data` keeps its dangling value; the elements are gone since `size` is 0.
pub free : Vector → Vector
free v = record v { size = 0; capacity = 0 }
