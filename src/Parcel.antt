-- ===== src/Parcel.antt =====
-- lib/parcel.c: a byte buffer that values are packed into and read from. A `parcel_t *` is never NULL
-- here; a `const char *` that the reader returns is an offset into the buffer.
pub mod Write
pub mod Read
pub mod Varint
pub mod Sequence
pub mod Texts
pub mod Fixed
pub mod RoundTrip
mod Tests
use fbbs.Common.{
  ℕ, zero, suc, ◌+◌, ◌-◌, ◌*◌, ◌/◌, ◌%◌, ◌^◌, bit_and, bit_or, bit_xor, Bool, true, false, not,
  ◌||◌, Option, none, some, List, [], ◌∷◌, ltb, leb, ◌==◌, if◌then◌else◌, length, get_elem?,
  is_some,
}
use fbbs.Common.Alloc.{Allocator}
use fbbs.Common.Run.{Run, ok, fault, endless, bad_access, overflow, bad_shift, null_pointer, ◌>>=◌}
use fbbs.Common.Endian.{little_endian, of_little_endian}
use fbbs.Common.Memory.{copy_in, copy_out}
use fbbs.Common.CString.{strlen}

pub record Parcel : Type 0 where
  pub size : ℕ
  pub capacity : ℕ
  pub ptr : Option (List ℕ)
  pub error : Bool

-- `size_t` and `uint64_t`
abbrev pub u64 : ℕ → ℕ
u64 n = n % 2 ^ 64

abbrev pub default_capacity : ℕ
default_capacity = 4096

pub new : Allocator → Parcel
new al = record {
  size = 0;
  capacity = default_capacity;
  ptr = al.malloc default_capacity;
  error = false;
}

pub clear : Parcel → Parcel
clear p = record p { size = 0 }

-- `while (parcel->capacity < new_size) parcel->capacity *= 2`
pub double : (fuel capacity new_size : ℕ) → Run ℕ
double zero capacity new_size = fault endless
double (suc fuel) capacity new_size =
    let rest = double fuel (u64 (capacity * 2)) new_size in
    if ltb capacity new_size then rest else ok capacity

-- From 1 byte up, 63 doublings reach 2^63.
abbrev pub rounds : ℕ
rounds = 64

pub make_room : Allocator → Parcel → ℕ → Run Parcel
make_room al p new_size =
    if ltb p.capacity new_size
    then (do
      c ← double rounds p.capacity new_size
      ok (record p { capacity = c; ptr = al.realloc p.ptr c }))
    else ok p

-- The `memcpy` behind the last byte, at a pointer that is not NULL.
pub append_bytes : Parcel → List ℕ → Run Parcel
append_bytes p bytes = elim p.ptr [
  | none ↦ ok (record p { error = true })
  | some b ↦ do
    b' ← copy_in b p.size bytes
    ok (record p { ptr = some b'; size = u64 (p.size + length bytes) })
]

-- `parcel_write`
pub write : Allocator → Parcel → List ℕ → Run Parcel
write al p bytes = if p.error then ok p else do
  let new_size = u64 (p.size + length bytes)
  q ← make_room al p new_size
  if ltb q.capacity new_size then ok (record q { error = true }) else append_bytes q bytes

-- The bytes of `buf`. The tenth group is the last that fits into `buf[10]`.
pub groups : (left val : ℕ) → Run (List ℕ)
groups zero val = fault bad_access
groups (suc left) val =
    let low = bit_and val 0x7f in
    let more = groups left (val / 2 ^ 7) in
    if val / 2 ^ 7 == 0 then ok (low ∷ []) else do bytes ← more; ok (bit_or low 0x80 ∷ bytes)

pub write_varuint64 : Allocator → Parcel → ℕ → Run Parcel
write_varuint64 al p val = do buf ← groups 10 val; write al p buf

-- A signed integer is its bit pattern. `val << 1` is left open for a negative `val` and where the product
-- is too large; `val >> (w - 1)` is 0 elsewhere.
abbrev pub zigzag : (width val : ℕ) → Run ℕ
zigzag width val = if ltb val (2 ^ (width - 2)) then ok (bit_xor (val * 2) 0) else fault overflow

pub write_varint : Allocator → Parcel → ℕ → Run Parcel
write_varint al p val = do v ← zigzag 32 val; write_varuint64 al p v

pub write_varint64 : Allocator → Parcel → ℕ → Run Parcel
write_varint64 al p val = do v ← zigzag 64 val; write_varuint64 al p v

pub write_bool : Allocator → Parcel → Bool → Run Parcel
write_bool al p val = write al p ((if val then 1 else 0) ∷ [])

pub write_int : Allocator → Parcel → ℕ → Run Parcel
write_int al p val = write al p (little_endian 4 val)

pub write_int64 : Allocator → Parcel → ℕ → Run Parcel
write_int64 al p val = write al p (little_endian 8 val)

-- `str` is the block that holds the string, its NUL included; `none` is NULL.
pub write_text : Allocator → Parcel → List ℕ → ℕ → Run Parcel
write_text al p str size = do
  p₁ ← write_bool al p false
  p₂ ← write_varuint64 al p₁ size
  bytes ← copy_out str 0 size
  p₃ ← write al p₂ bytes
  write al p₃ (0 ∷ [])

pub write_string_with_size : Allocator → Parcel → Option (List ℕ) → ℕ → Run Parcel
write_string_with_size al p none size = write_bool al p true
write_string_with_size al p (some str) size =
    if size == 0 then (do n ← strlen str; write_text al p str n) else write_text al p str size

pub write_string : Allocator → Parcel → Option (List ℕ) → Run Parcel
write_string al p str = write_string_with_size al p str 0

pub read_new : List ℕ → ℕ → Parcel
read_new ptr size = record { size = 0; capacity = size; ptr = some ptr; error = false }

-- `parcel->ptr[i]`
pub byte_at : Parcel → ℕ → Run ℕ
byte_at p i = elim p.ptr [
  | none ↦ fault null_pointer
  | some b ↦ elim (get_elem? b i) [ none ↦ fault bad_access | some x ↦ ok x ]
]

pub read_uchar : Parcel → Run (ℕ × Parcel)
read_uchar p =
    if leb p.size p.capacity
    then (do x ← byte_at p p.size; ok (x, record p { size = u64 (p.size + 1) }))
    else ok (0, record p { error = true })

-- `val |= (v & 0x7f) << offset`; a shift by 64 or more is undefined.
pub read_loop : (fuel : ℕ) → Parcel → (val offset : ℕ) → Run (ℕ × Parcel)
read_loop zero p val offset = fault endless
read_loop (suc fuel) p val offset = do
  (v, q) ← read_uchar p
  let more = read_loop fuel q (bit_or val (u64 (bit_and v 0x7f * 2 ^ offset))) (offset + 7)
  let last = ok (bit_or val (u64 (v * 2 ^ offset)), q)
  if ltb offset 64 then (if bit_and v 0x80 == 0 then last else more) else fault bad_shift

-- The eleventh round has the offset 70.
pub read_varuint64 : Parcel → Run (ℕ × Parcel)
read_varuint64 p = read_loop 11 p 0 0

abbrev pub unzigzag : ℕ → ℕ
unzigzag val = bit_xor (val / 2) (u64 (2 ^ 64 - bit_and val 1))

pub read_varint64 : Parcel → Run (ℕ × Parcel)
read_varint64 p = do (val, q) ← read_varuint64 p; ok (unzigzag val, q)

pub read_varint : Parcel → Run (ℕ × Parcel)
read_varint p = do (val, q) ← read_varint64 p; ok (val % 2 ^ 32, q)

pub read_bool : Parcel → Run (Bool × Parcel)
read_bool p = do (v, q) ← read_uchar p; ok (not (v == 0), q)

-- The offset of the text and its size; `none` is NULL.
pub read_string_and_size : Parcel → Run (Option (ℕ × ℕ) × Parcel)
read_string_and_size p = do
  (is_null, q) ← read_bool p
  if is_null then ok (none, q) else do
    (size, r) ← read_varuint64 q
    let end = u64 (r.size + u64 (size + 1))
    ok (some (r.size, size), record r { size = end; error = r.error || ltb r.capacity end })

-- `parcel_read`
pub read : Parcel → ℕ → Run (Option (List ℕ) × Parcel)
read p n =
    if leb (u64 (p.size + n)) p.capacity
    then elim p.ptr [
      | none ↦ fault null_pointer
      | some b ↦ do
        bytes ← copy_out b p.size n
        ok (some bytes, record p { size = u64 (p.size + n) })
    ]
    else ok (none, record p { error = true })

-- The value stays 0 when nothing was copied.
abbrev pub stored : Option (List ℕ) → ℕ
stored none = 0
stored (some bytes) = of_little_endian bytes

pub read_int : Parcel → Run (ℕ × Parcel)
read_int p = do (bytes, q) ← read p 4; ok (stored bytes, q)

pub read_int64 : Parcel → Run (ℕ × Parcel)
read_int64 p = do (bytes, q) ← read p 8; ok (stored bytes, q)

pub is_ok : Parcel → Bool
is_ok p = not p.error
