-- ===== src/Parcel/RoundTrip.antt =====
-- What a parcel writer packs, the reader unpacks: integers of variable length.
use mathlib.Core.Path.{ap₂}
use fbbs.Common.{
  ℕ, ◌+◌, ◌*◌, ◌/◌, ◌%◌, ◌^◌, ◌≤◌, ◌<◌, bit_and, ◌≡◌, refl, sym, ◌∙◌, ◌⊎◌, inl, inr, true, false,
  some, List, arith, ltb, length,
}
use fbbs.Common.Bits.{bit_and_mask, bit_xor-zero}
use fbbs.Common.Alloc.{Allocator, IsAllocator}
use fbbs.Common.Run.{Run, ok, fault, overflow}
use fbbs.Parcel.{
  Parcel, groups, write_varuint64, write_varint, write_varint64, read_varuint64, read_varint,
  read_varint64, zigzag, unzigzag,
}
use fbbs.Parcel.Write.{OutOfMemory, IsOpen, Written, write_lem}
use fbbs.Parcel.Varint.{groups-total, read_groups}

-- A reader over the bytes that `q` holds, at the position `start`.
abbrev pub reader_of : Parcel → ℕ → Parcel
reader_of q start = record { size = start; capacity = q.size; ptr = q.ptr; error = false }

-- From `start`, `read` returns `val` and stops at the end of what `q` holds.
abbrev pub ReadsBack {ℓ} : {A : Type ℓ} → (Parcel → Run (A × Parcel)) → Parcel → ℕ → A → Type ℓ
ReadsBack read q start val =
    read (reader_of q start) ≡ ok (val, record (reader_of q start) { size = q.size })

-- The zigzag code of a signed integer, by its sign, and its inverse.
unzigzag-even : (n : ℕ) → n * 2 < 2 ^ 64 → unzigzag (n * 2) ≡ n
unzigzag-even n h =
    let half : n * 2 / 2 ≡ n = omega arith in
    let sign : bit_and (n * 2) 1 ≡ 0 = omega (arith, bit_and_mask 1 (n * 2)) in
    rw (half, sign) (bit_xor-zero n)

ltb-true : (m n : ℕ) → m < n → ltb m n ≡ true
ltb-true m n h = ground (arith, h)

zigzag64 : (val : ℕ) → val < 2 ^ 62 → zigzag 64 val ≡ ok (val * 2)
zigzag64 val h = rw (ltb-true val (2 ^ 62) h, bit_xor-zero (val * 2)) refl

zigzag32 : (val : ℕ) → val < 2 ^ 30 → zigzag 32 val ≡ ok (val * 2)
zigzag32 val h = rw (ltb-true val (2 ^ 30) h, bit_xor-zero (val * 2)) refl

-- The shift of any other 64-bit integer, given as a bit pattern, is left open by the C standard.
varint64_left_open :
    (al : Allocator) (p : Parcel) (val : ℕ)
    → 2 ^ 62 ≤ val
    → write_varint64 al p val ≡ fault overflow
unfolding write_varint64
varint64_left_open al p val h =
    let large : ltb val (2 ^ 62) ≡ false = ground (arith, h) in rw large refl

module _ (al : Allocator) (lawful : IsAllocator al) (p : Parcel) (v : IsOpen p) where
  read-Written :
      (val : ℕ) (bs : List ℕ) (q : Parcel)
      → val < 2 ^ 64
      → groups 10 val ≡ ok bs
      → Written p bs q
      → ReadsBack read_varuint64 q p.size val
  unfolding read_varuint64
  read-Written val bs q small e w =
      let (b, is, size) = w.valid.block in
      let last : p.size + length bs ≤ q.size = omega (arith, w.size) in
      rw is (
        read_groups b q.size (omega (arith, w.valid.within, w.valid.bounded)) 10 11 p.size val 0 0
          bs e (omega arith) (w.new_bytes b is) last (omega arith) (omega arith) (omega arith)
        ∙ ap₂
            (λ (x n : ℕ).
              ok (x, record { size = n; capacity = q.size; ptr = some b; error = false }))
            (omega arith) (sym w.size))

  -- A 64-bit integer that was written behind an open parcel reads back, and the reader stops behind
  -- it; or the parcel reports an error, and the allocator failed.
  pub varuint64_round_trip :
      (val : ℕ)
      → p.size + 10 ≤ 2 ^ 62
      → val < 2 ^ 64
      → (q : Parcel) × (write_varuint64 al p val ≡ ok q)
        × (OutOfMemory al q ⊎ (IsOpen q × ReadsBack read_varuint64 q p.size val))
  unfolding write_varuint64
  varuint64_round_trip val room small =
      let (bs, e, n) = groups-total 9 val (omega arith) in
      let (q, run, r) = write_lem al p bs lawful v (omega arith) in (q, rw e run, result bs q e r)
    where
      result :
          (bs : List ℕ) (q : Parcel)
          → groups 10 val ≡ ok bs
          → OutOfMemory al q ⊎ Written p bs q
          → OutOfMemory al q ⊎ (IsOpen q × ReadsBack read_varuint64 q p.size val)
      result bs q e (inl bad) = inl bad
      result bs q e (inr w) = inr (w.valid, read-Written val bs q small e w)

  read_varint64-of :
      (q : Parcel) (z val : ℕ)
      → unzigzag z ≡ val
      → ReadsBack read_varuint64 q p.size z
      → ReadsBack read_varint64 q p.size val
  unfolding read_varint64
  read_varint64-of q z val e r = rw (r, e)

  -- A signed 64-bit integer from 0 to 2^62 - 1 reads back from its zigzag form, unless the allocator
  -- failed.
  pub varint64_round_trip :
      (val : ℕ)
      → p.size + 10 ≤ 2 ^ 62
      → val < 2 ^ 62
      → (q : Parcel) × (write_varint64 al p val ≡ ok q)
        × (OutOfMemory al q ⊎ (IsOpen q × ReadsBack read_varint64 q p.size val))
  unfolding write_varint64
  varint64_round_trip val room small =
      let (q, e, r) = varuint64_round_trip (val * 2) room (omega (arith, small)) in
      (q, rw (zigzag64 val small) e, result q r)
    where
      result :
          (q : Parcel)
          → OutOfMemory al q ⊎ (IsOpen q × ReadsBack read_varuint64 q p.size (val * 2))
          → OutOfMemory al q ⊎ (IsOpen q × ReadsBack read_varint64 q p.size val)
      result q (inl bad) = inl bad
      result q (inr (o, r)) =
          inr (o, read_varint64-of q (val * 2) val (unzigzag-even val (omega (arith, small))) r)

  -- A signed 32-bit integer from 0 to 2^30 - 1 reads back from its zigzag form, unless the allocator
  -- failed.
  pub varint_round_trip :
      (val : ℕ)
      → p.size + 10 ≤ 2 ^ 62
      → val < 2 ^ 30
      → (q : Parcel) × (write_varint al p val ≡ ok q)
        × (OutOfMemory al q ⊎ (IsOpen q × ReadsBack read_varint q p.size val))
  unfolding write_varint read_varint
  varint_round_trip val room small =
      let (q, e, r) = varuint64_round_trip (val * 2) room (omega (arith, small)) in
      (q, rw (zigzag32 val small) e, result q r)
    where
      result :
          (q : Parcel)
          → OutOfMemory al q ⊎ (IsOpen q × ReadsBack read_varuint64 q p.size (val * 2))
          → OutOfMemory al q ⊎ (IsOpen q × ReadsBack read_varint q p.size val)
      result q (inl bad) = inl bad
      result q (inr (o, r)) =
          let wrapped : val % 2 ^ 32 ≡ val = omega (arith, small) in
          inr (
            o,
            rw (
              read_varint64-of q (val * 2) val (unzigzag-even val (omega (arith, small))) r,
              wrapped,
            ),
          )
