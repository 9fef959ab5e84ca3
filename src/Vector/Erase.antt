-- ===== src/Vector/Erase.antt =====
-- `vector_erase_range`: which bytes stay, and the element past the end that it reads.
use native.Mathlib.Nat.{mul-le-mul_left, mul-add, mod-eq_of_lt, mul_comm}
use fbbs.Common.{
  inr, inl, Bool-cases, ltb, if◌then◌else◌, ℕ, ◌+◌, ◌-◌, ◌*◌, ◌^◌, ◌≤◌, ◌<◌, ◌≡◌, true, some, List,
  arith, ap, sym, ◌∙◌, lt→ltb, le→leb, length, get_elem?,
}
use fbbs.Common.Run.{ok, fault, bad_access, ◌>>=◌}
use fbbs.Common.Memory.{
  move, moved, move-moved, length-moved, get_elem?-moved_before, get_elem?-moved_inside,
}
use fbbs.Vector.{Vector, erase_range, shift_down, u32}
use fbbs.Vector.Valid.{IsValid}

module _ (v : Vector) (ok_v : IsValid v) (b : List ℕ) (e : v.block ≡ some b) (first last : ℕ)
    (order : first < last) (fits : last ≤ v.size) where
  -- The three products of the call of `memmove`, with no wrap.
  tail : ℕ
  tail = v.len * (v.size - last + 1)

  slot_fits :
      (i : ℕ) → i ≤ v.capacity → (u32 (i * v.len) ≡ v.len * i) × (u32 (v.len * i) ≡ v.len * i)
  slot_fits i h =
      let lt : v.len * i < 2 ^ 32 = omega (arith, mul-le-mul_left v.len h, ok_v.stored.fits) in
      (rw (mul_comm i v.len) (mod-eq_of_lt lt), mod-eq_of_lt lt)

  tail_end : v.len * last + v.len * (v.size - last + 1) ≡ v.len * (v.size + 1)
  tail_end = sym (mul-add v.len last (v.size - last + 1)) ∙ ap (λ (t : ℕ). v.len * t) (omega arith)

  erase_range-move : erase_range v first last ≡ (
      move b (v.len * first) (v.len * last) tail >>= λ c.
      ok (true, record v { size = v.size - (last - first); block = some c }))
  unfolding erase_range shift_down tail
  erase_range-move =
      rw
        (
          lt→ltb first last order,
          lt→ltb first v.size (omega arith),
          le→leb last v.size fits,
          (slot_fits first (omega (arith, ok_v.within))).0,
          (slot_fits last (omega (arith, ok_v.within))).0,
          (slot_fits (v.size - last + 1) (omega (arith, ok_v.within))).1,
          e,
        )
        (ground arith)

  erase_range-moves :
      v.size < v.capacity
      → (c : List ℕ) × (erase_range v first last
          ≡ ok (true, record v { size = v.size - (last - first); block = some c }))
        × (length c ≡ length b)
        × ((i : ℕ) → i < v.len * first → get_elem? c i ≡ get_elem? b i)
        × ((i : ℕ)
            → v.len * first ≤ i
            → i < v.len * (v.size - (last - first))
            → get_elem? c i ≡ get_elem? b (i + v.len * (last - first)))
  unfolding tail
  erase_range-moves spare = (
    moved b (v.len * first) (v.len * last) tail,
    rw erase_range-move
        (ground (arith, move-moved b (v.len * first) (v.len * last) tail room down)),
    length-moved b (v.len * first) (v.len * last) tail room down,
    get_elem?-moved_before b (v.len * first) (v.len * last) tail room down,
    λ i lo hi.
        let inside : i < v.len * first + tail = omega (arith, parts) in
        get_elem?-moved_inside b (v.len * first) (v.len * last) tail room down i lo inside
        ∙ ap (λ (t : ℕ). get_elem? b (i + t)) gap,
  )
    where
      next : v.size + 1 ≤ v.capacity
      next = omega arith

      room : v.len * last + tail ≤ length b
      room = omega (arith, tail_end, ok_v.stored.sized b e, mul-le-mul_left v.len next)

      down : v.len * first ≤ v.len * last
      down = mul-le-mul_left v.len (omega arith)

      gap : v.len * last - v.len * first ≡ v.len * (last - first)
      gap =
          let whole : first + (last - first) ≡ last = omega arith in
          omega (arith, mul-add v.len first (last - first), ap (λ (t : ℕ). v.len * t) whole)

      kept : v.size - (last - first) ≤ first + (v.size - last + 1)
      kept = omega arith

      parts : v.len * (v.size - (last - first)) ≤ v.len * first + tail
      parts = omega (arith, mul-le-mul_left v.len kept, mul-add v.len first (v.size - last + 1))

  -- With a spare element behind the last one, `vector_erase_range` moves the elements from `last` on
  -- down to `first`; those in front of `first` stay. Both are stated byte by byte.
  pub erase_range_lem :
      (i : ℕ)
      → v.size < v.capacity
      → i < v.len * (v.size - (last - first))
      → (c : List ℕ) × (erase_range v first last
          ≡ ok (true, record v { size = v.size - (last - first); block = some c }))
        × (length c ≡ length b)
        × (get_elem? c i
            ≡ get_elem? b (if ltb i (v.len * first) then i else i + v.len * (last - first)))
  erase_range_lem i spare h =
      let (c, e, n, before, behind) = erase_range-moves spare in
      (
        c,
        e,
        n,
        elim (Bool-cases (ltb i (v.len * first))) [
          | inl low ↦ rw low (before i (ground arith))
          | inr high ↦ rw high (behind i (ground arith) h)
        ],
      )

  -- On a full vector `vector_erase_range` reads one element behind the block.
  pub erase_range_full :
      v.size ≡ v.capacity → 0 < v.len → erase_range v first last ≡ fault bad_access
  unfolding tail
  erase_range_full full pos =
      rw erase_range-move (unfold move in ground (arith, tail_end, ok_v.stored.sized b e, past))
    where
      past : v.len * v.capacity + v.len ≡ v.len * (v.size + 1)
      past = omega (arith, mul-add v.len v.size 1, ap (λ (t : ℕ). v.len * t) full)
