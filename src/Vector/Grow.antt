-- ===== src/Vector/Grow.antt =====
-- `vector_grow`: where the new elements stand, and what a failed allocation leaves behind.
use native.Mathlib.Nat.{mul-le-mul_left, mul-add, mod-eq_of_lt}
use fbbs.Common.{
  is_some, ℕ, ◌+◌, ◌-◌, ◌*◌, ◌^◌, ◌≤◌, ◌<◌, ◌≡◌, refl, ◌⊎◌, inl, inr, Bool, true, false, Option,
  none, some, List, arith, ap, length,
}
use fbbs.Common.Alloc.{Allocator, IsAllocator}
use fbbs.Common.Run.{ok}
use fbbs.Vector.{Vector, reserve, extend, grow, u32}
use fbbs.Vector.Valid.{IsStored, IsValid, KeepsBytes, Reserved, reserve_lem}

-- What a call of `grow` for `n` elements returns and leaves.
pub record Grown (v : Vector) (n : ℕ) (p : Option ℕ) (w : Vector) : Type 0 where
  pub valid : IsValid w
  pub size : w.size ≡ v.size + n
  pub keeps : KeepsBytes v w
  -- the offset of the first new element; NULL only where the block is lost
  pub place : ((p ≡ none) × (w.block ≡ none)) ⊎ (p ≡ some (v.len * v.size))
  -- the new elements lie inside the block
  pub inside : (b : List ℕ) → w.block ≡ some b → v.len * v.size + v.len * n ≤ length b

mul-add-le : (l a b c : ℕ) → a + b ≤ c → l * a + l * b ≤ l * c
mul-add-le l a b c h = omega (arith, mul-le-mul_left l h)

module _ (al : Allocator) (lawful : IsAllocator al) (v : Vector) (n : ℕ) (s : IsStored v) where
  abbrev asked : Vector
  asked = record v { size = v.size + n }

  Reserved-Grown :
      (done : Bool) (w : Vector) (p : Option ℕ)
      → Reserved asked (v.size + n) done w
      → ((p ≡ none) × (w.block ≡ none)) ⊎ (p ≡ some (v.len * v.size))
      → Grown v n p w
  Reserved-Grown done w p r place = record {
    valid = record { stored = r.stored; within = omega (arith, r.size, r.room) };
    size = r.size;
    keeps = r.keeps;
    place = place;
    inside = λ b e. omega (
      arith,
      mul-add-le v.len v.size n w.capacity r.room,
      r.stored.sized b e,
      ap (λ (t : ℕ). t * w.capacity) r.len,
    );
  }

  offset :
      (w : Vector)
      → w.size ≡ v.size + n
      → w.len ≡ v.len
      → v.len * v.size < 2 ^ 32
      → u32 (w.len * (w.size - n)) ≡ v.len * v.size
  offset w e f h = grind (arith, e, f)

  -- Growing a well-formed vector by `n` elements returns. The new elements stand behind the old ones,
  -- which stay, and lie inside the block; NULL is returned only where the allocator left no block. The
  -- sizes are below 2 ^ 31 elements and 2 ^ 32 bytes.
  pub grow_lem :
      v.size + n ≤ 2 ^ 31
      → v.len * (v.size + n + (v.size + n) + 8) < 2 ^ 32
      → (r : Option ℕ × Vector) × (grow al v n ≡ ok r) × Grown v n r.0 r.1
  unfolding grow extend
  grow_lem top h = go (reserve_lem al lawful asked stored' (v.size + n) top h)
    where
      stored' : IsStored asked
      stored' = record { fits = s.fits; bounded = s.bounded; sized = s.sized }

      size_wraps_not : u32 (v.size + n) ≡ v.size + n
      size_wraps_not = omega arith

      small : v.len * v.size < 2 ^ 32
      small = grind arith

      lost :
          (w : Vector) → (false ≡ is_some w.block) ⊎ ((false ≡ true) × (w ≡ asked)) → w.block ≡ none
      lost w (inl e) = ground (arith, e)
      lost w (inr (e, same)) = cc

      go :
          (q : Bool × Vector) × (reserve al asked (v.size + n) ≡ ok q)
            × Reserved asked (v.size + n) q.0 q.1
          → (r : Option ℕ × Vector) × (grow al v n ≡ ok r) × Grown v n r.0 r.1
      go ((false, w), e, r) = (
        (none, w),
        rw (size_wraps_not, e),
        Reserved-Grown false w none r (inl (refl, lost w r.answer)),
      )
      go ((true, w), e, r) = (
        (some (v.len * v.size), w),
        rw (size_wraps_not, e) (ground (arith, r.size, offset w r.size r.len small)),
        Reserved-Grown true w _ r (inr refl),
      )

-- A growth that failed leaves no block behind it but a capacity that promises one: the next growth
-- that fits this capacity returns an offset into no block.
pub grow_after_failure :
    (al later : Allocator) (v : Vector) (capacity n : ℕ) (w : Vector)
    → reserve al v capacity ≡ ok (false, w)
    → w.len * (w.size + n) < 2 ^ 32
    → w.size + n ≤ w.capacity
    → w.size + n < 2 ^ 32
    → (grow later w n ≡ ok (some (w.len * w.size), record w { size = w.size + n }))
      × (w.block ≡ none)
unfolding grow extend reserve
grow_after_failure al later v capacity n w e h fits small =
    (ground (arith, whole, back, place), ground arith)
  where
    whole : u32 (w.size + n) ≡ w.size + n
    whole = omega arith

    back : w.size + n - n ≡ w.size
    back = omega arith

    place : u32 (w.len * (w.size + n - n)) ≡ w.len * w.size
    place = rw back (mod-eq_of_lt (omega (arith, mul-add w.len w.size n)))
