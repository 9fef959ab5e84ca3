-- ===== src/Vector/Valid.antt =====
-- The well-formedness of a vector, and `vector_reserve`.
use fbbs.Common.{
  ℕ, ◌+◌, ◌*◌, ◌^◌, ◌≤◌, ◌<◌, ◌≡◌, refl, ◌⊎◌, inl, inr, Bool, true, Option, none, some, List, arith,
  ltb, Bool-cases, is_some, length, get_elem?,
}
use fbbs.Common.Alloc.{Allocator, IsAllocator}
use fbbs.Common.Run.{ok}
use fbbs.Vector.{Vector, reserve, u32}
use fbbs.Vector.Capacity.{grow_capacity_ends}

-- The block, where there is one, has room for `capacity` elements.
pub record IsStored (v : Vector) : Type 0 where
  pub fits : v.len * v.capacity < 2 ^ 32
  pub bounded : v.capacity ≤ 2 ^ 31
  pub sized : (b : List ℕ) → v.block ≡ some b → length b ≡ v.len * v.capacity

pub record IsValid (v : Vector) : Type 0 where
  pub stored : IsStored v
  pub within : v.size ≤ v.capacity

-- The bytes of `v` stand at the same offsets in `w`, if both have a block.
abbrev pub KeepsBytes : Vector → Vector → Type 0
KeepsBytes v w =
    (b c : List ℕ) (i : ℕ)
    → v.block ≡ some b
    → w.block ≡ some c
    → i < v.len * v.capacity
    → get_elem? c i ≡ get_elem? b i

-- What `reserve` promises for `capacity` elements.
pub record Reserved (v : Vector) (capacity : ℕ) (done : Bool) (w : Vector) : Type 0 where
  pub stored : IsStored w
  pub room : capacity ≤ w.capacity
  pub size : w.size ≡ v.size
  pub len : w.len ≡ v.len
  pub keeps : KeepsBytes v w
  pub answer : (done ≡ is_some w.block) ⊎ ((done ≡ true) × (w ≡ v))

mul-lt_of_le : (l a b n : ℕ) → a ≤ b → l * b < n → l * a < n
mul-lt_of_le l a b n h k = grind arith

abbrev resized : Allocator → Vector → ℕ → Vector
resized al v c = record v { capacity = c; block = al.realloc v.block (u32 (v.len * c)) }

module _ (al : Allocator) (lawful : IsAllocator al) (v : Vector) (s : IsStored v) where
  resized-sized :
      (c : ℕ) (o : Option (List ℕ))
      → v.block ≡ o
      → v.len * c < 2 ^ 32
      → (b : List ℕ) → (resized al v c).block ≡ some b
      → length b ≡ v.len * c
  resized-sized c none e h b p = ground (arith, lawful.realloc_null (u32 (v.len * c)) b)
  resized-sized c (some old) e h b p = ground (arith, lawful.realloc_size old b (u32 (v.len * c)))

  resized-keeps :
      (c : ℕ) → v.len * c < 2 ^ 32 → v.len * v.capacity ≤ v.len * c → KeepsBytes v (resized al v c)
  resized-keeps c h le b b' i p q lt =
      ground (arith, lawful.realloc_keeps b b' (u32 (v.len * c)) i, s.sized b)

  resized-Reserved :
      (capacity c : ℕ)
      → v.len * c < 2 ^ 32
      → v.capacity < capacity
      → capacity ≤ c
      → c ≤ 2 ^ 31
      → Reserved v capacity (is_some (resized al v c).block) (resized al v c)
  resized-Reserved capacity c h more le top = record {
    stored = record { fits = h; bounded = top; sized = resized-sized c v.block refl h };
    room = le;
    size = refl;
    len = refl;
    keeps = resized-keeps c h (grind arith);
    answer = inl refl;
  }

  -- For at most 2 ^ 31 elements, and a block below 2 ^ 32 bytes, `vector_reserve` returns, whatever the
  -- allocator answers: the vector has the capacity, its bytes stay, and it is well formed.
  pub reserve_lem :
      (capacity : ℕ)
      → capacity ≤ 2 ^ 31
      → v.len * (capacity + capacity + 8) < 2 ^ 32
      → (r : Bool × Vector) × (reserve al v capacity ≡ ok r) × Reserved v capacity r.0 r.1
  unfolding reserve
  reserve_lem capacity top h = elim (Bool-cases (ltb v.capacity capacity)) [
    | inl more ↦
        let (j, e, le, fits, least) = grow_capacity_ends capacity top in
        let c : ℕ = 8 * 2 ^ j in
        let small : c ≤ capacity + capacity + 8 = omega (arith, least) in
        let w : Vector = resized al v c in
        (
          (is_some w.block, w),
          rw (more, e),
          resized-Reserved capacity c
              (mul-lt_of_le v.len c (capacity + capacity + 8) (2 ^ 32) small h) (ground arith) le
              fits,
        )
    | inr done ↦ (
      (true, v),
      rw done,
      record {
        stored = s;
        room = ground arith;
        size = refl;
        len = refl;
        keeps = λ b c i p q lt. ground arith;
        answer = inr (refl, refl);
      },
    )
  ]
