-- ===== src/Vector/Tests.antt =====
-- Runs of the vector, and the theorems at concrete vectors.
use fbbs.Common.{ℕ, ◌≡◌, refl, true, false, Option, none, some, [], ◌∷◌, arith, replicate}
use fbbs.Common.Alloc.{zeroing, exhausted, zeroing-IsAllocator}
use fbbs.Common.Memory.{move, copy_in}
use fbbs.Common.Run.{ok, ◌>>=◌}
use fbbs.Vector.{
  Vector, grow_loop, grow_capacity, reserve, init, extend, grow, shift_down, erase_range,
}
use fbbs.Vector.Valid.{IsValid}
use fbbs.Vector.Grow.{Grown, grow_lem}

abbrev pair : Vector
pair = record { len = 1; size = 3; capacity = 8; block = some (1 ∷ 2 ∷ 3 ∷ 0 ∷ 0 ∷ 0 ∷ 0 ∷ 0 ∷ []) }

abbrev full : Vector
full = record { len = 1; size = 8; capacity = 8; block = some (1 ∷ 2 ∷ 3 ∷ 4 ∷ 5 ∷ 6 ∷ 7 ∷ 8 ∷ []) }

grow_runs :
    (init zeroing 1 0 >>= λ r. grow zeroing r.1 3)
    ≡ ok (some 0, record { len = 1; size = 3; capacity = 8; block = some (replicate 8 0) })
unfolding init reserve grow extend grow_capacity grow_loop
grow_runs = refl

erase_runs :
    erase_range pair 0 1
    ≡ ok (true, record pair { size = 2; block = some (2 ∷ 3 ∷ 0 ∷ 0 ∷ 0 ∷ 0 ∷ 0 ∷ 0 ∷ []) })
unfolding erase_range shift_down move copy_in
erase_runs = refl

full-IsValid : IsValid full
full-IsValid = record {
  stored = record { fits = omega arith; bounded = omega arith; sized = λ b e. ground arith };
  within = omega arith;
}

grow_lem_example : (r : Option ℕ × Vector) × (grow zeroing full 1 ≡ ok r) × Grown full 1 r.0 r.1
grow_lem_example =
    grow_lem zeroing zeroing-IsAllocator full 1 full-IsValid.stored (omega arith) (omega arith)

abbrev failed : Vector
failed = record { len = 1; size = 8; capacity = 16; block = none }

reserve_fails : reserve exhausted full 9 ≡ ok (false, failed)
unfolding reserve grow_capacity grow_loop
reserve_fails = refl
