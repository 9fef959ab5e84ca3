-- ===== src/Vector/Capacity.antt =====
-- `grow_capacity`: when the doubling loop ends, and with what.
use native.Mathlib.Nat.{pow-suc, one-le-pow}
use fbbs.Common.{
  ℕ, zero, suc, ◌+◌, ◌*◌, ◌^◌, ◌≤◌, ◌<◌, ◌≡◌, ◌⊎◌, inl, inr, refl, arith, ltb, ap, Bool-cases,
}
use fbbs.Common.Run.{ok, fault, endless}
use fbbs.Vector.{grow_loop, grow_capacity, u32}

-- The doubled start `val * 2 ^ j` that the loop stops at.
abbrev Doubled : (val capacity j : ℕ) → Type 0
Doubled val capacity j =
    (capacity ≤ val * 2 ^ j)
    × (val * 2 ^ j ≤ 2 ^ 31)
    × ((val * 2 ^ j ≡ val) ⊎ (val * 2 ^ j < capacity + capacity))

abbrev Ends : (fuel val capacity : ℕ) → Type 0
Ends fuel val capacity =
    (j : ℕ) × (grow_loop fuel val capacity ≡ ok (val * 2 ^ j)) × Doubled val capacity j

twice-pow : (val j : ℕ) → val * 2 ^ suc j ≡ val * 2 * 2 ^ j
twice-pow val j = omega (arith, ap (λ (t : ℕ). val * t) (pow-suc 2 j))

stop : (fuel val capacity : ℕ) → capacity ≤ val → val ≤ 2 ^ 31 → Ends (suc fuel) val capacity
unfolding grow_loop
stop fuel val capacity h k = (0, ground arith, (omega arith, omega arith, inl (omega arith)))

double-fits : (val fuel : ℕ) → val * 2 ^ suc fuel ≡ 2 ^ 31 → val * 2 ≤ 2 ^ 31
double-fits val fuel e = grind (arith, twice-pow val fuel, one-le-pow fuel 2 (omega arith))

go_on :
    (fuel val capacity : ℕ)
    → val < capacity
    → val * 2 ≤ 2 ^ 31
    → Ends fuel (val * 2) capacity
    → Ends (suc fuel) val capacity
unfolding grow_loop
go_on fuel val capacity more fits (j, e, d) =
    (suc j, ground (arith, twice-pow val j, u32-eq), ground (arith, twice-pow val j))
  where
    u32-eq : u32 (val * 2) ≡ val * 2
    u32-eq = omega arith

grow_loop-Ends :
    (fuel val capacity : ℕ)
    → val * 2 ^ fuel ≡ 2 ^ 31
    → capacity ≤ 2 ^ 31
    → Ends (suc fuel) val capacity
grow_loop-Ends zero val capacity e h = stop 0 val capacity (omega arith) (omega arith)
grow_loop-Ends (suc fuel) val capacity e h = elim (Bool-cases (ltb val capacity)) [
  | inl more ↦
      go_on (suc fuel) val capacity (ground arith) (double-fits val fuel e)
        (grow_loop-Ends fuel (val * 2) capacity (omega (arith, twice-pow val fuel)) h)
  | inr done ↦ stop (suc fuel) val capacity (ground arith) (omega (arith, double-fits val fuel e))
]

-- For at most 2 ^ 31 elements `grow_capacity` ends with a power of two times 8 that is large enough,
-- and that is 8 or below twice the capacity asked for.
pub grow_capacity_ends :
    (capacity : ℕ)
    → capacity ≤ 2 ^ 31
    → (j : ℕ) × (grow_capacity capacity ≡ ok (8 * 2 ^ j))
      × (capacity ≤ 8 * 2 ^ j)
      × (8 * 2 ^ j ≤ 2 ^ 31)
      × ((8 * 2 ^ j ≡ 8) ⊎ (8 * 2 ^ j < capacity + capacity))
unfolding grow_capacity
grow_capacity_ends capacity h =
    let (j, e, d) = grow_loop-Ends 28 8 capacity refl h in (j, e, d.0, d.1, d.2)

-- Past 2^31 the doubling wraps to 0 and no number of rounds ends the loop.
grow_loop-zero : (fuel capacity : ℕ) → 0 < capacity → grow_loop fuel 0 capacity ≡ fault endless
unfolding grow_loop
grow_loop-zero zero capacity h = refl
grow_loop-zero (suc fuel) capacity h = ground (arith, grow_loop-zero fuel capacity)

grow_loop-wraps :
    (k fuel val capacity : ℕ)
    → val * 2 ^ suc k ≡ 2 ^ 32
    → 2 ^ 31 < capacity
    → grow_loop fuel val capacity ≡ fault endless
unfolding grow_loop
grow_loop-wraps k zero val capacity e h = refl
grow_loop-wraps zero (suc fuel) val capacity e h =
    let half : val ≡ 2 ^ 31 = omega arith in
    ground (arith, grow_loop-zero fuel capacity (omega arith))
grow_loop-wraps (suc k) (suc fuel) val capacity e h =
    let small : val * 2 ≤ 2 ^ 31 = below in
    ground
      (arith, grow_loop-wraps k fuel (val * 2) capacity (omega (arith, twice-pow val (suc k))) h)
  where
    below : val * 2 ≤ 2 ^ 31
    below =
        double-fits val k
          (omega (arith, twice-pow val (suc k), twice-pow (val * 2) k, twice-pow val k))

-- For more than 2 ^ 31 elements the loop of `grow_capacity` does not end, whatever the number of rounds.
pub grow_loop_endless :
    (fuel capacity : ℕ) → 2 ^ 31 < capacity → grow_loop fuel 8 capacity ≡ fault endless
grow_loop_endless fuel capacity h = grow_loop-wraps 28 fuel 8 capacity refl h
