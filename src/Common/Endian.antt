-- ===== src/Common/Endian.antt =====
-- The bytes of an integer in memory, the lowest first.
use native.Mathlib.Nat.{pow-suc}
use fbbs.Common.{
  ℕ, zero, suc, ◌+◌, ◌*◌, ◌/◌, ◌%◌, ◌^◌, ◌<◌, ◌≡◌, refl, ap, List, [], ◌∷◌, arith, length,
}

abbrev pub little_endian : (n val : ℕ) → List ℕ
little_endian zero val = []
little_endian (suc n) val = (val % 256) ∷ little_endian n (val / 256)

abbrev pub of_little_endian : List ℕ → ℕ
of_little_endian [] = 0
of_little_endian (b ∷ bs) = b + 256 * of_little_endian bs

pub length-little_endian : (n val : ℕ) → length (little_endian n val) ≡ n
length-little_endian zero val = refl
length-little_endian (suc n) val = ap suc (length-little_endian n (val / 256))

-- The bytes give the number back when it fits.
pub of_little_endian_lem :
    (n val : ℕ) → val < 256 ^ n → of_little_endian (little_endian n val) ≡ val
of_little_endian_lem zero val h = omega arith
of_little_endian_lem (suc n) val h =
    omega (arith, of_little_endian_lem n (val / 256) (omega (arith, pow-suc 256 n)))
