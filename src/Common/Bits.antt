-- ===== src/Common/Bits.antt =====
-- Laws of the bit operations of C: an equation for the lowest digit of each, then masks, shifts and
-- complements.
use Prim.Native.Nat.{bitwise, digits, differ, bit_and-bitwise, bit_or-bitwise, bit_xor-bitwise}
use mathlib.Core.Path.{ap₂}
use native.Mathlib.Nat.{pow-suc, one-le-pow, mod-add-div', mod-lt}
use fbbs.Common.{
  inr, inl, ltb, Bool-cases, ℕ, zero, suc, ◌+◌, ◌-◌, ◌*◌, ◌/◌, ◌%◌, ◌^◌, ◌≤◌, ◌<◌, min, max,
  bit_and, bit_or, bit_xor, Bool, true, ◌&&◌, ◌≡◌, refl, ap, sym, ◌∙◌, arith,
}

module _ (z : ℕ → ℕ) (f : ℕ → ℕ → ℕ) where
  no_digits : (m b : ℕ) → digits z f m 0 b ≡ z b
  no_digits zero b = refl
  no_digits (suc m) b = refl

  -- Fuel from `a` on is enough.
  digits-fuel : (a b m n : ℕ) → a ≤ n → a ≤ m → digits z f m a b ≡ digits z f n a b
  digits-fuel zero b m n q p = no_digits m b ∙ sym (no_digits n b)
  digits-fuel (suc a) b zero n q p = absurd (omega arith)
  digits-fuel (suc a) b m zero q p = absurd (omega arith)
  digits-fuel (suc a) b (suc m) (suc n) q p =
      let half = digits-fuel (suc a / 2) (b / 2) m n (omega arith) (omega arith) in
      ap (λ (t : ℕ). t * 2 + f (suc a % 2) (b % 2)) half

  bitwise_lowest :
      (a b : ℕ)
      → bitwise z f (suc a) b ≡ bitwise z f (suc a / 2) (b / 2) * 2 + f (suc a % 2) (b % 2)
  bitwise_lowest a b =
      ap (λ (t : ℕ). t * 2 + f (suc a % 2) (b % 2))
        (digits-fuel (suc a / 2) (b / 2) a (suc a / 2) (omega arith) (omega arith))

and_lowest : (a b : ℕ) → bit_and a b ≡ bit_and (a / 2) (b / 2) * 2 + min (a % 2) (b % 2)
and_lowest zero b = simp bit_and-bitwise (omega arith)
and_lowest (suc a) b = simp bit_and-bitwise (bitwise_lowest (λ y. 0) min a b)

or_lowest : (a b : ℕ) → bit_or a b ≡ bit_or (a / 2) (b / 2) * 2 + max (a % 2) (b % 2)
or_lowest zero b = simp bit_or-bitwise (omega arith)
or_lowest (suc a) b = simp bit_or-bitwise (bitwise_lowest (λ y. y) max a b)

differ_bits : (x y : ℕ) → x < 2 → y < 2 → differ x y ≡ (x + y) % 2
differ_bits zero y p q = omega arith
differ_bits (suc zero) zero p q = refl
differ_bits (suc zero) (suc zero) p q = refl
differ_bits (suc zero) (suc (suc y)) p q = absurd (omega arith)
differ_bits (suc (suc x)) y p q = absurd (omega arith)

xor_lowest : (a b : ℕ) → bit_xor a b ≡ bit_xor (a / 2) (b / 2) * 2 + (a + b) % 2
xor_lowest zero b = simp bit_xor-bitwise (omega arith)
xor_lowest (suc a) b = simp bit_xor-bitwise (
    omega (
      arith,
      bitwise_lowest (λ y. y) differ a b,
      differ_bits (suc a % 2) (b % 2) (omega arith) (omega arith),
    ))

-- Laws with an operand 0.
bit_and-zero : (n a : ℕ) → a ≤ n → bit_and a 0 ≡ 0
bit_and-zero zero zero h = refl
bit_and-zero zero (suc a) h = absurd (omega arith)
bit_and-zero (suc n) zero h = refl
bit_and-zero (suc n) (suc a) h =
    omega (arith, and_lowest (suc a) 0, bit_and-zero n (suc a / 2) (omega arith))

bit_xor-zero_fuel : (n a : ℕ) → a ≤ n → bit_xor a 0 ≡ a
bit_xor-zero_fuel zero zero h = refl
bit_xor-zero_fuel zero (suc a) h = absurd (omega arith)
bit_xor-zero_fuel (suc n) zero h = refl
bit_xor-zero_fuel (suc n) (suc a) h =
    omega (arith, xor_lowest (suc a) 0, bit_xor-zero_fuel n (suc a / 2) (omega arith))

pub bit_xor-zero : (a : ℕ) → bit_xor a 0 ≡ a
bit_xor-zero a = bit_xor-zero_fuel a a (omega arith)

double-pow : (q k : ℕ) → q * 2 ^ suc k ≡ 2 * (q * 2 ^ k)
double-pow q k = omega (arith, ap (λ (t : ℕ). q * t) (pow-suc 2 k))

zero-bit_or : (b : ℕ) → bit_or 0 b ≡ b
zero-bit_or b = bit_or-bitwise 0 b

-- `r | (q << k)` is a sum when `r` fits into k bits.
pub bit_or_disjoint : (k q r : ℕ) → r < 2 ^ k → bit_or r (q * 2 ^ k) ≡ r + q * 2 ^ k
bit_or_disjoint zero q r fits = ground (arith, zero-bit_or q)
bit_or_disjoint (suc k) q r fits = omega (
  arith,
  or_lowest r (q * 2 ^ suc k),
  double-pow q k,
  pow-suc 2 k,
  bit_or_disjoint k q (r / 2) (omega (arith, pow-suc 2 k)),
  half_shifted,
)
  where
    half_shifted : bit_or (r / 2) (q * 2 ^ suc k / 2) ≡ bit_or (r / 2) (q * 2 ^ k)
    half_shifted = ap (bit_or (r / 2)) (omega (arith, double-pow q k))

half-mask : (k : ℕ) → (2 ^ suc k - 1) / 2 ≡ 2 ^ k - 1
half-mask k = omega (arith, pow-suc 2 k, one-le-pow k 2 (omega arith))

bit_and_low : (k q r : ℕ) → r < 2 ^ k → bit_and (r + q * 2 ^ k) (2 ^ k - 1) ≡ r
bit_and_low zero q r fits = omega (arith, bit_and-zero (r + q * 1) (r + q * 1) (omega arith))
bit_and_low (suc k) q r fits = omega (
  arith,
  and_lowest (r + q * 2 ^ suc k) (2 ^ suc k - 1),
  ap₂ bit_and half_value (half-mask k),
  bit_and_low k q (r / 2) (omega (arith, pow-suc 2 k)),
  double-pow q k,
  pow-suc 2 k,
  one-le-pow k 2 (omega arith),
)
  where
    half_value : (r + q * 2 ^ suc k) / 2 ≡ r / 2 + q * 2 ^ k
    half_value = omega (arith, double-pow q k)

-- `a & (2^k - 1)` is the remainder.
pub bit_and_mask : (k a : ℕ) → bit_and a (2 ^ k - 1) ≡ a % 2 ^ k
bit_and_mask k a =
    ap (λ (t : ℕ). bit_and t (2 ^ k - 1)) (sym (mod-add-div' a (2 ^ k)))
    ∙ bit_and_low k (a / 2 ^ k) (a % 2 ^ k) (mod-lt a (one-le-pow k 2 (omega arith)))

-- `a ^ (2^k - 1)`, all ones, is the complement.
pub bit_xor_ones : (k a : ℕ) → a < 2 ^ k → bit_xor a (2 ^ k - 1) ≡ 2 ^ k - 1 - a
bit_xor_ones zero zero h = refl
bit_xor_ones zero (suc a) h = absurd (omega arith)
bit_xor_ones (suc k) a h = omega (
  arith,
  xor_lowest a (2 ^ suc k - 1),
  ap (bit_xor (a / 2)) (half-mask k),
  bit_xor_ones k (a / 2) (omega (arith, pow-suc 2 k)),
  pow-suc 2 k,
  one-le-pow k 2 (omega arith),
)

bit_or_comm_fuel : (n a b : ℕ) → a ≤ n → b ≤ n → bit_or a b ≡ bit_or b a
bit_or_comm_fuel zero a b p q =
    let left : a ≡ 0 = omega arith in let right : b ≡ 0 = omega arith in rw (left, right) refl
bit_or_comm_fuel (suc n) a b p q = omega (
  arith,
  or_lowest a b,
  or_lowest b a,
  bit_or_comm_fuel n (a / 2) (b / 2) (omega arith) (omega arith),
)

pub bit_or_comm : (a b : ℕ) → bit_or a b ≡ bit_or b a
bit_or_comm a b = bit_or_comm_fuel (a + b) a b (omega arith) (omega arith)

-- A test that holds at the numbers below a bound.
unfoldable pub holds_below : (ℕ → Bool) → ℕ → Bool
holds_below p zero = true
holds_below p (suc bound) = holds_below p bound && p bound

pub holds_below_lem :
    (p : ℕ → Bool) (bound x : ℕ) → x < bound → holds_below p bound ≡ true → p x ≡ true
unfolding holds_below
holds_below_lem p zero x below all = absurd (omega arith)
holds_below_lem p (suc bound) x below all = elim (Bool-cases (ltb x bound)) [
  | inl before ↦ holds_below_lem p bound x (ground arith) (ground arith)
  | inr last ↦ let same : x ≡ bound = ground arith in rw same (ground arith)
]
