-- ===== src/Text/Bytes.antt =====
-- The bytes of UTF-8 by their ranges: what the masks of `next_wchar` test and keep.
use fbbs.Common.{
  not, ℕ, ◌+◌, ◌*◌, ◌^◌, ◌<◌, ◌≡◌, refl, ◌∙◌, bit_and, bit_or, Bool, true, false, not, ◌&&◌, arith,
  ltb, leb, ◌==◌,
}
use fbbs.Common.Bits.{holds_below, holds_below_lem, bit_and_mask, bit_or_disjoint, bit_or_comm}
use fbbs.Text.{is_cont}

abbrev same_test : Bool → Bool → Bool
same_test true p = p
same_test false p = not p

same_test_lem : (p q : Bool) → same_test p q ≡ true → p ≡ q
same_test_lem true true h = refl
same_test_lem true false h = cc
same_test_lem false true h = cc
same_test_lem false false h = refl

abbrev mask_range : (mask value lo hi c : ℕ) → Bool
mask_range mask value lo hi c = same_test (bit_and c mask == value) (leb lo c && ltb c hi)

two_table : holds_below (mask_range 0xe0 0xc0 0xc0 0xe0) 256 ≡ true
unfolding holds_below
two_table = refl

three_table : holds_below (mask_range 0xf0 0xe0 0xe0 0xf0) 256 ≡ true
unfolding holds_below
three_table = refl

four_table : holds_below (mask_range 0xf8 0xf0 0xf0 0xf8) 256 ≡ true
unfolding holds_below
four_table = refl

cont_table : holds_below (mask_range 0xc0 0x80 0x80 0xc0) 256 ≡ true
unfolding holds_below
cont_table = refl

module _ (c : ℕ) (byte : c < 256) where
  pub lead_two : (bit_and c 0xe0 == 0xc0) ≡ (leb 0xc0 c && ltb c 0xe0)
  lead_two =
      same_test_lem _ _ (holds_below_lem (mask_range 0xe0 0xc0 0xc0 0xe0) 256 c byte two_table)

  pub lead_three : (bit_and c 0xf0 == 0xe0) ≡ (leb 0xe0 c && ltb c 0xf0)
  lead_three =
      same_test_lem _ _ (holds_below_lem (mask_range 0xf0 0xe0 0xe0 0xf0) 256 c byte three_table)

  pub lead_four : (bit_and c 0xf8 == 0xf0) ≡ (leb 0xf0 c && ltb c 0xf8)
  lead_four =
      same_test_lem _ _ (holds_below_lem (mask_range 0xf8 0xf0 0xf0 0xf8) 256 c byte four_table)

  pub is_cont_range : is_cont c ≡ (leb 0x80 c && ltb c 0xc0)
  unfolding is_cont
  is_cont_range =
      same_test_lem _ _ (holds_below_lem (mask_range 0xc0 0x80 0x80 0xc0) 256 c byte cont_table)

-- `(hi << k) | lo`
pub joined : (k hi lo : ℕ) → lo < 2 ^ k → bit_or (hi * 2 ^ k) lo ≡ hi * 2 ^ k + lo
joined k hi lo h = bit_or_comm (hi * 2 ^ k) lo ∙ bit_or_disjoint k hi lo h ∙ omega arith

module _ (b : ℕ) (small : b < 64) where
  pub cont-is_cont : is_cont (0x80 + b) ≡ true
  cont-is_cont = is_cont_range (0x80 + b) (omega arith) ∙ ground arith

  pub cont_low : bit_and (0x80 + b) 0x3f ≡ b
  cont_low = bit_and_mask 6 (0x80 + b) ∙ omega arith

pub lead_low_two : (a : ℕ) → a < 32 → bit_and (0xc0 + a) 0x1f ≡ a
lead_low_two a h = bit_and_mask 5 (0xc0 + a) ∙ omega arith

pub lead_low_three : (a : ℕ) → a < 16 → bit_and (0xe0 + a) 0x0f ≡ a
lead_low_three a h = bit_and_mask 4 (0xe0 + a) ∙ omega arith

pub lead_low_four : (a : ℕ) → a < 8 → bit_and (0xf0 + a) 0x07 ≡ a
lead_low_four a h = bit_and_mask 3 (0xf0 + a) ∙ omega arith
