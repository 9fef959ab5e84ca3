-- ===== src/Parcel/Varint.antt =====
-- Variable-length integers: what is written is what is read, signed integers included.
use mathlib.Core.Path.{ap₂}
use native.Mathlib.Nat.{pow-suc, pow-le-pow_right, mul-le-mul, mul-le-mul_right, mod-eq_of_lt}
use native.Mathlib.Numerals.{towards_suc}
use fbbs.Common.{
  ℕ, zero, suc, ◌+◌, ◌*◌, ◌/◌, ◌%◌, ◌^◌, ◌≤◌, ◌<◌, bit_and, bit_or, ◌≡◌, refl, ap, sym, subst, ◌∙◌,
  inl, inr, Bool, false, not, some, List, [], ◌∷◌, arith, ltb, ◌==◌, Bool-cases, length, get_elem?,
  if◌then◌else◌, ◌≢◌, leb→le, lt→ltb,
}
use fbbs.Common.Bits.{bit_and_mask, bit_or_disjoint, holds_below, holds_below_lem}
use fbbs.Common.Run.{Run, ok, fault}
use fbbs.Parcel.{Parcel, groups, read_uchar, read_loop}
use fbbs.Parcel.Read.{read_uchar-byte}
use fbbs.Common.Memory.{StandsAt}

abbrev top_bit_agrees : ℕ → Bool
top_bit_agrees x = if ltb x 128 then bit_and x 0x80 == 0 else not (bit_and x 0x80 == 0)

-- The top bit of a byte tells whether more groups follow.
top_bit : (x : ℕ) → x < 256 → (bit_and x 0x80 == 0) ≡ ltb x 128
unfolding holds_below
top_bit x h = ground (arith, holds_below_lem top_bit_agrees 256 x h refl)

mark : (low : ℕ) → low < 128 → bit_or low 0x80 ≡ low + 128
mark low h = bit_or_disjoint 7 1 low h

pow-add-seven : (offset : ℕ) → 2 ^ (offset + 7) ≡ 128 * 2 ^ offset
pow-add-seven offset = simp towards_suc (omega arith)

-- The shift of the next group stays below 64 while value is left.
next_offset : (val offset : ℕ) → 0 < val → val * 2 ^ offset < 2 ^ 64 → offset < 64
next_offset val offset pos h = elim (Bool-cases (ltb offset 64)) [
  | inl lt ↦ ground arith
  | inr ge ↦
      let le : 64 ≤ offset = ground arith in
      let two : 0 < 2 = omega arith in
      let large : 2 ^ 64 ≤ 2 ^ offset = pow-le-pow_right two le in
      absurd (omega (arith, mul-le-mul pos large))
]

split-mul : (val p : ℕ) → val * p ≡ val % 128 * p + 128 * (val / 128 * p)
split-mul val p =
    let whole : val ≡ val % 128 + 128 * (val / 128) = omega arith in
    omega (arith, ap (λ (t : ℕ). t * p) whole)

carry : (val offset : ℕ) → val / 128 * 2 ^ (offset + 7) ≡ 128 * (val / 128 * 2 ^ offset)
carry val offset = omega (arith, ap (λ (t : ℕ). val / 128 * t) (pow-add-seven offset))

-- The low group of a value is a byte below 128.
groups-last : (left val : ℕ) → val < 128 → groups (suc left) val ≡ ok (val ∷ [])
unfolding groups
groups-last left val h = ground (arith, bit_and_mask 7 val)

groups-more :
    (left val : ℕ) (bs : List ℕ)
    → 128 ≤ val
    → groups left (val / 128) ≡ ok bs
    → groups (suc left) val ≡ ok ((val % 128 + 128) ∷ bs)
unfolding groups
groups-more left val bs h e = ground (arith, bit_and_mask 7 val, mark (val % 128) (omega arith))

-- Ten groups are enough for 64 bits.
pub groups-total :
    (left val : ℕ)
    → val < 128 ^ suc left
    → (bs : List ℕ) × (groups (suc left) val ≡ ok bs) × (length bs ≤ suc left)
groups-total zero val h = (val ∷ [], groups-last 0 val h, omega arith)
groups-total (suc left) val h = elim (Bool-cases (ltb val 128)) [
  | inl lt ↦ (val ∷ [], groups-last (suc left) val (ground arith), omega arith)
  | inr ge ↦
      let (bs, e, n) = groups-total left (val / 128) (omega (arith, pow-suc 128 (suc left))) in
      (
        (val % 128 + 128) ∷ bs,
        groups-more (suc left) val bs (leb→le 128 val (ground arith)) e,
        omega arith,
      )
]

ok-injective : {A : Type 0} {x y : A} → ok x ≡ ok y → x ≡ y
ok-injective p = cc

groups-inv :
    (left val : ℕ) (bs : List ℕ)
    → 128 ≤ val
    → groups (suc left) val ≡ ok bs
    → (cs : List ℕ) × (bs ≡ (val % 128 + 128) ∷ cs)
      × (groups left (val / 128) ≡ ok cs)
      × (128 ≤ val)
unfolding groups
groups-inv left val bs h e = go (groups left (val / 128)) refl
  where
    go :
        (r : Run (List ℕ))
        → groups left (val / 128) ≡ r
        → (cs : List ℕ) × (bs ≡ (val % 128 + 128) ∷ cs)
          × (groups left (val / 128) ≡ ok cs)
          × (128 ≤ val)
    go (ok cs) q = (cs, ok-injective (sym e ∙ groups-more left val cs h q), q, h)
    go (fault x) q = absurd (ground arith)

groups-zero : (val : ℕ) (bs : List ℕ) → groups 0 val ≢ ok bs
unfolding groups
groups-zero val bs e = cc

-- Reading the groups of `val` where they stand adds `val << offset` and stops behind them.
module _ (b : List ℕ) (capacity : ℕ) (top : capacity + 1 < 2 ^ 64) where
  abbrev pub reader : ℕ → Parcel
  reader size = record { size = size; capacity = capacity; ptr = some b; error = false }

  read_byte :
      (size x : ℕ) (bs : List ℕ)
      → StandsAt b size (x ∷ bs)
      → size ≤ capacity
      → read_uchar (reader size) ≡ ok (x, reader (size + 1))
  read_byte size x bs at fits =
      read_uchar-byte (reader size) b x refl (ap (get_elem? b) (omega arith) ∙ at 0 (omega arith))
        fits top

  StandsAt-tail : (size x : ℕ) (bs : List ℕ) → StandsAt b size (x ∷ bs) → StandsAt b (size + 1) bs
  StandsAt-tail size x bs at i h = ap (get_elem? b) (omega arith) ∙ at (suc i) (omega arith)

  read_last :
      (fuel size val acc offset : ℕ)
      → val < 128
      → StandsAt b size (val ∷ [])
      → size ≤ capacity
      → acc < 2 ^ offset
      → offset < 64
      → val * 2 ^ offset < 2 ^ 64
      → read_loop (suc fuel) (reader size) acc offset
        ≡ ok (acc + val * 2 ^ offset, reader (size + 1))
  unfolding read_loop
  read_last fuel size val acc offset lt at fits a o v =
      rw (read_byte size val [] at fits)
        (ground (arith, top_bit val, bit_or_disjoint offset val acc a, mod-eq_of_lt v))

  read_more :
      (fuel size low acc offset : ℕ) (bs : List ℕ)
      → low < 128
      → StandsAt b size ((low + 128) ∷ bs)
      → size ≤ capacity
      → acc < 2 ^ offset
      → offset < 64
      → low * 2 ^ offset < 2 ^ 64
      → read_loop (suc fuel) (reader size) acc offset
        ≡ read_loop fuel (reader (size + 1)) (acc + low * 2 ^ offset) (offset + 7)
  unfolding read_loop
  read_more fuel size low acc offset bs lt at fits a o v = rw (
    read_byte size (low + 128) bs at fits,
    low_bits,
    lt→ltb offset 64 o,
    goes_on,
    mod-eq_of_lt v,
    bit_or_disjoint offset low acc a,
  )
    where
      goes_on : (bit_and (low + 128) 0x80 == 0) ≡ false
      goes_on = ground (arith, top_bit (low + 128))

      low_bits : bit_and (low + 128) 0x7f ≡ low
      low_bits = omega (arith, bit_and_mask 7 (low + 128))

  pub read_groups :
      (left fuel size val acc offset : ℕ) (bs : List ℕ)
      → groups left val ≡ ok bs
      → left ≤ fuel
      → StandsAt b size bs
      → size + length bs ≤ capacity
      → acc < 2 ^ offset
      → offset < 64
      → val * 2 ^ offset < 2 ^ 64
      → read_loop fuel (reader size) acc offset
        ≡ ok (acc + val * 2 ^ offset, reader (size + length bs))
  read_groups zero fuel size val acc offset bs e f at fits a o v = absurd (groups-zero val bs e)
  read_groups (suc left) zero size val acc offset bs e f at fits a o v = absurd (omega arith)
  read_groups (suc left) (suc fuel) size val acc offset bs e f at fits a o v =
      elim (Bool-cases (ltb val 128)) [
        | inl lt ↦
            let is : bs ≡ val ∷ [] = ok-injective (sym e ∙ groups-last left val (ground arith)) in
            read_last fuel size val acc offset (ground arith) (subst (StandsAt b size) is at)
              (omega (arith, ap length is)) a o v
            ∙ ap (λ (n : ℕ). ok (acc + val * 2 ^ offset, reader (size + n))) (sym (ap length is))
        | inr ge ↦
            let (cs, is, e', le) = groups-inv left val bs (ground arith) e in
            let here : StandsAt b size ((val % 128 + 128) ∷ cs) = subst (StandsAt b size) is at in
            let all = split-mul val (2 ^ offset) in
            let next : val / 128 * 2 ^ (offset + 7) < 2 ^ 64 = omega (arith, carry val offset) in
            let low : val % 128 ≤ 127 = omega arith in
            let within : acc + val % 128 * 2 ^ offset < 2 ^ (offset + 7) =
              omega (arith, pow-add-seven offset, mul-le-mul_right (2 ^ offset) low) in
            read_more fuel size (val % 128) acc offset cs (omega arith) here
              (omega (arith, ap length is)) a o (omega arith)
            ∙ read_groups left fuel (size + 1) (val / 128) (acc + val % 128 * 2 ^ offset)
                (offset + 7) cs e' (omega arith) (StandsAt-tail size (val % 128 + 128) cs here)
                (omega (arith, ap length is)) within
                (next_offset (val / 128) (offset + 7) (omega arith) next) next
            ∙ ap₂ (λ (x n : ℕ). ok (x, reader n)) (omega (arith, carry val offset))
                (omega (arith, ap length is))
      ]
