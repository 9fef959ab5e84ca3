-- ===== src/Text/Gbk/Repair.antt =====
-- What `valid_gbk` leaves, and where `check_gbk` cuts.
use fbbs.Common.{
  ◌||◌, ◌==◌, ℕ, zero, suc, ◌+◌, ◌%◌, ◌^◌, ◌<◌, ◌≡◌, refl, sym, ap, ◌∙◌, Bool, true, false, not,
  ◌&&◌, List, [], ◌∷◌, arith, leb, length, take, inl, inr, Bool-cases,
}
use fbbs.Text.Gbk.{
  is_bad_first, is_bad_second, Repaired, put_before, first_byte, gbk_first, gbk_second, valid_gbk,
  check_loop, check_gbk,
}

-- Whether a string is made of single bytes below 128 and of pairs, a first byte other than 80 and FF and
-- a second from 40 on other than 7F. A string in GBK is; so is 81 FF, which GBK does not have.
unfoldable pub is_paired : (second : Bool) → List ℕ → Bool
is_paired false [] = true
is_paired true [] = false
is_paired false (c ∷ s) = elim (leb 0x80 c) [
  | true ↦ not (c == 0x80 || c == 0xff) && is_paired true s
  | false ↦ is_paired false s
]
is_paired true (c ∷ s) = (leb 0x40 c && not (c == 0x7f)) && is_paired false s

good_second : (c : ℕ) → (leb 0x40 c && not (c == 0x7f)) ≡ not (is_bad_second c)
good_second c = ground arith

gbk-nil : is_paired false [] ≡ true
unfolding is_paired
gbk-nil = refl

gbk-single : (c : ℕ) (s : List ℕ) → leb 0x80 c ≡ false → is_paired false (c ∷ s) ≡ is_paired false s
unfolding is_paired
gbk-single c s h = rw (is_paired, h) refl

gbk-pair :
    (lead c : ℕ) (s : List ℕ)
    → leb 0x80 lead ≡ true
    → is_bad_first lead ≡ false
    → is_bad_second c ≡ false
    → is_paired false (lead ∷ c ∷ s) ≡ is_paired false s
unfolding is_paired
gbk-pair lead c s high good second =
    let trail : (leb 0x40 c && not (c == 0x7f)) ≡ true = good_second c ∙ ap not second in
    rw (is_paired, high, good, trail) refl

module _ (replace : ℕ) (ascii : replace < 128) where
  -- What the functions of both states owe: a string of pairs of the same length.
  record Fixes (s : List ℕ) (r : Repaired) : Type 0 where
    gbk : is_paired false r.str ≡ true
    size : length r.str ≡ length s

  Fixes-replaced :
      (s : List ℕ) (c n : ℕ) (r : Repaired)
      → Fixes s r
      → Fixes (c ∷ s) (record { str = replace % 2 ^ 8 ∷ r.str; count = n })
  Fixes-replaced s c n r f =
      let single : leb 0x80 (replace % 2 ^ 8) ≡ false = ground arith in
      record { gbk = gbk-single (replace % 2 ^ 8) r.str single ∙ f.gbk; size = ap suc f.size }

  Fixes-first :
      (s : List ℕ) (c : ℕ) (plain lead : Repaired)
      → Fixes s plain
      → (leb 0x80 c ≡ true → is_bad_first c ≡ false → Fixes (c ∷ s) lead)
      → Fixes (c ∷ s) (first_byte replace c plain lead)
  Fixes-first s c plain lead p l = elim (Bool-cases (is_bad_first c)) [
    | inl bad ↦ rw (first_byte, bad) (Fixes-replaced s c plain.count plain p)
    | inr good ↦ elim (Bool-cases (leb 0x80 c)) [
      | inl high ↦ rw (first_byte, good, high) (l high good)
      | inr low ↦
          rw (first_byte, good, low)
            (record { gbk = gbk-single c plain.str low ∙ p.gbk; size = ap suc p.size })
    ]
  ]

  Fixes-pair :
      (s : List ℕ) (lead c : ℕ) (r : Repaired)
      → leb 0x80 lead ≡ true
      → is_bad_first lead ≡ false
      → is_bad_second c ≡ false
      → Fixes s r
      → Fixes (lead ∷ c ∷ s) (put_before lead (put_before c r))
  Fixes-pair s lead c r high good second f = record {
    gbk = gbk-pair lead c r.str high good second ∙ f.gbk;
    size = ap (λ n. suc (suc n)) f.size;
  }

  mutual
    unfolding gbk_first

    gbk_first-Fixes : (s : List ℕ) → Fixes s (gbk_first replace s)
    gbk_first-Fixes [] = record { gbk = gbk-nil; size = refl }
    gbk_first-Fixes (c ∷ s) =
        Fixes-first s c (gbk_first replace s) (gbk_second replace c s) (gbk_first-Fixes s)
          (λ high good. gbk_second-Fixes c s high good)

    gbk_second-Fixes :
        (lead : ℕ) (s : List ℕ)
        → leb 0x80 lead ≡ true
        → is_bad_first lead ≡ false
        → Fixes (lead ∷ s) (gbk_second replace lead s)
    gbk_second-Fixes lead [] high good =
        Fixes-replaced [] lead 0 (record { str = []; count = 0 })
          (record { gbk = gbk-nil; size = refl })
    gbk_second-Fixes lead (c ∷ s) high good = elim (Bool-cases (is_bad_second c)) [
      | inl bad ↦
          let again = first_byte replace c (gbk_first replace s) (gbk_second replace c s) in
          rw (gbk_second, bad)
            (Fixes-replaced (c ∷ s) lead (again.count + 1) again (
              Fixes-first s c (gbk_first replace s) (gbk_second replace c s) (gbk_first-Fixes s)
                (λ h g. gbk_second-Fixes c s h g)))
      | inr second ↦
          rw (gbk_second, second)
            (Fixes-pair s lead c (gbk_first replace s) high good second (gbk_first-Fixes s))
    ]

  -- With an ASCII character to put in the place of bad bytes any string becomes one of the same length
  -- made of single bytes below 128 and of pairs, a first byte other than 80 and FF and a second from 40
  -- on other than 7F.
  pub valid_gbk_lem :
      (s : List ℕ)
      → (is_paired false (valid_gbk s replace).str ≡ true)
        × (length (valid_gbk s replace).str ≡ length s)
  unfolding valid_gbk
  valid_gbk_lem s = let f = gbk_first-Fixes s in (f.gbk, f.size)

-- A pair in front of a string.
record Pair (c d : ℕ) (s : List ℕ) : Type 0 where
  good : is_bad_first c ≡ false
  second : is_bad_second d ≡ false
  rest : is_paired false s ≡ true

gbk-high :
    (c d : ℕ) (s : List ℕ)
    → leb 0x80 c ≡ true
    → is_paired false (c ∷ d ∷ s)
      ≡ (not (is_bad_first c) && (not (is_bad_second d) && is_paired false s))
unfolding is_paired
gbk-high c d s high =
    rw (is_paired, high)
      (ap (λ b. not (is_bad_first c) && (b && is_paired false s)) (good_second d))

Pair-of :
    (c d : ℕ) (s : List ℕ) → leb 0x80 c ≡ true → is_paired false (c ∷ d ∷ s) ≡ true → Pair c d s
Pair-of c d s high h =
    let both : (not (is_bad_first c) && (not (is_bad_second d) && is_paired false s)) ≡ true =
      sym (gbk-high c d s high) ∙ h in
    record {
      good = ground (arith, both);
      second = ground (arith, both);
      rest = ground (arith, both);
    }

half-bad : (c : ℕ) → leb 0x80 c ≡ true → is_paired false (c ∷ []) ≡ false
unfolding is_paired
half-bad c high = elim (Bool-cases (is_bad_first c)) [
  | inl bad ↦ rw (is_paired, high, bad) refl
  | inr good ↦ rw (is_paired, high, good) refl
]

module _ (replace c : ℕ) (plain lead : Repaired) where
  first_byte-single : leb 0x80 c ≡ false → first_byte replace c plain lead ≡ put_before c plain
  first_byte-single low =
      let good : is_bad_first c ≡ false = ground (arith, low) in rw (first_byte, good, low) refl

  first_byte-lead :
      leb 0x80 c ≡ true → is_bad_first c ≡ false → first_byte replace c plain lead ≡ lead
  first_byte-lead high good = rw (first_byte, good, high) refl

first-single :
    (replace c : ℕ) (s : List ℕ)
    → leb 0x80 c ≡ false
    → gbk_first replace (c ∷ s) ≡ put_before c (gbk_first replace s)
unfolding gbk_first
first-single replace c s low =
    first_byte-single replace c (gbk_first replace s) (gbk_second replace c s) low

first-pair :
    (replace c d : ℕ) (s : List ℕ)
    → leb 0x80 c ≡ true
    → is_bad_first c ≡ false
    → is_bad_second d ≡ false
    → gbk_first replace (c ∷ d ∷ s) ≡ put_before c (put_before d (gbk_first replace s))
unfolding gbk_first
first-pair replace c d s high good second =
    first_byte-lead replace c (gbk_first replace (d ∷ s)) (gbk_second replace c (d ∷ s)) high good
    ∙ rw (gbk_second, second) refl

-- A string of single bytes and pairs is left as it is.
pub valid_gbk-keeps :
    (s : List ℕ) (replace : ℕ)
    → is_paired false s ≡ true
    → valid_gbk s replace ≡ record { str = s; count = 0 }
unfolding valid_gbk
valid_gbk-keeps [] replace h = unfold gbk_first in refl
valid_gbk-keeps (c ∷ []) replace h = elim (Bool-cases (leb 0x80 c)) [
  | inl high ↦ absurd (ground (arith, half-bad c high, h))
  | inr low ↦ first-single replace c [] low ∙ ap (put_before c) (valid_gbk-keeps [] replace gbk-nil)
]
valid_gbk-keeps (c ∷ d ∷ s) replace h = elim (Bool-cases (leb 0x80 c)) [
  | inl high ↦
      let p = Pair-of c d s high h in
      first-pair replace c d s high p.good p.second
      ∙ ap (λ r. put_before c (put_before d r)) (valid_gbk-keeps s replace p.rest)
  | inr low ↦
      first-single replace c (d ∷ s) low
      ∙ ap (put_before c) (valid_gbk-keeps (d ∷ s) replace (sym (gbk-single c (d ∷ s) low) ∙ h))
]

-- Where the loop stops: at the end, or in front of half a character.
record Stops (at : ℕ) (s : List ℕ) : Type 0 where
  kept : ℕ
  place : check_loop false at s ≡ at + kept
  gbk : is_paired false (take kept s) ≡ true

check_loop-Stops : (n at : ℕ) (s : List ℕ) → is_paired false s ≡ true → Stops at (take n s)
unfolding check_loop
check_loop-Stops zero at s h = record { kept = 0; place = omega arith; gbk = gbk-nil }
check_loop-Stops (suc n) at [] h = record { kept = 0; place = omega arith; gbk = gbk-nil }
check_loop-Stops (suc n) at (c ∷ []) h = elim (Bool-cases (leb 0x80 c)) [
  | inl high ↦ absurd (ground (arith, half-bad c high, h))
  | inr low ↦
      let rest = check_loop-Stops n (at + 1) [] gbk-nil in
      record {
        kept = suc rest.kept;
        place = rw (check_loop, low) (rest.place ∙ omega arith);
        gbk = gbk-single c (take rest.kept (take n [])) low ∙ rest.gbk;
      }
]
check_loop-Stops (suc zero) at (c ∷ d ∷ s) h = elim (Bool-cases (leb 0x80 c)) [
  | inl high ↦ record { kept = 0; place = rw (check_loop, high) (omega arith); gbk = gbk-nil }
  | inr low ↦ record {
    kept = 1;
    place = rw (check_loop, low) refl;
    gbk = gbk-single c [] low ∙ gbk-nil;
  }
]
check_loop-Stops (suc (suc n)) at (c ∷ d ∷ s) h = elim (Bool-cases (leb 0x80 c)) [
  | inl high ↦
      let p = Pair-of c d s high h in
      let rest = check_loop-Stops n (at + 1 + 1) s p.rest in
      record {
        kept = suc (suc rest.kept);
        place = rw (check_loop, high) (rest.place ∙ omega arith);
        gbk = gbk-pair c d (take rest.kept (take n s)) high p.good p.second ∙ rest.gbk;
      }
  | inr low ↦
      let rest = check_loop-Stops (suc n) (at + 1) (d ∷ s) (sym (gbk-single c (d ∷ s) low) ∙ h) in
      record {
        kept = suc rest.kept;
        place = rw (check_loop, low) (rest.place ∙ omega arith);
        gbk = gbk-single c (take rest.kept (take (suc n) (d ∷ s))) low ∙ rest.gbk;
      }
]

-- Wherever a string of single bytes below 128 and pairs, among them any in GBK, is cut off, what stands
-- before the place that `check_gbk` gives is such a string.
pub check_gbk_lem :
    (n : ℕ) (s : List ℕ)
    → is_paired false s ≡ true
    → is_paired false (take (check_gbk (take n s)) (take n s)) ≡ true
unfolding check_gbk
check_gbk_lem n s h =
    let stops = check_loop-Stops n 0 s h in
    let kept : check_loop false 0 (take n s) ≡ stops.kept = omega (arith, stops.place) in
    ap (λ k. is_paired false (take k (take n s))) kept ∙ stops.gbk
