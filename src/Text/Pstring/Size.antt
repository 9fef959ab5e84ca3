-- ===== src/Text/Pstring/Size.antt =====
-- `pstring_round_size`: where it ends, and where it does not.
use fbbs.Common.{
  ℕ, zero, suc, ◌*◌, ◌%◌, ◌^◌, ◌≤◌, ◌<◌, ◌≡◌, refl, ap, ◌∙◌, true, false, arith, leb, ◌==◌, inl,
  inr, Bool-cases,
}
use fbbs.Common.Run.{Run, ok, fault, endless}
use fbbs.Text.Pstring.{uint_max, round_loop, pstring_round_size}

-- The number after some doublings.
unfoldable doubled : (rounds s : ℕ) → ℕ
doubled zero s = s
doubled (suc rounds) s = doubled rounds (s * 2)

-- A size that is larger than the one asked for.
abbrev Ends : Run ℕ → ℕ → Type 0
Ends m size = (r : ℕ) × (m ≡ ok r) × (size < r)

round_loop-next :
    (fuel s size : ℕ)
    → leb s size ≡ true
    → round_loop (suc fuel) s size ≡ round_loop fuel (s * 2 % 2 ^ 32) size
unfolding round_loop
round_loop-next fuel s size under = rw (round_loop, under) refl

round_loop-Ends :
    (rounds s size : ℕ)
    → size < doubled rounds s
    → size < 2 ^ 31
    → Ends (round_loop (suc rounds) s size) size
unfolding round_loop doubled
round_loop-Ends zero s size h small =
    let over : leb s size ≡ false = ground (arith, h) in (s, rw (round_loop, over) refl, h)
round_loop-Ends (suc rounds) s size h small = elim (Bool-cases (leb s size)) [
  | inr over ↦ (s, rw (round_loop, over) refl, ground (arith, over))
  | inl under ↦
      let within : s ≤ size = ground (arith, under) in
      let doubling : s * 2 % 2 ^ 32 ≡ s * 2 = omega (arith, within, small) in
      let (r, run, larger) = round_loop-Ends rounds (s * 2) size h small in
      (
        r,
        round_loop-next (suc rounds) s size under
            ∙ (ap (λ n. round_loop (suc rounds) n size) doubling ∙ run),
        larger,
      )
]

round_loop-zero : (fuel size : ℕ) → round_loop fuel 0 size ≡ fault endless
unfolding round_loop
round_loop-zero zero size = refl
round_loop-zero (suc fuel) size =
    let under : leb 0 size ≡ true = ground arith in
    rw (round_loop, under) (round_loop-zero fuel size)

doubled-le : (rounds s : ℕ) → s ≤ doubled rounds s
unfolding doubled
doubled-le zero s = omega arith
doubled-le (suc rounds) s = omega (arith, doubled-le rounds (s * 2))

round_loop-endless :
    (fuel rounds s size : ℕ)
    → doubled rounds s ≡ 2 ^ 31
    → 2 ^ 31 ≤ size
    → round_loop fuel s size ≡ fault endless
unfolding round_loop doubled
round_loop-endless zero rounds s size e h = refl
round_loop-endless (suc fuel) zero s size e h =
    let under : leb s size ≡ true = ground (arith, e, h) in
    let wraps : s * 2 % 2 ^ 32 ≡ 0 = omega (arith, e) in
    rw (round_loop, under, wraps) (round_loop-zero fuel size)
round_loop-endless (suc fuel) (suc rounds) s size e h =
    let bound : s * 2 ≤ 2 ^ 31 = omega (arith, doubled-le rounds (s * 2), e) in
    let under : leb s size ≡ true = ground (arith, bound, h) in
    let doubling : s * 2 % 2 ^ 32 ≡ s * 2 = omega (arith, bound) in
    rw (round_loop, under, doubling) (round_loop-endless fuel rounds (s * 2) size e h)

pub round_size-Ends :
    (size : ℕ) → size < 2 ^ 31 → (r : ℕ) × (pstring_round_size size ≡ ok r) × (size < r)
unfolding pstring_round_size doubled
round_size-Ends size h =
    let other : (size == uint_max) ≡ false = ground (arith, h) in
    let (r, run, larger) = round_loop-Ends 29 8 size (omega (arith, h)) h in
    (r, rw other run, larger)

-- Below 2^31 the rounded size is larger than the one asked for; from there on, but for the largest
-- number, the loop does not end.
pub round_size_lem :
    (small large : ℕ)
    → small < 2 ^ 31
    → 2 ^ 31 ≤ large
    → large < uint_max
    → ((r : ℕ) × (pstring_round_size small ≡ ok r) × (small < r))
      × (pstring_round_size large ≡ fault endless)
unfolding pstring_round_size doubled
round_size_lem small large h low high =
    let other : (large == uint_max) ≡ false = ground (arith, high) in
    (round_size-Ends small h, rw other (round_loop-endless 30 28 8 large refl low))
