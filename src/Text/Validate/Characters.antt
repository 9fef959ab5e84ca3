-- ===== src/Text/Validate/Characters.antt =====
-- Validation of a string of characters, and of any bytes.
use fbbs.Common.{
  ◌||◌, ◌^◌, ◌-◌, length-drop, ℕ, zero, suc, ◌+◌, ◌≤◌, ◌<◌, ◌≡◌, refl, Bool, true, ◌&&◌, Option,
  none, some, List, [], ◌∷◌, arith, ◌==◌, if◌then◌else◌, length, drop, inl, inr, Bool-cases,
}
use fbbs.Common.Run.{Run, ok}
use fbbs.Text.{is_cont, starts_two, Next, at_end, invalid, wide, next_wchar, no_limit}
use fbbs.Text.Utf8.{next_wchar-bounds}
use fbbs.Text.CheckTail.{encode_all}
use fbbs.Text.Width.{Width, control, columns}
use fbbs.Text.Width.Columns.{width_of, fb_wcwidth_lem}
use fbbs.Text.Validate.{
  round, Limits, add_width, is_allowed, finish, validate_loop, validate_width_and_length,
}

unfoldable pub all_allowed : Limits → List ℕ → Bool
all_allowed l [] = true
all_allowed l (c ∷ cs) = is_allowed l c (width_of c) && all_allowed l cs

unfoldable pub total_width : (width : ℕ) → List ℕ → ℕ
total_width width [] = width
total_width width (c ∷ cs) = total_width (add_width width (width_of c)) cs

abbrev pub verdict : Limits → List ℕ → (size width : ℕ) → Option ℕ
verdict l ws size width =
    if all_allowed l ws
    then finish l (size + length (encode_all ws)) (total_width width ws)
    else none

abbrev judged : Limits → List ℕ → (width size : ℕ) → Run (Option ℕ)
judged l ws width size = ok (if all_allowed l ws then finish l size width else none)

-- What may stand in a string: characters that take columns, ESC where it is allowed, and where a width of
-- zero is allowed, characters of this width and the newline.
abbrev pub stands : Limits → ℕ → Width → Bool
stands l c control = (l.allow_esc && c == 27) || (l.allow_zero_width && c == 10)
stands l c (columns zero) = l.allow_zero_width || (l.allow_esc && c == 27)
stands l c (columns (suc n)) = true

abbrev pub may_stand : Limits → List ℕ → Bool
may_stand l [] = true
may_stand l (c ∷ cs) = stands l c (width_of c) && may_stand l cs

-- The sum of the widths, in which a control character counts as -1 in 64 bits.
abbrev pub counted : Width → ℕ
counted control = 2 ^ 64 - 1
counted (columns n) = n

abbrev pub sum_width : List ℕ → ℕ
sum_width [] = 0
sum_width (c ∷ cs) = counted (width_of c) + sum_width cs

round-total :
    (l : Limits) (size width : ℕ) (further : ℕ → Width → Run (Option ℕ)) (n : Next)
    → ((wc incr : ℕ) (w : Width) → n ≡ wide wc incr → (r : Option ℕ) × (further incr w ≡ ok r))
    → (r : Option ℕ) × (round l size width further n ≡ ok r)
unfolding round
round-total l size width further invalid next = (none, refl)
round-total l size width further at_end next = (finish l size width, refl)
round-total l size width further (wide wc incr) next = elim (Bool-cases (wc == 0)) [
  | inl nul ↦ (finish l (size + incr) width, rw nul refl)
  | inr char ↦ elim (Bool-cases (is_allowed l wc (width_of wc))) [
    | inl good ↦
        let (r, run) = next wc incr (width_of wc) refl in
        (r, rw (char, fb_wcwidth_lem wc, good) run)
    | inr bad ↦ (none, rw (char, fb_wcwidth_lem wc, bad) refl)
  ]
]

validate_loop-total :
    (fuel : ℕ) (l : Limits) (s : List ℕ) (size width : ℕ)
    → length s < fuel
    → (r : Option ℕ) × (validate_loop fuel l s size width ≡ ok r)
unfolding validate_loop
validate_loop-total zero l s size width f = absurd (omega arith)
validate_loop-total (suc fuel) l s size width f =
    round-total l size width
      (λ incr w. validate_loop fuel l (drop incr s) (size + incr) (add_width width w))
      (next_wchar s no_limit)
      (λ wc incr w e.
        validate_loop-total fuel l (drop incr s) (size + incr) (add_width width w)
          (omega (arith, length-drop incr s, next_wchar-bounds s no_limit wc incr e)))

-- On any string of bytes the validation ends without a read behind the NUL.
pub validate_total :
    (s : List ℕ) (l : Limits) → (r : Option ℕ) × (validate_width_and_length s l ≡ ok r)
unfolding validate_width_and_length
validate_total s l = validate_loop-total (length s + 1) l s 0 0 (omega arith)

-- An overlong NUL ends the validation, and whatever stands behind it is accepted.
pub overlong_accepted :
    (rest : List ℕ) (l : Limits)
    → 2 ≤ l.max_length
    → validate_width_and_length (0xc0 ∷ 0x80 ∷ rest) l ≡ ok (some 2)
unfolding validate_width_and_length validate_loop round next_wchar starts_two is_cont finish
overlong_accepted rest l h = ground arith
