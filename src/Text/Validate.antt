-- ===== src/Text/Validate.antt =====
-- `string_validate_width_and_length` and `string_validate_utf8`.
pub mod Characters
use fbbs.Common.{
  ◌-◌, ℕ, zero, suc, ◌+◌, ◌*◌, ◌%◌, ◌^◌, Bool, true, false, ◌&&◌, ◌||◌, Option, none, some, List,
  [], ◌∷◌, ltb, leb, ◌==◌, if◌then◌else◌, length, drop,
}
use fbbs.Common.Run.{Run, ok, fault, endless, ◌>>=◌}
use fbbs.Text.{Next, at_end, invalid, wide, next_wchar, no_limit}
use fbbs.Text.Width.{Width, control, columns, fb_wcwidth}

-- The bounds and flags of a call.
pub record Limits : Type 0 where
  pub max_length : ℕ
  pub max_width : ℕ
  pub allow_zero_width : Bool
  pub allow_esc : Bool

-- `width += w`, where -1 is converted to `size_t`.
abbrev pub add_width : ℕ → Width → ℕ
add_width width control = (width + (2 ^ 64 - 1)) % 2 ^ 64
add_width width (columns n) = (width + n) % 2 ^ 64

abbrev pub is_positive : Width → Bool
is_positive control = false
is_positive (columns n) = ltb 0 n

abbrev pub is_zero : Width → Bool
is_zero control = false
is_zero (columns n) = n == 0

unfoldable pub is_allowed : Limits → (wc : ℕ) → Width → Bool
is_allowed l wc w =
    is_positive w || (l.allow_esc && wc == 27) || (l.allow_zero_width && (is_zero w || wc == 10))

-- The result at the end of the string; `none` is -1.
unfoldable pub finish : Limits → (size width : ℕ) → Option ℕ
finish l size width = if ltb l.max_length size || ltb l.max_width width then none else some size

-- The body of the loop, `size` bytes behind the start of the string.
unfoldable pub round :
    Limits
    → (size width : ℕ) → (further : (incr : ℕ) → Width → Run (Option ℕ)) → Next
    → Run (Option ℕ)
round l size width further invalid = ok none
round l size width further at_end = ok (finish l size width)
round l size width further (wide wc incr) =
    if wc == 0
    then ok (finish l (size + incr) width)
    else do w ← fb_wcwidth wc; if is_allowed l wc w then further incr w else ok none

pub validate_loop : (fuel : ℕ) → Limits → List ℕ → (size width : ℕ) → Run (Option ℕ)
validate_loop zero l s size width = fault endless
validate_loop (suc fuel) l s size width =
    round l size width
      (λ incr w. validate_loop fuel l (drop incr s) (size + incr) (add_width width w))
      (next_wchar s no_limit)

pub validate_width_and_length : List ℕ → Limits → Run (Option ℕ)
validate_width_and_length s l = validate_loop (length s + 1) l s 0 0

pub validate_utf8 : List ℕ → (max_chinese_chars : ℕ) → Bool → Run (Option ℕ)
validate_utf8 s chars allow = validate_width_and_length s (record {
  max_length = chars * 4 % 2 ^ 64;
  max_width = chars * 2 % 2 ^ 64;
  allow_zero_width = allow;
  allow_esc = allow;
})
