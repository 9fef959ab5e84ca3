-- ===== src/Text/Runs.antt =====
-- Runs of the functions on strings in GBK, on blanks and URLs and of `pstring`, and the theorems at
-- concrete strings.
use fbbs.Common.{ℕ, ◌^◌, ◌<◌, ◌≡◌, refl, true, false, List, [], ◌∷◌, arith, length, take, replicate}
use fbbs.Common.Memory.{copy_in}
use fbbs.Common.Run.{ok, fault, bad_access, endless, ◌>>=◌}
use fbbs.Text.Gbk.{valid_gbk, gbk_first, check_gbk}
use fbbs.Text.Gbk.Repair.{is_paired, valid_gbk_lem, check_gbk_lem}
use fbbs.Text.Case.{to_lower, casecmp, search_loop, strcasestr_gbk}
use fbbs.Text.Trim.{
  rtrim, right_loop, trim, skip_left, ellipsis, walk, ahead, put_dots, read_at, strtourl, url_char,
}
use fbbs.Text.Trim.Blanks.{rtrim_lem}
use fbbs.Text.Pstring.{
  Pstring, pstring_round_size, pstring_append_string, pstring_append_printf, pstring,
}
use fbbs.Text.Pstring.Append.{IsPstring, Appends, append_string_lem, append_string_overflows}
use fbbs.Text.Pstring.Size.{round_size_lem}
use fbbs.Text.Pstring.Printf.{Prints, append_printf_lem}

-- A first byte before a newline is replaced, and the newline stays.
repairs :
    valid_gbk (0xb0 ∷ 0xa1 ∷ 0xb0 ∷ 10 ∷ 0x80 ∷ 65 ∷ 0xb0 ∷ []) 63
    ≡ record { str = 0xb0 ∷ 0xa1 ∷ 63 ∷ 10 ∷ 63 ∷ 65 ∷ 63 ∷ []; count = 1 }
unfolding valid_gbk gbk_first
repairs = refl

valid_gbk_lem_example :
    (is_paired false (valid_gbk (0xb0 ∷ 10 ∷ []) 63).str ≡ true)
    × (length (valid_gbk (0xb0 ∷ 10 ∷ []) 63).str ≡ 2)
valid_gbk_lem_example = valid_gbk_lem 63 (omega arith) (0xb0 ∷ 10 ∷ [])

abbrev gbk_text : List ℕ
gbk_text = 65 ∷ 0xb0 ∷ 0xa1 ∷ 66 ∷ []

gbk_text-is_paired : is_paired false gbk_text ≡ true
unfolding is_paired
gbk_text-is_paired = refl

check_gbk_lem_example : is_paired false (take (check_gbk (65 ∷ 0xb0 ∷ [])) (65 ∷ 0xb0 ∷ [])) ≡ true
check_gbk_lem_example = check_gbk_lem 2 gbk_text gbk_text-is_paired

-- Half a character at the end of both strings.
reads_behind : strcasestr_gbk (65 ∷ 0xb0 ∷ []) (0xb0 ∷ []) ≡ fault bad_access
unfolding strcasestr_gbk search_loop casecmp to_lower
reads_behind = refl

rtrim_lem_example :
    (rtrim (65 ∷ 32 ∷ 66 ∷ 32 ∷ 10 ∷ []) ≡ ok (65 ∷ 32 ∷ 66 ∷ []))
    × (rtrim (32 ∷ 10 ∷ []) ≡ fault bad_access)
rtrim_lem_example =
    rtrim_lem (65 ∷ 32 ∷ []) (32 ∷ 10 ∷ []) 66 (ground arith) (ground arith, (ground arith, tt))

trims : trim (32 ∷ 9 ∷ 65 ∷ 32 ∷ 66 ∷ 10 ∷ []) ≡ ok (65 ∷ 32 ∷ 66 ∷ [])
unfolding trim rtrim right_loop skip_left
trims = refl

-- "abcdef" cut to five columns, and a short string, behind whose NUL the second loop reads.
cuts :
    (ellipsis (97 ∷ 98 ∷ 99 ∷ 100 ∷ 101 ∷ 102 ∷ 0 ∷ []) 5
      ≡ ok (97 ∷ 98 ∷ 99 ∷ 46 ∷ 46 ∷ 0 ∷ 0 ∷ []))
    × (ellipsis (97 ∷ 0 ∷ []) 5 ≡ fault bad_access)
unfolding ellipsis walk ahead put_dots read_at copy_in
cuts = (refl, refl)

-- The first byte of a Chinese character in UTF-8 gives no digits.
bad_url : strtourl (65 ∷ 32 ∷ 228 ∷ []) ≡ 65 ∷ 37 ∷ 50 ∷ 48 ∷ 37 ∷ 47 ∷ 36 ∷ []
unfolding strtourl url_char
bad_url = refl

-- A string of seven bytes, in a block that is full.
abbrev full : Pstring
full = record { str = replicate 8 65; len = 7; size = 8 }

full-IsPstring : IsPstring full
full-IsPstring = record { whole = refl; room = omega arith; small = omega arith }

append_string_lem_example :
    Appends full (66 ∷ 67 ∷ []) (pstring_append_string true full (66 ∷ 67 ∷ []))
append_string_lem_example = append_string_lem full (66 ∷ 67 ∷ []) full-IsPstring (omega arith)

append_string_overflows_example :
    (pstring_append_string true full (replicate 9 66) >>= pstring) ≡ fault bad_access
append_string_overflows_example =
    append_string_overflows full (replicate 9 66) full-IsPstring (omega arith)

append_printf_lem_example :
    Prints full (replicate 9 66) (pstring_append_printf true full (replicate 9 66))
append_printf_lem_example = append_printf_lem full (replicate 9 66) full-IsPstring (omega arith)

round_size_lem_example :
    ((r : ℕ) × (pstring_round_size 100 ≡ ok r) × (100 < r))
    × (pstring_round_size (2 ^ 31) ≡ fault endless)
round_size_lem_example = round_size_lem 100 (2 ^ 31) (omega arith) (omega arith) (omega arith)
