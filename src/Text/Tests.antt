-- ===== src/Text/Tests.antt =====
-- Runs of the functions on strings, and the theorems at concrete strings.
use fbbs.Common.{ℕ, ◌<◌, ◌≡◌, refl, true, false, List, [], ◌∷◌, arith, length}
use fbbs.Common.Run.{ok}
use fbbs.Text.{
  at_end, invalid, wide, next_wchar, is_cont, string_cp, strlcpy, check_tail, tail_loop,
}
use fbbs.Text.Utf8.{encode, IsChar, next_wchar-encode}
use fbbs.Text.CheckTail.{encode_all}
use fbbs.Text.Copy.{fitting, string_cp_lem}
use fbbs.Text.Width.{Interval, range, bisearch}
use fbbs.Text.Width.Search.{covers, sorted_from, bisearch_lem}
use fbbs.Text.Filter.{escape_loop, remove_ansi_control_code, remove_non_printable}
use fbbs.Text.Filter.Printable.{kept, remove_non_printable_lem}
use fbbs.Text.Validate.{Limits}

-- Two characters of three bytes each.
abbrev zhong_wen : List ℕ
zhong_wen = 0x4e2d ∷ 0x6587 ∷ []

zhong-IsChar : IsChar 0x4e2d
zhong-IsChar = record { positive = omega arith; bounded = omega arith }

wen-IsChar : IsChar 0x6587
wen-IsChar = record { positive = omega arith; bounded = omega arith }

encodes : encode 0x4e2d ≡ 228 ∷ 184 ∷ 173 ∷ []
unfolding encode
encodes = refl

decodes :
    (next_wchar (228 ∷ 184 ∷ 173 ∷ []) 9 ≡ wide 0x4e2d 3)
    × (next_wchar (228 ∷ 184 ∷ 173 ∷ []) 2 ≡ invalid)
    × (next_wchar (228 ∷ 65 ∷ []) 9 ≡ invalid)
    × (next_wchar [] 9 ≡ at_end)
unfolding next_wchar
decodes = (refl, refl, refl, refl)

cuts : string_cp (228 ∷ 184 ∷ 173 ∷ 230 ∷ 150 ∷ 135 ∷ []) 6 ≡ (228 ∷ 184 ∷ 173 ∷ [], 4)
unfolding string_cp strlcpy check_tail tail_loop is_cont next_wchar
cuts = refl

next_wchar-encode_example : next_wchar (228 ∷ 184 ∷ 173 ∷ 65 ∷ []) 4 ≡ wide 0x4e2d 3
unfolding encode
next_wchar-encode_example = next_wchar-encode 0x4e2d 4 (65 ∷ []) zhong-IsChar (omega arith)

decoded : next_wchar (228 ∷ 184 ∷ 173 ∷ []) 9 ≡ wide 0x4e2d 3
unfolding next_wchar
decoded = refl

string_cp_lem_example : (string_cp (encode_all zhong_wen) 6).0 ≡ encode_all (fitting 5 zhong_wen)
string_cp_lem_example = string_cp_lem zhong_wen 6 (zhong-IsChar, (wen-IsChar, tt)) (omega arith)

abbrev two_intervals : List Interval
two_intervals = range 3 5 ∷ range 8 8 ∷ []

two_intervals_sorted : sorted_from 0 two_intervals ≡ true
unfolding sorted_from
two_intervals_sorted = refl

bisearch_lem_example : bisearch 8 two_intervals 1 ≡ ok (covers 8 two_intervals)
bisearch_lem_example = bisearch_lem 8 1 two_intervals two_intervals_sorted refl

abbrev limits : Limits
limits = record { max_length = 8; max_width = 4; allow_zero_width = false; allow_esc = false }

escapes_run : remove_ansi_control_code (27 ∷ 91 ∷ 109 ∷ 65 ∷ []) ≡ 65 ∷ []
unfolding remove_ansi_control_code escape_loop
escapes_run = refl

bell-IsChar : IsChar 7
bell-IsChar = record { positive = omega arith; bounded = omega arith }

a-IsChar : IsChar 65
a-IsChar = record { positive = omega arith; bounded = omega arith }

size_one : (c : ℕ) → c < 0x80 → length (encode c) ≡ 1
unfolding encode
size_one c h = ground arith

remove_non_printable_lem_example :
    remove_non_printable (encode_all (7 ∷ 65 ∷ [])) ≡ ok (encode_all (kept (7 ∷ 65 ∷ [])))
remove_non_printable_lem_example =
    remove_non_printable_lem 1 (7 ∷ 65 ∷ [])
      ((bell-IsChar, size_one 7 (omega arith)), ((a-IsChar, size_one 65 (omega arith)), tt))
