-- ===== src/Text/Filter/Printable.antt =====
-- What `string_remove_non_printable` leaves, and where it copies between overlapping bytes.
use fbbs.Common.{
  ◌-◌, append_assoc, ◌∙◌, length-append, append-nil, sym, take-length-append, ap, ◌⊎◌,
  drop-length-append, ℕ, zero, suc, ◌+◌, ◌≤◌, ◌<◌, ◌≡◌, refl, Bool, true, false, not, ◌&&◌, List,
  [], ◌∷◌, ◌++◌, arith, ltb, ◌==◌, if◌then◌else◌, length, All, Bool-cases, inl, inr,
}
use fbbs.Common.Run.{ok, fault, overlap}
use fbbs.Text.{char_at, wide, next_wchar, no_limit}
use fbbs.Text.Utf8.{encode, IsChar, next_wchar-encode}
use fbbs.Text.CheckTail.{encode_all, encode_size}
use fbbs.Text.Width.Columns.{width_of, fb_wcwidth_lem}
use fbbs.Text.Validate.{is_positive}
use fbbs.Text.Filter.{copy_down, filter_next, filter_loop, remove_non_printable}

abbrev pub is_printable : ℕ → Bool
is_printable c = is_positive (width_of c)

encode-first : (c : ℕ) (s : List ℕ) → IsChar c → (char_at (encode c ++ s) 0 == 0) ≡ false
unfolding encode
encode-first c s v = ground (arith, v.positive)

-- One round over a character.
round_hidden :
    (fuel c : ℕ) (s out : List ℕ) (gap : ℕ)
    → IsChar c
    → is_printable c ≡ false
    → filter_loop (suc fuel) (encode c ++ s) out gap
      ≡ filter_loop fuel s out (gap + length (encode c))
unfolding filter_loop filter_next
round_hidden fuel c s out gap v hidden =
    let read : next_wchar (encode c ++ s) no_limit ≡ wide c (length (encode c)) =
      next_wchar-encode c no_limit s v (omega (arith, encode_size c)) in
    let positive : (c == 0) ≡ false = ground (arith, v.positive) in
    rw
      (
        encode-first c s v,
        read,
        positive,
        fb_wcwidth_lem c,
        hidden,
        drop-length-append (encode c) s,
      )
      refl

round_shown :
    (fuel c : ℕ) (s out written : List ℕ) (gap : ℕ)
    → IsChar c
    → is_printable c ≡ true
    → copy_down (encode c ++ s) out gap (length (encode c)) ≡ ok written
    → filter_loop (suc fuel) (encode c ++ s) out gap ≡ filter_loop fuel s written gap
unfolding filter_loop filter_next
round_shown fuel c s out written gap v shown copied =
    let read : next_wchar (encode c ++ s) no_limit ≡ wide c (length (encode c)) =
      next_wchar-encode c no_limit s v (omega (arith, encode_size c)) in
    let positive : (c == 0) ≡ false = ground (arith, v.positive) in
    rw
      (
        encode-first c s v,
        read,
        positive,
        fb_wcwidth_lem c,
        shown,
        copied,
        drop-length-append (encode c) s,
      )
      refl

round_overlap :
    (fuel c : ℕ) (s out : List ℕ) (gap : ℕ)
    → IsChar c
    → is_printable c ≡ true
    → 0 < gap
    → gap < length (encode c)
    → filter_loop (suc fuel) (encode c ++ s) out gap ≡ fault overlap
unfolding filter_loop filter_next
round_overlap fuel c s out gap v shown pos short =
    let read : next_wchar (encode c ++ s) no_limit ≡ wide c (length (encode c)) =
      next_wchar-encode c no_limit s v (omega (arith, encode_size c)) in
    let positive : (c == 0) ≡ false = ground (arith, v.positive) in
    let copied : copy_down (encode c ++ s) out gap (length (encode c)) ≡ fault overlap =
      unfold copy_down in ground arith in
    rw (encode-first c s v, read, positive, fb_wcwidth_lem c, shown, copied) refl

-- The characters that take columns.
unfoldable pub kept : List ℕ → List ℕ
kept [] = []
kept (c ∷ cs) = let rest = kept cs in if is_printable c then c ∷ rest else rest

abbrev pub AllOfSize : (n : ℕ) → List ℕ → Type 0
AllOfSize n ws = All (λ c. IsChar c × (length (encode c) ≡ n)) ws

copied_whole :
    (n c : ℕ) (s out : List ℕ) (gap : ℕ)
    → length (encode c) ≡ n
    → (gap ≡ 0) ⊎ (n ≤ gap)
    → copy_down (encode c ++ s) out gap (length (encode c)) ≡ ok (out ++ encode c)
unfolding copy_down
copied_whole n c s out gap e h =
    let apart : (not (gap == 0) && ltb gap (length (encode c))) ≡ false = ground (arith, h) in
    rw (apart, take-length-append (encode c) s) refl

filter_loop-kept :
    (fuel n : ℕ) (ws out : List ℕ) (gap : ℕ)
    → AllOfSize n ws
    → length (encode_all ws) < fuel
    → (gap ≡ 0) ⊎ (n ≤ gap)
    → filter_loop fuel (encode_all ws) out gap ≡ ok (out ++ encode_all (kept ws))
unfolding encode_all kept
filter_loop-kept zero n ws out gap v f h = absurd (omega arith)
filter_loop-kept (suc fuel) n [] out gap v f h = unfold filter_loop in ap ok (sym (append-nil out))
filter_loop-kept (suc fuel) n (c ∷ cs) out gap v f h =
    let whole : length (encode c ++ encode_all cs) ≡ length (encode c) + length (encode_all cs) =
      length-append (encode c) (encode_all cs) in
    elim (Bool-cases (is_printable c)) [
      | inl shown ↦ rw shown (
          round_shown fuel c (encode_all cs) out (out ++ encode c) gap v.0.0 shown
            (copied_whole n c (encode_all cs) out gap v.0.1 h)
          ∙ filter_loop-kept fuel n cs (out ++ encode c) gap v.1 (omega (arith, encode_size c)) h
          ∙ ap ok (append_assoc out (encode c) (encode_all (kept cs))))
      | inr hidden ↦ rw hidden (
          round_hidden fuel c (encode_all cs) out gap v.0.0 hidden
          ∙ filter_loop-kept fuel n cs out (gap + length (encode c)) v.1
              (omega (arith, encode_size c)) (inr (omega (arith, v.0.1))))
    ]

-- On characters that all take the same number of bytes `string_remove_non_printable` leaves those that
-- take columns.
pub remove_non_printable_lem :
    (n : ℕ) (ws : List ℕ)
    → AllOfSize n ws
    → remove_non_printable (encode_all ws) ≡ ok (encode_all (kept ws))
unfolding remove_non_printable
remove_non_printable_lem n ws v =
    filter_loop-kept (length (encode_all ws) + 1) n ws [] 0 v (omega arith) (inl refl)

-- Behind a character that is taken out, a longer one that stays is copied by `memcpy` between
-- overlapping bytes.
pub remove_overlaps :
    (c d : ℕ) (cs : List ℕ)
    → IsChar c
    → IsChar d
    → is_printable c ≡ false
    → is_printable d ≡ true
    → length (encode c) < length (encode d)
    → remove_non_printable (encode_all (c ∷ d ∷ cs)) ≡ fault overlap
unfolding remove_non_printable encode_all
remove_overlaps c d cs v w hidden shown longer =
    let s : List ℕ = encode d ++ encode_all cs in
    let k : ℕ = length (encode c ++ s) - 1 in
    let fuel : length (encode c ++ s) + 1 ≡ suc (suc k) =
      omega (arith, encode_size c, length-append (encode c) s) in
    ap (λ (t : ℕ). filter_loop t (encode c ++ s) [] 0) fuel
    ∙ round_hidden (suc k) c s [] 0 v hidden
    ∙ round_overlap k d (encode_all cs) [] (0 + length (encode c)) w shown
        (omega (arith, encode_size c)) (omega arith)
