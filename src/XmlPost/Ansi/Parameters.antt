-- ===== src/XmlPost/Ansi/Parameters.antt =====
-- What `_parse_ansi_code` reads: the parameters of a code, the letter behind them and the new colour.
use fbbs.Common.{
  ℕ, ◌≡◌, refl, sym, ap, ◌∙◌, Bool, true, false, ◌&&◌, ◌||◌, List, [], ◌∷◌, ◌++◌, arith, append-nil,
  append_assoc, leb, ◌==◌, if◌then◌else◌, inl, inr, Bool-cases,
}
use fbbs.XmlPost.Ansi.{
  Color, Codes, plain_color, no_codes, number, set_code, merge, code_loop, parse_ansi_code,
}

-- A digit or ";".
abbrev pub is_parameter : ℕ → Bool
is_parameter c = leb 48 c && leb c 57 || c == 59

-- The parameters at the beginning, and what is behind them.
unfoldable pub parameters : List ℕ → List ℕ × List ℕ
parameters [] = ([], [])
parameters (c ∷ s) =
    let more = parameters s in if is_parameter c then (c ∷ more.0, more.1) else ([], c ∷ s)

-- The digits before the first ";", and those behind each.
unfoldable pub numbers : List ℕ → List ℕ × List (List ℕ)
numbers [] = ([], [])
numbers (c ∷ ps) =
    let more = numbers ps in if c == 59 then ([], more.0 ∷ more.1) else (c ∷ more.0, more.1)

-- 0 and 1 set the brightness, 30 to 37 the colour of the text, 40 to 47 that behind it.
abbrev pub recolour : ℕ → Color → Color
recolour n k =
    if leb n 1
    then record k { hl = n }
    else if leb 30 n && leb n 37
    then record k { fg = n }
    else if leb 40 n && leb n 47
    then record k { bg = n }
    else k

unfoldable pub recolour_all : List (List ℕ) → Color → Color
recolour_all [] k = k
recolour_all (ds ∷ dss) k = recolour_all dss (recolour (number 0 ds) k)

abbrev is_nil : List ℕ → Bool
is_nil [] = true
is_nil (c ∷ s) = false

-- Behind "[" and parameters an "m" ends a code: without parameters it is the plain colour, else each of
-- them has its effect. Anything else is text, and the colour stays.
abbrev pub after_parameters : (ps rest : List ℕ) → Color → List ℕ × Color
after_parameters ps [] k = ([], k)
after_parameters ps (c ∷ t) k =
    if c == 109
    then (t, if is_nil ps then plain_color else recolour_all ((numbers ps).0 ∷ (numbers ps).1) k)
    else (c ∷ t, k)

abbrev pub read_code : List ℕ → Color → List ℕ × Color
read_code [] k = ([], k)
read_code (c ∷ s) k =
    if c == 91 then after_parameters (parameters s).0 (parameters s).1 k else (c ∷ s, k)

merge-set_code : (a : Codes) (n : ℕ) (k : Color) → merge (set_code a n) k ≡ recolour n (merge a k)
unfolding merge set_code
merge-set_code a n k = elim (Bool-cases (leb n 1)) [
  | inl low ↦
      let zero_or_one : (n == 0 || n == 1) ≡ true = ground (arith, low) in
      rw (zero_or_one, low) refl
  | inr x ↦
      let neither : (n == 0 || n == 1) ≡ false = ground (arith, x) in
      elim (Bool-cases (leb 30 n && leb n 37)) [
        | inl f ↦ rw (neither, x, f) refl
        | inr y ↦ elim (Bool-cases (leb 40 n && leb n 47)) [
          | inl b ↦ rw (neither, x, y, b) refl
          | inr z ↦ rw (neither, x, y, z) refl
        ]
      ]
]

-- The codes that the loop reads from parameters, with the digits it has seen.
unfoldable codes : Codes → (digits ps : List ℕ) → Codes
codes a digits [] = set_code a (number 0 digits)
codes a digits (c ∷ ps) =
    let further = codes (set_code a (number 0 digits)) [] ps in
    let longer = codes a (digits ++ c ∷ []) ps in if c == 59 then further else longer

abbrev joined : (digits : List ℕ) → List ℕ × List (List ℕ) → List (List ℕ)
joined digits z = (digits ++ z.0) ∷ z.1

codes-recolour_all :
    (a : Codes) (digits ps : List ℕ) (k : Color)
    → merge (codes a digits ps) k ≡ recolour_all (joined digits (numbers ps)) (merge a k)
unfolding codes recolour_all numbers
codes-recolour_all a digits [] k =
    merge-set_code a (number 0 digits) k
    ∙ ap (λ ds. recolour (number 0 ds) (merge a k)) (sym (append-nil digits))
codes-recolour_all a digits (c ∷ ps) k = elim (Bool-cases (c == 59)) [
  | inl semi ↦ rw semi (
      codes-recolour_all (set_code a (number 0 digits)) [] ps k
      ∙ (ap (recolour_all (joined [] (numbers ps))) (merge-set_code a (number 0 digits) k)
          ∙ ap (λ ds. recolour_all (joined [] (numbers ps)) (recolour (number 0 ds) (merge a k)))
              (sym (append-nil digits))))
  | inr other ↦ rw other (
      codes-recolour_all a (digits ++ c ∷ []) ps k
      ∙ ap (λ ds. recolour_all (ds ∷ (numbers ps).1) (merge a k))
          (append_assoc digits (c ∷ []) (numbers ps).0))
]

-- What the loop returns, from the parameters that are left and what is behind them.
abbrev looped : (first : Bool) → Codes → (digits ps rest : List ℕ) → Color → List ℕ × Color
looped first a digits ps [] k = ([], k)
looped first a digits ps (c ∷ t) k =
    if c == 109
    then (t, if first && is_nil ps then plain_color else merge (codes a digits ps) k)
    else (c ∷ t, k)

looped-cons :
    (first : Bool) (a b : Codes) (digits more : List ℕ) (c : ℕ) (ps rest : List ℕ) (k : Color)
    → codes a digits (c ∷ ps) ≡ codes b more ps
    → looped first a digits (c ∷ ps) rest k ≡ looped false b more ps rest k
looped-cons first a b digits more c ps [] k e = refl
looped-cons true a b digits more c ps (d ∷ t) k e =
    ap (λ (x : Codes). if d == 109 then (t, merge x k) else (d ∷ t, k)) e
looped-cons false a b digits more c ps (d ∷ t) k e =
    ap (λ (x : Codes). if d == 109 then (t, merge x k) else (d ∷ t, k)) e

codes-semicolon :
    (a : Codes) (digits : List ℕ) (c : ℕ) (ps : List ℕ)
    → (c == 59) ≡ true
    → codes a digits (c ∷ ps) ≡ codes (set_code a (number 0 digits)) [] ps
unfolding codes
codes-semicolon a digits c ps h = rw h refl

codes-digit :
    (a : Codes) (digits : List ℕ) (c : ℕ) (ps : List ℕ)
    → (c == 59) ≡ false
    → codes a digits (c ∷ ps) ≡ codes a (digits ++ c ∷ []) ps
unfolding codes
codes-digit a digits c ps h = rw h refl

parameters-more :
    (c : ℕ) (s : List ℕ)
    → is_parameter c ≡ true
    → parameters (c ∷ s) ≡ (c ∷ (parameters s).0, (parameters s).1)
unfolding parameters
parameters-more c s h = rw (parameters, h) refl

parameters-end : (c : ℕ) (s : List ℕ) → is_parameter c ≡ false → parameters (c ∷ s) ≡ ([], c ∷ s)
unfolding parameters
parameters-end c s h = rw (parameters, h) refl

ends_with :
    (first : Bool) (a : Codes) (digits s : List ℕ) (c : ℕ) (k : Color)
    → (c == 109) ≡ true
    → (s, if first then plain_color else merge (set_code a (number 0 digits)) k)
      ≡ looped first a digits [] (c ∷ s) k
unfolding codes
ends_with true a digits s c k h = rw h refl
ends_with false a digits s c k h = rw h refl

code_loop-looped :
    (first : Bool) (a : Codes) (digits s : List ℕ) (k : Color)
    → code_loop first a digits s k ≡ looped first a digits (parameters s).0 (parameters s).1 k
unfolding code_loop
code_loop-looped first a digits [] k = unfold parameters in refl
code_loop-looped first a digits (c ∷ s) k =
    let ps = (parameters s).0 in
    let rest = (parameters s).1 in
    elim (Bool-cases (c == 109)) [
      | inl m ↦
          let other : is_parameter c ≡ false = ground (arith, m) in
          rw m (
            ends_with first a digits s c k m
            ∙ ap (λ z. looped first a digits z.0 z.1 k) (sym (parameters-end c s other)))
      | inr n ↦ elim (Bool-cases (c == 59)) [
        | inl semi ↦
            let more : is_parameter c ≡ true = ground (arith, semi) in
            rw (n, semi)
              (code_loop-looped false (set_code a (number 0 digits)) [] s k
                ∙ (sym (
                      looped-cons first a (set_code a (number 0 digits)) digits [] c ps rest k
                        (codes-semicolon a digits c ps semi))
                    ∙ ap (λ z. looped first a digits z.0 z.1 k) (sym (parameters-more c s more))))
        | inr no_semi ↦ elim (Bool-cases (leb 48 c && leb c 57)) [
          | inl digit ↦
              let more : is_parameter c ≡ true = ground (arith, digit) in
              rw (n, no_semi, digit)
                (code_loop-looped false a (digits ++ c ∷ []) s k
                  ∙ (sym (
                        looped-cons first a a digits (digits ++ c ∷ []) c ps rest k
                          (codes-digit a digits c ps no_semi))
                      ∙ ap (λ z. looped first a digits z.0 z.1 k) (sym (parameters-more c s more))))
          | inr bad ↦
              let other : is_parameter c ≡ false = ground (arith, bad, no_semi) in
              rw (n, no_semi, bad)
                (stays first a digits c s k n
                  ∙ ap (λ z. looped first a digits z.0 z.1 k) (sym (parameters-end c s other)))
        ]
      ]
    ]
  where
    stays :
        (b : Bool) (d : Codes) (ds : List ℕ) (x : ℕ) (xs : List ℕ) (l : Color)
        → (x == 109) ≡ false
        → (x ∷ xs, l) ≡ looped b d ds [] (x ∷ xs) l
    stays b d ds x xs l h = rw h refl

looped-after_parameters :
    (ps rest : List ℕ) (k : Color) → looped true no_codes [] ps rest k ≡ after_parameters ps rest k
unfolding merge
looped-after_parameters ps [] k = refl
looped-after_parameters [] (c ∷ t) k = refl
looped-after_parameters (p ∷ ps) (c ∷ t) k =
    ap (λ (x : Color). if c == 109 then (t, x) else (c ∷ t, k))
      (codes-recolour_all no_codes [] (p ∷ ps) k)

pub parse_ansi_code-read_code : (s : List ℕ) (k : Color) → parse_ansi_code s k ≡ read_code s k
unfolding parse_ansi_code
parse_ansi_code-read_code [] k = refl
parse_ansi_code-read_code (c ∷ s) k = elim (Bool-cases (c == 91)) [
  | inl bracket ↦ rw bracket (
      code_loop-looped true no_codes [] s k
      ∙ looped-after_parameters (parameters s).0 (parameters s).1 k)
  | inr other ↦ rw other refl
]
