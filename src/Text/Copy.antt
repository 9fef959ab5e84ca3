-- ===== src/Text/Copy.antt =====
-- `string_cp`: a string of whole characters is cut between two characters.
use fbbs.Common.{
  append_assoc, length-append, append-nil, ◌∙◌, sym, ap, take-all, subst, ℕ, zero, suc, ◌+◌, ◌-◌,
  ◌≤◌, ◌<◌, ◌≡◌, refl, List, [], ◌∷◌, ◌++◌, arith, ltb, leb, if◌then◌else◌, length, take, All, inl,
  inr, Bool-cases,
}
use fbbs.Text.{tail_loop, check_tail, strlcpy, string_cp}
use fbbs.Text.Utf8.{encode, IsChar}
use fbbs.Text.CheckTail.{encode_all, check_tail-cut, check_tail-encode_all}

-- The characters that fit whole into `n` bytes.
pub fitting : ℕ → List ℕ → List ℕ
fitting n [] = []
fitting n (c ∷ cs) =
    let rest = fitting (n - length (encode c)) cs in
    if leb (length (encode c)) n then c ∷ rest else []

take-within : (xs ys : List ℕ) (n : ℕ) → n ≤ length xs → take n (xs ++ ys) ≡ take n xs
take-within xs ys zero h = refl
take-within [] ys (suc n) h = absurd (omega arith)
take-within (x ∷ xs) ys (suc n) h = ap (λ (t : List ℕ). x ∷ t) (take-within xs ys n (omega arith))

take-past :
    (xs ys : List ℕ) (n : ℕ) → length xs ≤ n → take n (xs ++ ys) ≡ xs ++ take (n - length xs) ys
take-past [] ys n h = ap (λ (t : ℕ). take t ys) (omega arith)
take-past (x ∷ xs) ys zero h = absurd (omega arith)
take-past (x ∷ xs) ys (suc n) h =
    ap (λ (t : List ℕ). x ∷ t)
      (take-past xs ys n (omega arith) ∙ ap (λ (t : ℕ). xs ++ take t ys) (omega arith))

-- What is left over when a string of characters is cut.
data IsPart : List ℕ → Type 0 where
  no_part : IsPart []
  some_part : (c m : ℕ) → IsChar c → 0 < m → m < length (encode c) → IsPart (take m (encode c))

take-encode_all :
    (n : ℕ) (ws : List ℕ)
    → All IsChar ws
    → (part : List ℕ) × (take n (encode_all ws) ≡ encode_all (fitting n ws) ++ part) × IsPart part
unfolding encode_all fitting
take-encode_all zero [] v = ([], refl, no_part)
take-encode_all (suc n) [] v = ([], refl, no_part)
take-encode_all n (c ∷ cs) v = elim (Bool-cases (leb (length (encode c)) n)) [
  | inl fits ↦
      let (part, e, is) = take-encode_all (n - length (encode c)) cs v.1 in
      (
        part,
        rw fits (
            take-past (encode c) (encode_all cs) n (ground arith)
            ∙ ap (λ (t : List ℕ). encode c ++ t) e
            ∙ sym (append_assoc (encode c) (encode_all (fitting (n - length (encode c)) cs)) part)),
        is,
      )
  | inr cut ↦ (
    take n (encode c),
    rw cut (take-within (encode c) (encode_all cs) n (ground arith)),
    elim (Bool-cases (ltb 0 n)) [
      | inl pos ↦ some_part c n v.0 (ground arith) (ground arith)
      | inr empty ↦ let none_left : n ≡ 0 = ground arith in rw none_left no_part
    ],
  )
]

fitting-All : (n : ℕ) (ws : List ℕ) → All IsChar ws → All IsChar (fitting n ws)
unfolding fitting
fitting-All n [] v = tt
fitting-All n (c ∷ cs) v = elim (Bool-cases (leb (length (encode c)) n)) [
  | inl fits ↦ rw fits (v.0, fitting-All (n - length (encode c)) cs v.1)
  | inr cut ↦ rw cut tt
]

fitting-whole : (n : ℕ) (ws : List ℕ) → length (encode_all ws) ≤ n → fitting n ws ≡ ws
unfolding fitting encode_all
fitting-whole n [] h = refl
fitting-whole n (c ∷ cs) h =
    let size : length (encode c ++ encode_all cs) ≡ length (encode c) + length (encode_all cs) =
      length-append (encode c) (encode_all cs) in
    ground (arith, fitting-whole (n - length (encode c)) cs (omega arith))

check_tail-all : (ws : List ℕ) → All IsChar ws → (check_tail (encode_all ws)).0 ≡ encode_all ws
check_tail-all [] v = unfold check_tail tail_loop encode_all in refl
check_tail-all (c ∷ cs) v = ap (λ (r : List ℕ × ℕ). r.0) (check_tail-encode_all [] c cs v)

check_tail-IsPart :
    (ws part : List ℕ)
    → All IsChar ws
    → IsPart part
    → (check_tail (encode_all ws ++ part)).0 ≡ encode_all ws
check_tail-IsPart ws [] v no_part =
    subst (λ (t : List ℕ). (check_tail t).0 ≡ encode_all ws) (sym (append-nil (encode_all ws)))
      (check_tail-all ws v)
check_tail-IsPart ws _ v (some_part c m is pos cut) = check_tail-cut (encode_all ws) c m is pos cut

-- A string of characters copied into an array of `siz` bytes, at least one, is the characters that fit
-- whole in front of the NUL.
pub string_cp_lem :
    (ws : List ℕ) (siz : ℕ)
    → All IsChar ws
    → 0 < siz
    → (string_cp (encode_all ws) siz).0 ≡ encode_all (fitting (siz - 1) ws)
unfolding string_cp strlcpy
string_cp_lem ws siz v pos = elim (Bool-cases (leb siz (length (encode_all ws)))) [
  | inl long ↦
      let (part, e, is) = take-encode_all (siz - 1) ws v in
      rw (long, e) (check_tail-IsPart (fitting (siz - 1) ws) part (fitting-All (siz - 1) ws v) is)
  | inr short ↦
      let small : length (encode_all ws) ≤ siz - 1 = ground arith in
      rw (short, take-all (siz - 1) (encode_all ws) small, fitting-whole (siz - 1) ws small) refl
]
