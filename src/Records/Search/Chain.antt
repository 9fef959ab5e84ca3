-- ===== src/Records/Search/Chain.antt =====
-- The search of two parts of a list, one behind the other, and what stands behind the end of a search.
use mathlib.Core.Path.{fun_ext}
use fbbs.Common.{
  ℕ, zero, suc, ◌+◌, ◌-◌, ◌<◌, ◌≡◌, refl, sym, ap, ◌∙◌, List, [], ◌∷◌, ◌++◌, arith, length, take,
  drop,
}
use fbbs.Records.{Reply}
use fbbs.Records.Search.{
  Outcome, found, gave_up, goes_on, settled, reply, and_then, if_read, search_block, search_back,
}

pub length-nil {ℓ} : {A : Type ℓ} (xs : List A) → length xs ≡ 0 → xs ≡ []
length-nil [] h = refl
length-nil (x ∷ xs) h = absurd (omega (arith, h))

take-nil {ℓ} : {A : Type ℓ} (n : ℕ) → take {A = A} n [] ≡ []
take-nil zero = refl
take-nil (suc n) = refl

pub take-add {ℓ} :
    {A : Type ℓ} (n m : ℕ) (xs : List A) → take (n + m) xs ≡ take n xs ++ take m (drop n xs)
take-add zero m xs = let same : 0 + m ≡ m = omega arith in ap (λ k. take k xs) same
take-add (suc n) m [] = take-nil (suc n + m) ∙ sym (take-nil m)
take-add (suc n) m (x ∷ xs) =
    let next : suc n + m ≡ suc (n + m) = omega arith in
    ap (λ k. take k (x ∷ xs)) next ∙ ap (λ t. x ∷ t) (take-add n m xs)

pub drop-take {ℓ} :
    {A : Type ℓ} (n m : ℕ) (xs : List A) → drop n (take m xs) ≡ take (m - n) (drop n xs)
drop-take zero m xs = let same : m ≡ m - 0 = omega arith in ap (λ k. take k xs) same
drop-take (suc n) zero xs =
    let none_left : 0 ≡ 0 - suc n = omega arith in ap (λ k. take k (drop (suc n) xs)) none_left
drop-take (suc n) (suc m) [] = sym (take-nil (suc m - suc n))
drop-take (suc n) (suc m) (x ∷ xs) =
    let next : m - n ≡ suc m - suc n = omega arith in
    drop-take n m xs ∙ ap (λ k. take k (drop n xs)) next

pub take-take {ℓ} : {A : Type ℓ} (n m : ℕ) (xs : List A) → take n (take m xs) ≡ take m (take n xs)
take-take zero m xs = sym (take-nil m)
take-take (suc n) zero xs = refl
take-take (suc n) (suc m) [] = refl
take-take (suc n) (suc m) (x ∷ xs) = ap (λ t. x ∷ t) (take-take n m xs)

module _ {S A : Type 0} where
  and_then_assoc :
      (o : Outcome S A) (j k : S → Outcome S A)
      → and_then (and_then o j) k ≡ and_then o (λ s. and_then (j s) k)
  and_then_assoc (found offset item args) j k = refl
  and_then_assoc (gave_up args) j k = refl
  and_then_assoc (goes_on args) j k = refl

  and_then-goes_on : (o : Outcome S A) → o ≡ and_then o (λ s. goes_on s)
  and_then-goes_on (found offset item args) = refl
  and_then-goes_on (gave_up args) = refl
  and_then-goes_on (goes_on args) = refl

  pub if_read-some :
      (buf : List A) (args : S) (k : List A → Outcome S A)
      → 0 < length buf
      → if_read buf args k ≡ k buf
  if_read-some [] args k h = absurd (omega (arith, h))
  if_read-some (x ∷ xs) args k h = refl

  -- What follows matters up to the end of the search.
  pub settled-and_then :
      (o : Outcome S A) (j k : S → Outcome S A)
      → ((s : S) → settled (j s) ≡ settled (k s))
      → settled (and_then o j) ≡ settled (and_then o k)
  settled-and_then (found offset item args) j k h = refl
  settled-and_then (gave_up args) j k h = refl
  settled-and_then (goes_on args) j k h = h args

  module _ (filter : S → A → ℕ → Reply S A) where
    pub search_block-append :
        (xs ys : List A) (base : ℕ) (args : S)
        → search_block filter (xs ++ ys) base args
          ≡ and_then
              (search_block filter xs base args)
              (λ s. search_block filter ys (base + length xs) s)
    unfolding search_block
    search_block-append [] ys base args =
        let same : base ≡ base + 0 = omega arith in ap (λ b. search_block filter ys b args) same
    search_block-append (x ∷ xs) ys base args =
        let next : base + 1 + length xs ≡ base + suc (length xs) = omega arith in
        ap (and_then (reply base (filter args x base))) (
          fun_ext (λ s.
            search_block-append xs ys (base + 1) s
            ∙ ap
                (λ b.
                  and_then (search_block filter xs (base + 1) s) (λ t. search_block filter ys b t))
                next))
        ∙ sym (
            and_then_assoc (reply base (filter args x base))
              (λ s. search_block filter xs (base + 1) s)
              (λ t. search_block filter ys (base + suc (length xs)) t))

    pub search_back-append :
        (xs ys : List A) (base : ℕ) (args : S)
        → search_back filter (xs ++ ys) base args
          ≡ and_then
              (search_back filter ys (base + length xs) args)
              (λ s. search_back filter xs base s)
    unfolding search_back
    search_back-append [] ys base args =
        let same : base ≡ base + 0 = omega arith in
        ap (λ b. search_back filter ys b args) same
        ∙ and_then-goes_on (search_back filter ys (base + 0) args)
    search_back-append (x ∷ xs) ys base args =
        let next : base + 1 + length xs ≡ base + suc (length xs) = omega arith in
        ap (λ o. and_then o (λ s. reply base (filter s x base)))
          (search_back-append xs ys (base + 1) args
            ∙ ap
                (λ b.
                  and_then (search_back filter ys b args) (λ s. search_back filter xs (base + 1) s))
                next)
        ∙ and_then_assoc (search_back filter ys (base + suc (length xs)) args)
            (λ s. search_back filter xs (base + 1) s) (λ s. reply base (filter s x base))
