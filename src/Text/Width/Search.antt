-- ===== src/Text/Width/Search.antt =====
-- `bisearch` against a search of the whole table.
use fbbs.Common.{
  get_elem?-ge, ℕ, zero, suc, ◌+◌, ◌-◌, ◌/◌, ◌≤◌, ◌<◌, ◌≡◌, refl, ◌⊎◌, inl, inr, Bool, true, false,
  ◌&&◌, ◌||◌, none, some, List, [], ◌∷◌, arith, ltb, leb, length, get_elem?, Bool-cases,
}
use fbbs.Common.Run.{ok}
use fbbs.Text.Width.{Interval, interval_at, search_loop, bisearch}

abbrev pub contains : ℕ → Interval → Bool
contains ucs x = leb x.first ucs && leb ucs x.last

-- Whether an interval of the table contains the character.
unfoldable pub covers : ℕ → List Interval → Bool
covers ucs [] = false
covers ucs (x ∷ xs) = contains ucs x || covers ucs xs

-- The intervals are in order and do not overlap.
unfoldable pub sorted_from : ℕ → List Interval → Bool
sorted_from low [] = true
sorted_from low (x ∷ xs) = leb low x.first && leb x.first x.last && sorted_from (x.last + 1) xs

sorted_from-at :
    (low : ℕ) (xs : List Interval) (i : ℕ) (x : Interval)
    → sorted_from low xs ≡ true
    → get_elem? xs i ≡ some x
    → (low ≤ x.first) × (x.first ≤ x.last)
unfolding sorted_from
sorted_from-at low [] i x s e = cc
sorted_from-at low (y ∷ ys) zero x s e = ground arith
sorted_from-at low (y ∷ ys) (suc i) x s e = ground (arith, sorted_from-at (y.last + 1) ys i x)

sorted_from-between :
    (low : ℕ) (xs : List Interval) (i j : ℕ) (x y : Interval)
    → sorted_from low xs ≡ true
    → i < j
    → get_elem? xs i ≡ some x
    → get_elem? xs j ≡ some y
    → x.last < y.first
unfolding sorted_from
sorted_from-between low [] i j x y s h e f = cc
sorted_from-between low (z ∷ zs) i zero x y s h e f = absurd (omega arith)
sorted_from-between low (z ∷ zs) zero (suc j) x y s h e f =
    ground (arith, sorted_from-at (z.last + 1) zs j y)
sorted_from-between low (z ∷ zs) (suc i) (suc j) x y s h e f =
    ground (arith, sorted_from-between (z.last + 1) zs i j x y)

covers-at :
    (ucs : ℕ) (xs : List Interval) (i : ℕ) (x : Interval)
    → get_elem? xs i ≡ some x
    → contains ucs x ≡ true
    → covers ucs xs ≡ true
unfolding covers
covers-at ucs [] i x e c = cc
covers-at ucs (y ∷ ys) zero x e c = ground arith
covers-at ucs (y ∷ ys) (suc i) x e c = ground (arith, covers-at ucs ys i x e c)

covers-nowhere :
    (ucs : ℕ) (xs : List Interval)
    → ((i : ℕ) (x : Interval) → get_elem? xs i ≡ some x → (x.last < ucs) ⊎ (ucs < x.first))
    → covers ucs xs ≡ false
unfolding covers
covers-nowhere ucs [] out = refl
covers-nowhere ucs (y ∷ ys) out =
    ground (arith, out zero y refl, covers-nowhere ucs ys (λ i x e. out (suc i) x e))

get_elem?-lt :
    (xs : List Interval) (i : ℕ) → i < length xs → (x : Interval) × (get_elem? xs i ≡ some x)
get_elem?-lt [] i h = absurd (omega arith)
get_elem?-lt (x ∷ xs) zero h = (x, refl)
get_elem?-lt (x ∷ xs) (suc i) h = get_elem?-lt xs i (omega arith)

interval_at-lt :
    (xs : List Interval) (i : ℕ)
    → i < length xs
    → (x : Interval) × (get_elem? xs i ≡ some x) × (interval_at xs i ≡ ok x)
unfolding interval_at
interval_at-lt xs i h = let (x, e) = get_elem?-lt xs i h in (x, e, rw (interval_at, e) refl)

module _ (ucs : ℕ) (table : List Interval) (sorted : sorted_from 0 table ≡ true) where
  -- The intervals in front of `min` are below the character, those from `end` on above it.
  record Narrowed (min end : ℕ) : Type 0 where
    below : (i : ℕ) (x : Interval) → i < min → get_elem? table i ≡ some x → x.last < ucs
    above : (i : ℕ) (x : Interval) → end ≤ i → get_elem? table i ≡ some x → ucs < x.first

  nowhere : (min end : ℕ) → end ≤ min → Narrowed min end → covers ucs table ≡ false
  nowhere min end h n = covers-nowhere ucs table out
    where
      out : (i : ℕ) (x : Interval) → get_elem? table i ≡ some x → (x.last < ucs) ⊎ (ucs < x.first)
      out i x e = elim (Bool-cases (ltb i min)) [
        | inl lt ↦ inl (n.below i x (ground arith) e)
        | inr ge ↦ inr (n.above i x (ground arith) e)
      ]

  go_right :
      (min end mid : ℕ) (y : Interval)
      → get_elem? table mid ≡ some y
      → y.last < ucs
      → Narrowed min end
      → Narrowed (mid + 1) end
  go_right min end mid y here low n = record {
    below = λ i x h e. elim (Bool-cases (ltb i mid)) [
      | inl lt ↦ omega (
        arith,
        sorted_from-between 0 table i mid x y sorted (ground arith) e here,
        sorted_from-at 0 table mid y sorted here,
      )
      | inr ge ↦ let same : i ≡ mid = ground arith in ground arith
    ];
    above = n.above;
  }

  go_left :
      (min end mid : ℕ) (y : Interval)
      → get_elem? table mid ≡ some y
      → ucs < y.first
      → Narrowed min end
      → Narrowed min mid
  go_left min end mid y here high n = record {
    below = n.below;
    above = λ i x h e. elim (Bool-cases (ltb mid i)) [
      | inl gt ↦ omega (
        arith,
        sorted_from-between 0 table mid i y x sorted (ground arith) here e,
        sorted_from-at 0 table mid y sorted here,
      )
      | inr le ↦ let same : i ≡ mid = ground arith in ground arith
    ];
  }

  search_loop_lem :
      (fuel min end : ℕ)
      → min ≤ end
      → end < min + fuel
      → end ≤ length table
      → Narrowed min end
      → search_loop fuel ucs table min end ≡ ok (covers ucs table)
  unfolding search_loop
  search_loop_lem zero min end o f room n = absurd (omega arith)
  search_loop_lem (suc fuel) min end o f room n = elim (Bool-cases (ltb min end)) [
    | inr done ↦ rw (done, nowhere min end (ground arith) n) refl
    | inl more ↦
        let mid : ℕ = (min + end - 1) / 2 in
        let lt : min < end = ground arith in
        let (y, here, read) = interval_at-lt table mid (omega arith) in
        rw (more, read)
          (elim (Bool-cases (ltb y.last ucs)) [
            | inl low ↦ rw low (
                search_loop_lem fuel (mid + 1) end (omega arith) (omega arith) room
                  (go_right min end mid y here (ground arith) n))
            | inr not_low ↦ elim (Bool-cases (ltb ucs y.first)) [
              | inl high ↦
                  rw (not_low, high)
                    (search_loop_lem fuel min mid (omega arith) (omega arith) (omega arith)
                      (go_left min end mid y here (ground arith) n))
              | inr not_high ↦
                  let inside : contains ucs y ≡ true = ground arith in
                  rw (not_low, not_high, covers-at ucs table mid y here inside) refl
            ]
          ])
  ]

-- In a sorted table that is not empty, `bisearch` ends and finds a character exactly where an interval
-- of the table contains it.
pub bisearch_lem :
    (ucs max : ℕ) (table : List Interval)
    → sorted_from 0 table ≡ true
    → length table ≡ max + 1
    → bisearch ucs table max ≡ ok (covers ucs table)
unfolding bisearch
bisearch_lem ucs max table sorted size =
    let (low, first, read) = interval_at-lt table 0 (omega arith) in
    let (high, last, read2) = interval_at-lt table max (omega arith) in
    rw (read, read2)
      (elim (Bool-cases (ltb ucs low.first || ltb high.last ucs)) [
        | inl outside ↦ rw (outside, out low high first last outside) refl
        | inr inside ↦ rw inside (
            search_loop_lem ucs table sorted (max + 2) 0 (max + 1) (omega arith) (omega arith)
              (omega arith)
              (record {
                below = λ i x h e. absurd (omega arith);
                above = λ i x h e. absurd (beyond i x h e);
              }))
      ])
  where
    beyond : (i : ℕ) (x : Interval) → max + 1 ≤ i → get_elem? table i ≡ some x → ⊥
    beyond i x h e = let past : get_elem? table i ≡ none = get_elem?-ge table i (omega arith) in cc

    out :
        (low high : Interval)
        → get_elem? table 0 ≡ some low
        → get_elem? table max ≡ some high
        → (ltb ucs low.first || ltb high.last ucs) ≡ true
        → covers ucs table ≡ false
    out low high first last outside = covers-nowhere ucs table side
      where
        side :
            (i : ℕ) (x : Interval) → get_elem? table i ≡ some x → (x.last < ucs) ⊎ (ucs < x.first)
        side i x e = elim (Bool-cases (ltb ucs low.first)) [
          | inl under ↦ inr (ordered_low i x e (ground arith))
          | inr over ↦ inl (ordered_high i x e (ground arith))
        ]
          where
            ordered_low :
                (i : ℕ) (x : Interval)
                → get_elem? table i ≡ some x
                → ucs < low.first
                → ucs < x.first
            ordered_low zero x e h = ground arith
            ordered_low (suc i) x e h = omega (
              arith,
              sorted_from-between 0 table 0 (suc i) low x sorted (omega arith) first e,
              sorted_from-at 0 table 0 low sorted first,
            )

            ordered_high :
                (i : ℕ) (x : Interval) → get_elem? table i ≡ some x → high.last < ucs → x.last < ucs
            ordered_high i x e h = elim (Bool-cases (ltb i max)) [
              | inl lt ↦ omega (
                arith,
                sorted_from-between 0 table i max x high sorted (ground arith) e last,
                sorted_from-at 0 table max high sorted last,
              )
              | inr ge ↦ elim (Bool-cases (ltb max i)) [
                | inl past ↦ absurd (beyond i x (ground arith) e)
                | inr at ↦ let same : i ≡ max = ground arith in ground arith
              ]
            ]
