-- ===== src/ReadMark/Sorted.antt =====
-- Strictly falling lists, and the scan over them.
use fbbs.Common.{
  ℕ, zero, suc, ◌<◌, ◌≡◌, refl, inl, inr, true, false, List, [], ◌∷◌, ◌++◌, arith, ltb, ◌==◌,
  if◌then◌else◌, take, Bool-cases, All,
}
use fbbs.ReadMark.{Mark, known, inserted, oldest, behind, scan, unread_loop}

-- Each item is newer than all behind it.
abbrev pub IsFalling : List ℕ → Type 0
IsFalling [] = Unit
IsFalling (x ∷ xs) = All (λ y. y < x) xs × IsFalling xs

All-lt_trans : (xs : List ℕ) (a b : ℕ) → a < b → All (λ y. y < a) xs → All (λ y. y < b) xs
All-lt_trans [] a b h s = tt
All-lt_trans (x ∷ xs) a b h s = (omega arith, All-lt_trans xs a b h s.1)

All-take {ℓ} : (P : ℕ → Type ℓ) (n : ℕ) (xs : List ℕ) → All P xs → All P (take n xs)
All-take P zero xs h = tt
All-take P (suc n) [] h = tt
All-take P (suc n) (x ∷ xs) h = (h.0, All-take P n xs h.1)

pub IsFalling-take : (n : ℕ) (xs : List ℕ) → IsFalling xs → IsFalling (take n xs)
IsFalling-take zero xs h = tt
IsFalling-take (suc n) [] h = tt
IsFalling-take (suc n) (x ∷ xs) h = (All-take (λ y. y < x) n xs h.0, IsFalling-take n xs h.1)

-- The list with the new item in its place.
unfoldable pub insert : ℕ → List ℕ → List ℕ
insert item [] = item ∷ []
insert item (x ∷ xs) = if ltb x item then item ∷ x ∷ xs else x ∷ insert item xs

All-insert {ℓ} : (P : ℕ → Type ℓ) (a : ℕ) (xs : List ℕ) → P a → All P xs → All P (insert a xs)
unfolding insert
All-insert P a [] p h = (p, tt)
All-insert P a (x ∷ xs) p h = elim (Bool-cases (ltb x a)) [
  | inl lt ↦ rw lt (p, h)
  | inr ge ↦ rw ge (h.0, All-insert P a xs p h.1)
]

-- What the scan finds, by the order alone.
pub data Found (item : ℕ) (xs : List ℕ) : Mark → Type 0 where
  is_known : unread_loop item xs ≡ false → Found item xs known
  is_inserted :
      (ys : List ℕ) → ys ≡ insert item xs → unread_loop item xs ≡ true → Found item xs (inserted ys)
  is_oldest : All (λ y. item < y) xs → unread_loop item xs ≡ false → Found item xs oldest

Found-behind :
    (item x : ℕ) (xs : List ℕ) (m : Mark)
    → item < x
    → Found item xs m
    → Found item (x ∷ xs) (behind x m)
unfolding behind unread_loop insert
Found-behind item x xs m h (is_known p) = is_known (ground arith)
Found-behind item x xs m h (is_inserted ys e p) = is_inserted (x ∷ ys) (ground arith) (ground arith)
Found-behind item x xs m h (is_oldest s p) = is_oldest (h, s) (ground arith)

pub scan-Found : (item : ℕ) (xs : List ℕ) → Found item xs (scan item xs)
unfolding scan unread_loop insert
scan-Found item [] = is_oldest tt refl
scan-Found item (x ∷ xs) = elim (Bool-cases (item == x)) [
  | inl same ↦ rw same (is_known (ground arith))
  | inr other ↦ elim (Bool-cases (ltb x item)) [
    | inl newer ↦ rw (other, newer) (is_inserted (item ∷ x ∷ xs) (ground arith) (ground arith))
    | inr older ↦
        rw (other, older)
          (Found-behind item x xs (scan item xs) (ground arith) (scan-Found item xs))
  ]
]

-- Inserting an item that the list lacks keeps the order.
pub IsFalling-insert :
    (item : ℕ) (xs : List ℕ)
    → IsFalling xs
    → unread_loop item xs ≡ true
    → IsFalling (insert item xs)
unfolding insert unread_loop
IsFalling-insert item [] f u = (tt, tt)
IsFalling-insert item (x ∷ xs) f u = elim (Bool-cases (ltb x item)) [
  | inl newer ↦
      let lt : x < item = ground arith in rw newer ((lt, All-lt_trans xs x item lt f.0), f)
  | inr older ↦
      let lt : item < x = ground arith in
      rw older (All-insert (λ y. y < x) item xs lt f.0, IsFalling-insert item xs f.1 (ground arith))
]

pub IsFalling-append :
    (item : ℕ) (xs : List ℕ) → IsFalling xs → All (λ y. item < y) xs → IsFalling (xs ++ item ∷ [])
IsFalling-append item [] f h = (tt, tt)
IsFalling-append item (x ∷ xs) f h =
    (All-last (λ y. y < x) xs item f.0 h.0, IsFalling-append item xs f.1 h.1)
  where
    All-last : (P : ℕ → Type 0) (ys : List ℕ) (a : ℕ) → All P ys → P a → All P (ys ++ a ∷ [])
    All-last P [] a g p = (p, tt)
    All-last P (y ∷ ys) a g p = (g.0, All-last P ys a g.1 p)
