-- ===== src/ReadMark/Marking.antt =====
-- `brc_mark_as_read` and `brc_unread`.
use fbbs.Common.{
  ap, sym, ℕ, zero, suc, ◌≤◌, ◌<◌, ◌≡◌, refl, ◌≢◌, inl, inr, true, false, List, [], ◌∷◌, ◌++◌,
  arith, ltb, ◌==◌, if◌then◌else◌, length, take, take-all, length-take, length-append, Bool-cases,
  All,
}
use fbbs.ReadMark.{
  Brc, Mark, known, inserted, oldest, scan, after_scan, mark_as_read, unread_loop, unread, max_num,
}
use fbbs.ReadMark.Sorted.{
  IsFalling, IsFalling-take, IsFalling-insert, IsFalling-append, insert, Found, is_known,
  is_inserted, is_oldest, scan-Found,
}

pub record IsValid (b : Brc) : Type 0 where
  pub falling : IsFalling b.items
  pub bounded : length b.items ≤ max_num

-- How the answer of `unread_loop` changes with the list.
unread_loop-insert :
    (item j : ℕ) (xs : List ℕ)
    → unread_loop item xs ≡ true
    → unread_loop j (insert item xs) ≡ (if j == item then false else unread_loop j xs)
unfolding unread_loop insert
unread_loop-insert item j [] u = absurd (ground arith)
unread_loop-insert item j (x ∷ xs) u = ground (arith, unread_loop-insert item j xs)

unread_loop-take :
    (n j : ℕ) (xs : List ℕ) → unread_loop j xs ≡ false → unread_loop j (take n xs) ≡ false
unfolding unread_loop
unread_loop-take zero j xs u = refl
unread_loop-take (suc n) j [] u = refl
unread_loop-take (suc n) j (x ∷ xs) u = ground (arith, unread_loop-take n j xs)

length-insert : (item : ℕ) (xs : List ℕ) → length (insert item xs) ≡ suc (length xs)
unfolding insert
length-insert item [] = refl
length-insert item (x ∷ xs) = ground (arith, length-insert item xs)

-- A post that is older than all recorded ones counts as read.
unread_loop-oldest : (j : ℕ) (xs : List ℕ) → All (λ y. j < y) xs → unread_loop j xs ≡ false
unfolding unread_loop
unread_loop-oldest j [] h = refl
unread_loop-oldest j (x ∷ xs) h = ground (arith, unread_loop-oldest j xs h.1)

unread_loop-last :
    (item j : ℕ) (xs : List ℕ) → All (λ y. j < y) xs → unread_loop j (xs ++ item ∷ []) ≡ ltb item j
unfolding unread_loop
unread_loop-last item j [] h = ground arith
unread_loop-last item j (x ∷ xs) h = ground (arith, unread_loop-last item j xs h.1)

module _ (b : Brc) (item : ℕ) where
  after_scan-IsValid :
      (m : Mark) → Found item b.items m → IsValid b → IsValid (after_scan b item m).1
  unfolding after_scan
  after_scan-IsValid known f v = v
  after_scan-IsValid (inserted ys) (is_inserted _ e u) v = record {
    falling = IsFalling-take max_num ys (rw e (IsFalling-insert item b.items v.falling u));
    bounded = omega (arith, length-take max_num ys);
  }
  after_scan-IsValid oldest (is_oldest h u) v = elim (Bool-cases (ltb (length b.items) max_num)) [
    | inl room ↦ rw room (record {
      falling = IsFalling-append item b.items v.falling h;
      bounded = ground (arith, length-append b.items (item ∷ []));
    })
    | inr full ↦ rw full v
  ]

  -- Marking keeps the record strictly falling and within its array of 60 items.
  pub mark_as_read-IsValid : IsValid b → IsValid (mark_as_read b item).1
  unfolding mark_as_read
  mark_as_read-IsValid v = elim (Bool-cases (length b.items == 0)) [
    | inl empty ↦ rw empty (record { falling = (tt, tt); bounded = omega arith })
    | inr some_items ↦
        rw some_items (after_scan-IsValid (scan item b.items) (scan-Found item b.items) v)
  ]

  after_scan-answer :
      (m : Mark) → Found item b.items m → (after_scan b item m).0 ≡ unread_loop item b.items
  unfolding after_scan
  after_scan-answer known (is_known u) = sym u
  after_scan-answer (inserted ys) (is_inserted _ e u) = sym u
  after_scan-answer oldest (is_oldest h u) = sym u

  -- The answer of `brc_mark_as_read` is what `brc_unread` says before the call.
  pub mark_as_read_answer : (mark_as_read b item).0 ≡ unread b item
  unfolding mark_as_read unread
  mark_as_read_answer =
      ground (arith, after_scan-answer (scan item b.items) (scan-Found item b.items))

  after_scan_self :
      (m : Mark) → Found item b.items m → unread_loop item (after_scan b item m).1.items ≡ false
  unfolding after_scan
  after_scan_self known (is_known u) = u
  after_scan_self (inserted ys) (is_inserted _ e u) =
      unread_loop-take max_num item ys (rw e (ground (arith, unread_loop-insert item item b.items)))
  after_scan_self oldest (is_oldest h u) = elim (Bool-cases (ltb (length b.items) max_num)) [
    | inl room ↦ rw room (ground (arith, unread_loop-last item item b.items h))
    | inr full ↦ rw full u
  ]

  after_scan-nonempty :
      (m : Mark)
      → Found item b.items m
      → 0 < length b.items
      → 0 < length (after_scan b item m).1.items
  unfolding after_scan
  after_scan-nonempty known f h = h
  after_scan-nonempty (inserted ys) (is_inserted _ e u) h =
      omega (arith, length-take max_num ys, ap length e, length-insert item b.items)
  after_scan-nonempty oldest (is_oldest x u) h = ground (arith, length-append b.items (item ∷ []))

  -- A marked post is read.
  pub mark_as_read_self : unread (mark_as_read b item).1 item ≡ false
  unfolding mark_as_read unread unread_loop
  mark_as_read_self = elim (Bool-cases (length b.items == 0)) [
    | inl empty ↦ rw empty (ground arith)
    | inr some_items ↦
        let filled : 0 < length (after_scan b item (scan item b.items)).1.items =
          after_scan-nonempty (scan item b.items) (scan-Found item b.items) (ground arith) in
        rw some_items
          (ground (arith, filled, after_scan_self (scan item b.items) (scan-Found item b.items)))
  ]

  after_scan-other :
      (m : Mark) (j : ℕ)
      → Found item b.items m
      → unread_loop item b.items ≡ true
      → j ≢ item
      → length b.items < max_num
      → unread_loop j (after_scan b item m).1.items ≡ unread_loop j b.items
  unfolding after_scan
  after_scan-other known j (is_known u) t ne room = cc
  after_scan-other (inserted ys) j (is_inserted _ e u) t ne room =
      let whole : take max_num ys ≡ ys =
        take-all max_num ys (omega (arith, ap length e, length-insert item b.items)) in
      rw (whole, e) (ground (arith, unread_loop-insert item j b.items))
  after_scan-other oldest j (is_oldest x u) t ne room = cc

  after_scan-keeps :
      (m : Mark) (j : ℕ)
      → Found item b.items m
      → unread_loop item b.items ≡ true
      → unread_loop j b.items ≡ false
      → unread_loop j (after_scan b item m).1.items ≡ false
  unfolding after_scan
  after_scan-keeps known j (is_known u) t k = k
  after_scan-keeps (inserted ys) j (is_inserted _ e u) t k =
      unread_loop-take max_num j ys (rw e (ground (arith, unread_loop-insert item j b.items)))
  after_scan-keeps oldest j (is_oldest x u) t k = cc

  -- Marking an unread post in a record that has posts and room leaves every other post as it was.
  pub mark_as_read-other :
      (j : ℕ)
      → 0 < length b.items
      → length b.items < max_num
      → unread b item ≡ true
      → j ≢ item
      → unread (mark_as_read b item).1 j ≡ unread b j
  unfolding mark_as_read unread
  mark_as_read-other j pos room u ne =
      let filled = after_scan-nonempty (scan item b.items) (scan-Found item b.items) pos in
      ground (arith, filled, after_scan-other (scan item b.items) j (scan-Found item b.items))

  -- Marking an unread post never makes a read post unread, also where the oldest item is dropped.
  pub mark_as_read_keeps :
      (j : ℕ) → unread b item ≡ true → unread b j ≡ false → unread (mark_as_read b item).1 j ≡ false
  unfolding mark_as_read unread
  mark_as_read_keeps j u k =
      let nonempty : 0 < length b.items = ground arith in
      let filled = after_scan-nonempty (scan item b.items) (scan-Found item b.items) nonempty in
      ground (arith, filled, after_scan-keeps (scan item b.items) j (scan-Found item b.items))

scan-oldest : (item j : ℕ) (xs : List ℕ) → item < j → All (λ y. j < y) xs → scan item xs ≡ oldest
unfolding scan
scan-oldest item j [] h f = refl
scan-oldest item j (x ∷ xs) h f = ground (arith, scan-oldest item j xs h f.1)

-- Marking a post that counts as read because it is older than every item makes the posts between it
-- and the oldest item unread.
pub mark_as_read_reopens :
    (b : Brc) (item j : ℕ)
    → 0 < length b.items
    → length b.items < max_num
    → item < j
    → All (λ y. j < y) b.items
    → (unread b j ≡ false) × (unread (mark_as_read b item).1 j ≡ true)
unfolding mark_as_read after_scan unread
mark_as_read_reopens b item j pos room older h =
    let last : scan item b.items ≡ oldest = scan-oldest item j b.items older h in
    (
      ground (arith, unread_loop-oldest j b.items h),
      rw last
          (ground (arith, unread_loop-last item j b.items h, length-append b.items (item ∷ []))),
    )

All-weaken : (item j : ℕ) (xs : List ℕ) → j < item → All (λ y. item < y) xs → All (λ y. j < y) xs
All-weaken item j [] h f = tt
All-weaken item j (x ∷ xs) h f = (omega arith, All-weaken item j xs h f.1)

after_scan-older :
    (b : Brc) (item j : ℕ) (m : Mark)
    → Found item b.items m
    → j < item
    → unread_loop j b.items ≡ false
    → unread_loop j (after_scan b item m).1.items ≡ false
unfolding after_scan
after_scan-older b item j known (is_known u) h k = k
after_scan-older b item j (inserted ys) (is_inserted _ e u) h k =
    unread_loop-take max_num j ys (rw e (ground (arith, unread_loop-insert item j b.items)))
after_scan-older b item j oldest (is_oldest x u) h k =
    ground (arith, unread_loop-last item j b.items (All-weaken item j b.items h x))

-- Marking any post leaves the older posts read that were read.
pub mark_as_read_keeps_older :
    (b : Brc) (item j : ℕ)
    → j < item
    → unread b j ≡ false
    → unread (mark_as_read b item).1 j ≡ false
unfolding mark_as_read unread
mark_as_read_keeps_older b item j h k =
    let nonempty : 0 < length b.items = ground arith in
    let filled =
      after_scan-nonempty b item (scan item b.items) (scan-Found item b.items) nonempty in
    ground (arith, filled, after_scan-older b item j (scan item b.items) (scan-Found item b.items))
