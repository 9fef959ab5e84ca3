-- ===== src/ReadMark/Clear.antt =====
-- `brc_clear`: the last 60 numbers up to an item are read afterwards.
use fbbs.Common.{
  ℕ, zero, suc, ◌+◌, ◌-◌, ◌%◌, ◌^◌, ◌≤◌, ◌<◌, ◌≡◌, refl, inl, inr, true, false, arith, ltb, leb,
  ◌==◌, le→leb, Bool-cases,
}
use fbbs.Common.Run.{Run, ok}
use fbbs.ReadMark.{Brc, mark_as_read, unread, clear_loop, clear, max_num}
use fbbs.ReadMark.Marking.{
  IsValid, mark_as_read-IsValid, mark_as_read_self, mark_as_read_keeps_older,
}

-- Once read, a post stays read while the loop goes up.
step :
    (b : Brc) (lo i j : ℕ)
    → ((j : ℕ) → lo ≤ j → j < i → unread b j ≡ false)
    → lo ≤ j
    → j < i + 1
    → unread (mark_as_read b i).1 j ≡ false
step b lo i j done h k = elim (Bool-cases (ltb j i)) [
  | inl before ↦ mark_as_read_keeps_older b i j (ground arith) (done j h (ground arith))
  | inr at ↦ let same : j ≡ i = ground arith in rw same (mark_as_read_self b i)
]

clear_loop-step :
    (left : ℕ) (b : Brc) (i item : ℕ) (r : Run Brc)
    → i ≤ item
    → i < 2 ^ 31 - 1
    → clear_loop left (mark_as_read b i).1 (i + 1) item ≡ r
    → clear_loop (suc left) b i item ≡ r
unfolding clear_loop
clear_loop-step left b i item r le small run =
    let more : leb i item ≡ true = le→leb i item le in
    let below : (i == 2 ^ 31 - 1) ≡ false = ground arith in
    let next : (i + 1) % 2 ^ 32 ≡ i + 1 = omega arith in rw (more, below, next) run

clear-start :
    (b : Brc) (item start : ℕ) (r : Run Brc)
    → (item + 2 ^ 32 - max_num + 1) % 2 ^ 32 ≡ start
    → clear_loop 61 b start item ≡ r
    → clear b item ≡ r
unfolding clear
clear-start b item start r e run = rw e run

clear_loop-reads :
    (left : ℕ) (b : Brc) (lo i item : ℕ)
    → item + 1 ≡ i + left
    → item < 2 ^ 31 - 1
    → IsValid b
    → ((j : ℕ) → lo ≤ j → j < i → unread b j ≡ false)
    → (c : Brc) × (clear_loop (suc left) b i item ≡ ok c)
      × IsValid c
      × ((j : ℕ) → lo ≤ j → j ≤ item → unread c j ≡ false)
unfolding clear_loop
clear_loop-reads zero b lo i item e small v done =
    (b, ground arith, v, λ j h k. done j h (omega arith))
clear_loop-reads (suc left) b lo i item e small v done =
    let (c, run, w, reads) =
      clear_loop-reads left (mark_as_read b i).1 lo (i + 1) item (omega arith) small
        (mark_as_read-IsValid b i v) (λ j. step b lo i j done) in
    (c, clear_loop-step (suc left) b i item (ok c) (omega arith) (omega arith) run, w, reads)

-- For an item from 59 on and below 2 ^ 31 - 1, `brc_clear` ends without a fault, keeps the record well
-- formed, and leaves each of the 60 numbers up to the item read.
pub clear_lem :
    (b : Brc) (item j : ℕ)
    → IsValid b
    → 59 ≤ item
    → item < 2 ^ 31 - 1
    → item - 59 ≤ j
    → j ≤ item
    → (c : Brc) × (clear b item ≡ ok c) × IsValid c × (unread c j ≡ false)
clear_lem b item j v lo hi h k =
    let start : (item + 2 ^ 32 - max_num + 1) % 2 ^ 32 ≡ item - 59 = omega arith in
    let (c, run, w, reads) =
      clear_loop-reads 60 b (item - 59) (item - 59) item (omega arith) hi v
        (λ i x y. absurd (omega arith)) in
    (c, clear-start b item (item - 59) (ok c) start run, w, reads j h k)

-- Below 59 the first number of the loop wraps, and `brc_clear` marks nothing.
pub clear_small : (b : Brc) (item : ℕ) → item < 59 → clear b item ≡ ok b
unfolding clear clear_loop
clear_small b item h =
    let past : leb ((item + 2 ^ 32 - max_num + 1) % 2 ^ 32) item ≡ false = ground arith in
    rw past refl
