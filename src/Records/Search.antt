-- ===== src/Records/Search.antt =====
-- lib/record.c: `record_search_copy`, the search of a file by blocks in both directions.
pub mod Chain
pub mod Ahead
pub mod Back
pub mod Pass
use fbbs.Common.{
  ◌==◌, if◌then◌else◌, ℕ, zero, suc, ◌+◌, ◌-◌, ◌*◌, ◌/◌, Bool, true, false, Option, none, some,
  List, [], ◌∷◌, length, take, ltb,
}
use fbbs.Records.{
  callback_match, callback_continue, callback_break, Reply, File, record_buffer_size, record_count,
  record_seek, record_read,
}

-- What the filter left in its argument, with the record found and its offset, with -1 to return, or with
-- the search to go on.
pub data Outcome (S A : Type 0) : Type 0 where
  found : (offset : ℕ) → (item : A) → (args : S) → Outcome S A
  gave_up goes_on : (args : S) → Outcome S A

-- `rounds`
abbrev pub rounds_of : (all capacity : ℕ) → ℕ
rounds_of all capacity = (all + capacity - 1) / capacity

-- The number of records to search, and the first of them in a search towards the end; a negative offset is none.
abbrev pub all_of {ℓ} : {A : Type ℓ} → List A → (offset : Option ℕ) → (reverse : Bool) → ℕ
all_of items (some n) true = n
all_of items (some n) false = length items - n - 1
all_of items none reverse = length items

abbrev pub begin_of : (offset : Option ℕ) → ℕ
begin_of none = 0
begin_of (some n) = n + 1

module _ {S A : Type 0} where
  -- `return -1` behind the loop.
  unfoldable pub settled : Outcome S A → Outcome S A
  settled (found offset item args) = found offset item args
  settled (gave_up args) = gave_up args
  settled (goes_on args) = gave_up args

  abbrev pub reply : (offset : ℕ) → Reply S A → Outcome S A
  reply offset r = elim r.result [
    | callback_match ↦ found offset r.item r.args
    | callback_continue ↦ goes_on r.args
    | callback_break ↦ gave_up r.args
  ]

  -- `if (count <= 0) return -1` behind a read.
  abbrev pub if_read : List A → S → (List A → Outcome S A) → Outcome S A
  if_read [] args k = gave_up args
  if_read (x ∷ xs) args k = k (x ∷ xs)

  abbrev pub and_then : Outcome S A → (S → Outcome S A) → Outcome S A
  and_then (found offset item args) k = found offset item args
  and_then (gave_up args) k = gave_up args
  and_then (goes_on args) k = k args

module _ {S A : Type 0} (filter : S → A → ℕ → Reply S A) where
  -- The loop over the records of a block, the first of which has the offset `base`.
  unfoldable pub search_block : List A → (base : ℕ) → S → Outcome S A
  search_block [] base args = goes_on args
  search_block (x ∷ xs) base args =
      and_then (reply base (filter args x base)) (λ s. search_block xs (base + 1) s)

  -- The same from the last one on.
  unfoldable pub search_back : List A → (base : ℕ) → S → Outcome S A
  search_back [] base args = goes_on args
  search_back (x ∷ xs) base args =
      and_then (search_back xs (base + 1) args) (λ s. reply base (filter s x base))

  unfoldable pub forward_loop :
      (rounds : ℕ) → (capacity : ℕ) → (base : ℕ) → File A → S → Outcome S A
  unfolding record_read
  forward_loop zero capacity base f args = goes_on args
  forward_loop (suc rounds) capacity base f args =
      let (buf, behind) = record_read f capacity in
      if_read buf args (λ read.
        and_then (search_block read base args)
          (λ s. forward_loop rounds capacity (base + capacity) behind s))

  -- `all` is the number of records to search.
  unfoldable pub back_loop : (rounds : ℕ) → (capacity all : ℕ) → File A → S → Outcome S A
  unfolding record_read record_seek
  back_loop zero capacity all f args = goes_on args
  back_loop (suc rounds) capacity all f args =
      let base = rounds * capacity in
      let (buf, behind) = record_read (record_seek f base) capacity in
      if_read buf args (λ read.
        and_then (search_back (take (all - base) read) base args)
          (λ s. back_loop rounds capacity all behind s))

  abbrev pub searched :
      (capacity all : ℕ) → (reverse : Bool) → (begin : ℕ) → File A → S → Outcome S A
  searched capacity all true begin f args = back_loop (rounds_of all capacity) capacity all f args
  searched capacity all false begin f args =
      forward_loop (rounds_of all capacity) capacity begin (record f { pos = begin }) args

  -- `record_search_copy`
  unfoldable pub record_search_copy :
      (rlen : ℕ) → File A → (offset : Option ℕ) → (reverse : Bool) → S → Outcome S A
  record_search_copy rlen f offset reverse args =
      let all = all_of f.items offset reverse in
      if all == 0
      then gave_up args
      else settled (searched (record_buffer_size / rlen) all reverse (begin_of offset) f args)
