-- ===== src/Records.antt =====
-- lib/record.c: files of records of one length. A record is a value, a file the list of its records with
-- the place at which it is read, and an offset counts records.
pub mod Apply
pub mod Foreach
pub mod Change
pub mod Merge
pub mod Search
pub mod Numbered
mod Tests
use fbbs.Common.{
  ℕ, zero, suc, ◌+◌, ◌-◌, ◌*◌, ◌/◌, Bool, true, false, not, ◌&&◌, ◌||◌, Option, none, some, List,
  [], ◌∷◌, ◌++◌, ltb, leb, ◌==◌, if◌then◌else◌, length, get_elem?, set, take, drop,
}
use fbbs.Common.Run.{Run, ok, fault, endless, bad_access, overlap, ◌>>=◌}

-- `record_callback_e`
pub data Callback : Type 0 where
  callback_match callback_continue callback_break : Callback

-- RECORD_BUFFER_SIZE
abbrev pub record_buffer_size : ℕ
record_buffer_size = 8192

-- What a callback leaves in its argument and in the record, and what it returns.
pub record Reply (S A : Type 0) : Type 0 where
  pub args : S
  pub item : A
  pub result : Callback

pub record File (A : Type 0) : Type 0 where
  pub items : List A
  pub pos : ℕ

module _ {A : Type 0} where
  unfoldable pub record_count : File A → ℕ
  record_count f = length f.items

  -- `record_seek` from the head of the file.
  unfoldable pub record_seek : File A → (offset : ℕ) → File A
  record_seek f offset = record f { pos = offset }

  -- `record_read`: the records, and the file behind them.
  unfoldable pub record_read : File A → (count : ℕ) → List A × File A
  record_read f count =
      let buf = take count (drop f.pos f.items) in (buf, record f { pos = f.pos + length buf })

  unfoldable pub record_read_after : File A → (count offset : ℕ) → List A × File A
  unfolding record_read record_seek
  record_read_after f count offset = record_read (record_seek f offset) count

  -- Records written at a place that is not behind the end.
  unfoldable pub record_write : File A → List A → (offset : ℕ) → File A
  record_write f buf offset = record {
    items = take offset f.items ++ (buf ++ drop (offset + length buf) f.items);
    pos = offset + length buf;
  }

  unfoldable pub record_append : File A → List A → File A
  record_append f buf = record { items = f.items ++ buf; pos = length f.items + length buf }

  unfoldable pub record_truncate : File A → (count : ℕ) → File A
  record_truncate f count = record f { items = take count f.items }

  unfoldable pub item_at : List A → ℕ → Run A
  item_at items i = elim (get_elem? items i) [ none ↦ fault bad_access | some a ↦ ok a ]

  -- `memcpy(p - affected * len, p, len)`, which may not copy a record over itself.
  unfoldable pub copy_back : (affected offset : ℕ) → A → List A → Run (List A)
  copy_back affected offset item items =
      if affected == 0 then fault overlap else ok (set items (offset - affected) item)

  -- `check_offset`; `at_most` is whether `cmp` returns at most 0.
  unfoldable pub check_offset :
      (at_most : A → A → Bool) → List A → (ptr : Option A) → (offset : ℕ) → Run ℕ
  unfolding item_at
  check_offset at_most items none offset = ok offset
  check_offset at_most items (some ptr) offset =
      if not (offset == 0) && ltb offset (length items)
      then (do item ← item_at items offset; ok (if at_most item ptr then offset else 0))
      else ok 0

module _ {S A : Type 0} (callback : S → A → ℕ → Reply S A) where
  -- `affected`, the records in their place, and the argument of the callback.
  pub record Applied : Type 0 where
    pub affected : ℕ
    pub items : List A
    pub args : S

  -- The loop of `record_apply` for so many records from `offset` on.
  unfoldable pub apply_loop : (left : ℕ) → (remove : Bool) → (offset : ℕ) → Applied → Run Applied
  unfolding item_at copy_back
  apply_loop zero remove offset a = ok a
  apply_loop (suc left) remove offset a = do
    item ← item_at a.items offset
    let r = callback a.args item offset
    let seen : Applied = record {
      affected = a.affected;
      items = set a.items offset r.item;
      args = r.args;
    }
    elim r.result [
      | callback_match ↦
          apply_loop left remove (offset + 1) (record seen { affected = a.affected + 1 })
      | callback_continue ↦ elim remove [
        | true ↦ do
          items ← copy_back a.affected offset r.item seen.items
          apply_loop left true (offset + 1) (record seen { items = items })
        | false ↦ apply_loop left false (offset + 1) seen
      ]
      | callback_break ↦ elim remove [
        | true ↦ do
          items ← copy_back a.affected offset r.item seen.items
          apply_loop left true (offset + 1) (record seen { items = items })
        | false ↦ ok seen
      ]
    ]

  -- `record_apply`; with `remove` it is `record_delete`.
  unfoldable pub record_apply :
      (at_most : A → A → Bool)
      → List A
      → (ptr : Option A) → (offset : ℕ) → S
      → (remove : Bool) → Run Applied
  unfolding check_offset
  record_apply at_most items ptr offset args remove = do
    begin ← check_offset at_most items ptr offset
    a ←
        apply_loop (length items - begin) remove begin
          (record { affected = 0; items = items; args = args })
    ok (
        if not (a.affected == 0) && remove
        then record a { items = take (length items - a.affected) a.items }
        else a)

  -- What the loop over the records of a block leaves, and whether it was broken off.
  pub record Visited : Type 0 where
    pub stopped : Bool
    pub matched : ℕ
    pub offset : ℕ
    pub args : S

  unfoldable pub visit : List A → Visited → Visited
  visit [] v = v
  visit (x ∷ xs) v =
      let r = callback v.args x v.offset in
      let next : Visited = record {
        stopped = false;
        matched = v.matched;
        offset = v.offset + 1;
        args = r.args;
      } in
      elim r.result [
        | callback_match ↦ visit xs (record next { matched = v.matched + 1 })
        | callback_continue ↦ visit xs next
        | callback_break ↦ record next { stopped = true }
      ]

  -- The first record of a block against the current one: whether the search goes back to the head.
  unfoldable pub goes_back : (at_most : A → A → Bool) → (ptr : Option A) → (buf : List A) → Bool
  goes_back at_most none buf = false
  goes_back at_most (some ptr) [] = true
  goes_back at_most (some ptr) (x ∷ buf) = not (at_most x ptr)

  -- The loop of `record_foreach`; `ptr` is none once it is checked. `continue` goes to the test of the loop.
  unfoldable pub foreach_loop :
      (fuel : ℕ)
      → (at_most : A → A → Bool) → (block : ℕ) → (ptr : Option A) → File A
      → Visited
      → Run Visited
  unfolding record_read record_seek goes_back
  foreach_loop zero at_most block ptr f v = fault endless
  foreach_loop (suc fuel) at_most block ptr f v =
      let (buf, behind) = record_read f block in
      elim (goes_back at_most ptr buf) [
        | true ↦ elim (length buf == block) [
          | true ↦
              foreach_loop fuel at_most block none (record_seek behind 0) (record v { offset = 0 })
          | false ↦ ok (record v { offset = 0 })
        ]
        | false ↦
            let w = visit buf v in
            elim (w.stopped || not (length buf == block)) [
              | true ↦ ok w
              | false ↦ foreach_loop fuel at_most block none behind w
            ]
      ]

  -- `record_foreach`. Each round reads a block; one more reads none, and one goes back.
  unfoldable pub record_foreach :
      (at_most : A → A → Bool)
      → (rlen : ℕ) → File A
      → (ptr : Option A) → (offset : ℕ) → S
      → Run Visited
  unfolding record_seek
  record_foreach at_most rlen f ptr offset args =
      foreach_loop (length f.items + 2) at_most (record_buffer_size / rlen) ptr
        (record_seek f offset)
        (record { stopped = false; matched = 0; offset = offset; args = args })

  -- The callback is called for the records of a block from the last one on.
  unfoldable pub visit_back : List A → (offset : ℕ) → Visited → Visited
  visit_back [] offset v = v
  visit_back (x ∷ xs) offset v =
      let w = visit_back xs (offset + 1) v in
      elim w.stopped [
        | true ↦ w
        | false ↦
            let r = callback w.args x offset in
            let next : Visited = record {
              stopped = false;
              matched = w.matched;
              offset = offset;
              args = r.args;
            } in
            elim r.result [
              | callback_match ↦ record next { matched = w.matched + 1 }
              | callback_continue ↦ next
              | callback_break ↦ record next { stopped = true }
            ]
      ]

  -- The loop of `record_reverse_foreach`.
  unfoldable pub reverse_loop :
      (fuel : ℕ) → (block : ℕ) → File A → (offset : ℕ) → Visited → Run Visited
  unfolding record_read_after
  reverse_loop zero block f offset v = fault endless
  reverse_loop (suc fuel) block f offset v =
      let base = offset - block in
      let (buf, behind) = record_read_after f block base in
      let w = visit_back buf base v in
      elim (length buf == 0) [
        | true ↦ ok v
        | false ↦ elim (w.stopped || base == 0) [
          | true ↦ ok w
          | false ↦ reverse_loop fuel block behind base w
        ]
      ]

  unfoldable pub record_reverse_foreach : (rlen : ℕ) → File A → S → Run Visited
  unfolding record_count
  record_reverse_foreach rlen f args =
      reverse_loop (length f.items + 1) (record_buffer_size / rlen) f (record_count f)
        (record { stopped = false; matched = 0; offset = 0; args = args })
