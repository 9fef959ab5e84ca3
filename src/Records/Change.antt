-- ===== src/Records/Change.antt =====
-- lib/record.c: `record_merge`, `insert_record` and `delete_record`, on the records of a mapped file.
pub mod Insert
use fbbs.Common.{
  ℕ, zero, suc, ◌+◌, ◌-◌, Bool, true, false, not, ◌&&◌, ◌||◌, Option, none, some, List, [], ◌∷◌,
  ◌++◌, ltb, leb, ◌==◌, if◌then◌else◌, length, get_elem?, set, take, drop, replicate,
}
use fbbs.Common.Run.{Run, ok, fault, endless, bad_access, ◌>>=◌}
use fbbs.Records.{item_at}

-- What `delete_record` returns, where the file can be mapped: 0 for no record, -2, or 0.
pub data Deleted (A : Type 0) : Type 0 where
  nothing_to_do no_such_record : Deleted A
  deleted : List A → Deleted A

module _ {A : Type 0} where
  -- The loop of `record_merge`: `src` and `p2` stand behind `s` and `q` records, and `dst` behind `s + q`.
  unfoldable pub merge_loop :
      (fuel : ℕ)
      → (at_most : A → A → Bool) → (ptr : List A) → (s q : ℕ) → (items : List A) → Run (List A)
  unfolding item_at
  merge_loop zero at_most ptr s q items = fault endless
  merge_loop (suc fuel) at_most ptr s zero items = ok items
  merge_loop (suc fuel) at_most ptr zero (suc q) items = do
    item ← item_at ptr q
    merge_loop fuel at_most ptr zero q (set items q item)
  merge_loop (suc fuel) at_most ptr (suc s) (suc q) items = do
    item ← item_at ptr q
    old ← item_at items s
    elim (at_most old item) [
      | true ↦ merge_loop fuel at_most ptr (suc s) q (set items (suc s + q) item)
      | false ↦ merge_loop fuel at_most ptr s (suc q) (set items (s + suc q) old)
    ]

  -- `record_merge`, of records that `qsort` has put in order; the file is extended by blank records.
  -- Each round writes one record.
  unfoldable pub record_merge :
      (qsort : List A → List A)
      → (at_most : A → A → Bool) → (blank : A) → (items ptr : List A) → Run (List A)
  record_merge qsort at_most blank items ptr =
      let sorted = qsort ptr in
      if length ptr == 0
      then ok items
      else merge_loop (length items + length sorted + 1) at_most sorted (length items)
          (length sorted) (items ++ replicate (length sorted) blank)

  -- The loop of `insert_record`: the first place at which the check holds, or the end.
  unfoldable pub find_place : (check : A → Bool) → List A → ℕ
  find_place check [] = 0
  find_place check (x ∷ xs) = if check x then 0 else suc (find_place check xs)

  -- `memmove` of the records from a place on, to the end of the extended file.
  unfoldable pub move_up : (items : List A) → (iter : ℕ) → List A
  move_up items iter = take (iter + 1) items ++ take (length items - 1 - iter) (drop iter items)

  -- `insert_record`
  unfoldable pub insert_record : (check : A → Bool) → (blank arg : A) → (items : List A) → List A
  unfolding find_place move_up
  insert_record check blank arg items =
      let extended = items ++ blank ∷ [] in
      let iter = find_place check items in
      set (if iter == length items then extended else move_up extended iter) iter arg

  -- `memmove` of the records behind a place, and the truncation by one.
  unfoldable pub remove_at : (items : List A) → (place : ℕ) → List A
  remove_at items place = take place items ++ drop (place + 1) items

  -- What is tried when the record does not pass the check: the first that does, or -2 as none.
  unfoldable pub first_checked : (check : A → Bool) → List A → Option ℕ
  unfolding find_place
  first_checked check items =
      let place = find_place check items in if place == length items then none else some place

  abbrev delete_found : (items : List A) → Option ℕ → Deleted A
  delete_found items none = no_such_record
  delete_found items (some place) = deleted (remove_at items place)

  -- `delete_record`; the number `id` counts from 1.
  unfoldable pub delete_record :
      (check : Option (A → Bool)) → (items : List A) → (id : ℕ) → Run (Deleted A)
  unfolding item_at
  delete_record check items zero = ok nothing_to_do
  delete_record check items (suc place) =
      if ltb (length items) (suc place) then ok no_such_record else elim check [
        | none ↦ ok (deleted (remove_at items place))
        | some test ↦ do
          item ← item_at items place
          ok (
              if test item
              then deleted (remove_at items place)
              else delete_found items (first_checked test items))
      ]
