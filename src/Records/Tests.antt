-- ===== src/Records/Tests.antt =====
-- Runs of the record functions on files of numbers, and the theorems at concrete input.
use fbbs.Common.{
  ◌++◌, ◌%◌, if◌then◌else◌, ◌==◌, ltb, leb, ◌+◌, arith, ℕ, ◌≡◌, refl, Bool, true, false, none, some,
  List, [], ◌∷◌,
}
use fbbs.Common.Run.{fault, overlap, ok}
use fbbs.Records.Apply.{sweep}
use fbbs.Records.Apply.Delete.{record_delete_lem}
use fbbs.Records.Foreach.{Walks, backwards, calls, record_foreach_lem, reverse_visits_twice}
use fbbs.Records.Change.{
  record_merge, insert_record, delete_record, deleted, first_checked, find_place, remove_at,
}
use fbbs.Records.Change.Insert.{insert_before, insert_record_lem}
use fbbs.Records.Merge.{IsUp, tally}
use fbbs.Records.Merge.Sorted.{IsOrder, record_merge_lem}
use fbbs.Records.Search.{found, settled, search_back, record_search_copy}
use fbbs.Records.Search.Pass.{one_pass, record_search_copy_lem}
use fbbs.Records.Numbered.{
  search_record, search_loop, substitute_record, Finds, Replaced, search_record_lem,
  substitute_record_lem,
}
use fbbs.Records.{
  copy_back, record_apply, apply_loop, check_offset, item_at, record_foreach,
  record_reverse_foreach, Visited, Reply, callback_match, callback_continue, callback_break,
}

-- A file in order, whose order is that of the numbers.
leb-IsOrder : IsOrder leb
leb-IsOrder = record {
  total = λ a b h. ground (arith, h);
  trans = λ a b c h k. ground (arith, h, k);
}

-- Matches even numbers, adds 1 to the others, and asks for the end at 9; the argument counts the calls.
abbrev even_numbers : ℕ → ℕ → ℕ → Reply ℕ ℕ
even_numbers calls x offset = record {
  args = calls + 1;
  item = x + 1;
  result =
      if x % 2 == 0 then callback_match else if x == 9 then callback_break else callback_continue;
}

run_delete :
    record_apply even_numbers leb (2 ∷ 9 ∷ 4 ∷ 5 ∷ []) none 0 0 true
    ≡ ok (record { affected = 2; items = 10 ∷ 6 ∷ []; args = 4 })
unfolding record_apply check_offset apply_loop item_at copy_back
run_delete = refl

run_overlap : record_apply even_numbers leb (3 ∷ 2 ∷ []) none 0 0 true ≡ fault overlap
unfolding record_apply check_offset apply_loop item_at copy_back
run_overlap = refl

-- A change of the records ends at the one that asks for it.
run_change :
    record_apply even_numbers leb (2 ∷ 9 ∷ 4 ∷ []) none 0 0 false
    ≡ ok (record { affected = 1; items = 3 ∷ 10 ∷ 4 ∷ []; args = 2 })
unfolding record_apply check_offset apply_loop item_at
run_change = refl

run_delete_record :
    delete_record (some (λ x. x == 5)) (2 ∷ 5 ∷ 7 ∷ []) 1 ≡ ok (deleted (2 ∷ 7 ∷ []))
unfolding delete_record first_checked find_place remove_at item_at
run_delete_record = refl

record_delete_lem_example :
    record_apply even_numbers leb (3 ∷ 2 ∷ 9 ∷ 4 ∷ 5 ∷ []) none 1 0 true
    ≡ ok (record { affected = 2; items = 3 ∷ 10 ∷ 6 ∷ []; args = 4 })
unfolding sweep
record_delete_lem_example =
    record_delete_lem even_numbers (3 ∷ 2 ∷ 9 ∷ 4 ∷ 5 ∷ []) 1 0 (omega arith) leb

record_foreach_lem_example :
    (w : Visited even_numbers) × (record_foreach even_numbers leb 4096
        (record { items = 2 ∷ 3 ∷ 9 ∷ 5 ∷ 6 ∷ []; pos = 4 })
        none
        1
        0
      ≡ ok w)
    × Walks even_numbers (3 ∷ 9 ∷ 5 ∷ 6 ∷ []) 1 0 0 w
record_foreach_lem_example =
    record_foreach_lem even_numbers leb 4096 (2 ∷ 3 ∷ 9 ∷ 5 ∷ 6 ∷ []) 4 1 0 (omega arith)

-- Three records in blocks of two are four visits; the argument is the list of their offsets.
abbrev noted : List ℕ → ℕ → ℕ → Reply (List ℕ) ℕ
noted seen x offset = record { args = seen ++ offset ∷ []; item = x; result = callback_match }

reverse_visits_twice_example :
    (w : Visited noted) × (record_reverse_foreach noted 4096
        (record { items = 3 ∷ 4 ∷ 5 ∷ []; pos = 0 })
        []
      ≡ ok w)
    × (w.matched ≡ 4)
    × (w.args ≡ 2 ∷ 1 ∷ 1 ∷ 0 ∷ [])
unfolding backwards calls
reverse_visits_twice_example =
    reverse_visits_twice noted (λ s x i. refl) 4096 1 (record { items = 3 ∷ 4 ∷ 5 ∷ []; pos = 0 })
      [] refl (omega arith) (omega arith)

insert_record_lem_example :
    insert_record (λ x. ltb 4 x) 0 4 (3 ∷ 4 ∷ 5 ∷ 1 ∷ []) ≡ 3 ∷ 4 ∷ 4 ∷ 5 ∷ 1 ∷ []
unfolding insert_before
insert_record_lem_example = insert_record_lem (λ x. ltb 4 x) 0 4 (3 ∷ 4 ∷ 5 ∷ 1 ∷ [])

record_merge_lem_example :
    (out : List ℕ) × (record_merge (λ xs. xs) leb 0 (2 ∷ 5 ∷ []) (1 ∷ 3 ∷ []) ≡ ok out)
    × IsUp leb out
    × ((test : ℕ → Bool) → tally test out ≡ tally test (2 ∷ 5 ∷ []) + tally test (1 ∷ 3 ∷ []))
record_merge_lem_example =
    record_merge_lem leb leb-IsOrder (λ xs. xs) 0 (2 ∷ 5 ∷ []) (1 ∷ 3 ∷ []) ((refl, tt), (tt, tt))
      ((refl, tt), (tt, tt)) (λ test. refl)

-- Matches the numbers above 3; the argument counts the calls.
abbrev above_three : ℕ → ℕ → ℕ → Reply ℕ ℕ
above_three calls x offset = record {
  args = calls + 1;
  item = x;
  result = if ltb 3 x then callback_match else callback_continue;
}

-- Blocks of two records; the search goes from the offset 3 towards the head.
record_search_copy_lem_example :
    record_search_copy above_three 4096
      (record { items = 5 ∷ 4 ∷ 1 ∷ 6 ∷ []; pos = 0 })
      (some 3)
      true
      0
    ≡ found 1 4 2
unfolding one_pass settled search_back
record_search_copy_lem_example =
    record_search_copy_lem above_three 4096 (record { items = 5 ∷ 4 ∷ 1 ∷ 6 ∷ []; pos = 0 })
      (some 3) true 0 (omega arith) (omega arith)

search_record_lem_example : Finds (λ x. ltb 3 x) (1 ∷ 4 ∷ 5 ∷ []) 0 2 4
unfolding search_record search_loop
search_record_lem_example = search_record_lem (λ x. ltb 3 x) (1 ∷ 4 ∷ 5 ∷ [])

substitute_record_lem_example :
    (out : List ℕ) × (substitute_record 0 (1 ∷ 4 ∷ []) 7 5 ≡ some out)
    × Replaced (1 ∷ 4 ∷ []) 7 5 out
substitute_record_lem_example = substitute_record_lem 0 (1 ∷ 4 ∷ []) 7 5 (omega arith)
