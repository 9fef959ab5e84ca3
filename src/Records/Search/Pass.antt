-- ===== src/Records/Search/Pass.antt =====
-- `record_search_copy` against one pass over the records.
use fbbs.Common.{
  inr, inl, some, ◌==◌, length-take, Bool-cases, false, Option, Bool, Option, none, some, Bool,
  true, false, ℕ, ◌+◌, ◌-◌, ◌*◌, ◌/◌, ◌≤◌, ◌<◌, ◌≡◌, refl, sym, ap, ◌∙◌, List, arith, length, take,
  drop, take-all,
}
use native.Mathlib.Nat.{mod-lt, div-add-mod', div-eq_of_lt}
use fbbs.Records.{Reply, File, record_buffer_size}
use fbbs.Records.Search.{
  Outcome, gave_up, settled, search_block, search_back, forward_loop, back_loop, rounds_of, all_of,
  begin_of, searched, record_search_copy,
}
use fbbs.Records.Search.Ahead.{forward_loop-Finishes}
use fbbs.Records.Search.Back.{back_loop_lem}

-- Just enough rounds.
record Enough (all capacity : ℕ) : Type 0 where
  enough : all ≤ rounds_of all capacity * capacity
  no_more : rounds_of all capacity * capacity < all + capacity

rounds_of-Enough : (all capacity : ℕ) → 0 < capacity → Enough all capacity
rounds_of-Enough all capacity h =
    let divides = div-add-mod' (all + capacity - 1) capacity in
    let rest = mod-lt (all + capacity - 1) h in
    record { enough = omega (arith, divides, rest, h); no_more = omega (arith, divides, h) }

no_rounds : (capacity : ℕ) → 0 < capacity → rounds_of 0 capacity ≡ 0
no_rounds capacity h = div-eq_of_lt (omega (arith, h))

reaches {ℓ} :
    {A : Type ℓ} (items : List A) (offset : Option ℕ) (n : ℕ)
    → all_of items offset false ≤ n
    → length items ≤ begin_of offset + n
reaches items none n h = omega (arith, h)
reaches items (some k) n h = omega (arith, h)

module _ {S A : Type 0} (filter : S → A → ℕ → Reply S A) where
  -- The records behind the offset in order, or those before it from the last one on.
  unfoldable pub one_pass : List A → (offset : Option ℕ) → (reverse : Bool) → S → Outcome S A
  one_pass items offset true args =
      settled (search_back filter (take (all_of items offset true) items) 0 args)
  one_pass items offset false args =
      settled (search_block filter (drop (begin_of offset) items) (begin_of offset) args)

  searched-nothing :
      (capacity : ℕ) (reverse : Bool) (begin : ℕ) (f : File A) (args : S)
      → 0 < capacity
      → settled (searched filter capacity 0 reverse begin f args) ≡ gave_up args
  unfolding settled forward_loop back_loop
  searched-nothing capacity true begin f args h = rw (no_rounds capacity h) refl
  searched-nothing capacity false begin f args h = rw (no_rounds capacity h) refl

  searched_lem :
      (capacity : ℕ) (items : List A) (pos : ℕ) (offset : Option ℕ) (reverse : Bool) (args : S)
      → 0 < capacity
      → all_of items offset reverse ≤ length items
      → settled (
          searched filter capacity
            (all_of items offset reverse)
            reverse
            (begin_of offset)
            (record { items = items; pos = pos })
            args)
        ≡ one_pass items offset reverse args
  unfolding one_pass
  searched_lem capacity items pos offset true args h within =
      let all = all_of items offset true in
      let r = rounds_of-Enough all capacity h in
      back_loop_lem filter capacity h items all within (rounds_of all capacity) pos args r.no_more
      ∙ ap (λ t. settled (search_back filter t 0 args))
          (take-all (rounds_of all capacity * capacity) (take all items)
            (omega (arith, length-take all items, r.enough)))
  searched_lem capacity items pos offset false args h within =
      let all = all_of items offset false in
      let r = rounds_of-Enough all capacity h in
      forward_loop-Finishes filter capacity h items (rounds_of all capacity) (begin_of offset)
        (reaches items offset (rounds_of all capacity * capacity) r.enough) args

  -- Where a block holds a record, and a search towards the head begins at an offset that is not behind the
  -- end, record_search_copy finds what one pass over the records behind the offset finds, or in reverse one
  -- pass from the record before it to the head, with the same calls of the filter.
  pub record_search_copy_lem :
      (rlen : ℕ) (f : File A) (offset : Option ℕ) (reverse : Bool) (args : S)
      → 0 < record_buffer_size / rlen
      → all_of f.items offset reverse ≤ length f.items
      → record_search_copy filter rlen f offset reverse args ≡ one_pass f.items offset reverse args
  unfolding record_search_copy
  record_search_copy_lem rlen f offset reverse args h within =
      let capacity : ℕ = record_buffer_size / rlen in
      let all : ℕ = all_of f.items offset reverse in
      let found_so = searched_lem capacity f.items f.pos offset reverse args h within in
      elim (Bool-cases (all == 0)) [
        | inl nothing ↦ rw nothing (
            sym (searched-nothing capacity reverse (begin_of offset) f args h)
            ∙ ap (λ n. settled (searched filter capacity n reverse (begin_of offset) f args))
                (ground (arith, nothing))
            ∙ found_so)
        | inr some_left ↦ rw some_left found_so
      ]
