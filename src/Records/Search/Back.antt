-- ===== src/Records/Search/Back.antt =====
-- The search of a file by blocks towards its head against one pass over the records before an offset.
use fbbs.Common.{
  min, ℕ, zero, suc, ◌+◌, ◌-◌, ◌*◌, ◌≤◌, ◌<◌, ◌≡◌, sym, ap, ◌∙◌, List, ◌++◌, arith, length, take,
  drop, length-drop, length-take,
}
use fbbs.Records.{Reply, File, record_read, record_seek}
use fbbs.Records.Search.{settled, and_then, search_back, back_loop}
use fbbs.Records.Search.Chain.{
  if_read-some, settled-and_then, search_back-append, take-add, drop-take, take-take,
}

module _ {S A : Type 0} (filter : S → A → ℕ → Reply S A) where
  module _ (capacity : ℕ) (some_fit : 0 < capacity) (items : List A) (all : ℕ)
      (within : all ≤ length items) where
    abbrev front : List A
    front = take all items

    abbrev at : ℕ → File A
    at pos = record { items = items; pos = pos }

    abbrev block : ℕ → List A
    block base = take capacity (drop base items)

    abbrev last : ℕ → List A
    last base = take (all - base) (block base)

    size-block : (base : ℕ) → length (block base) ≡ min capacity (length items - base)
    size-block base =
        length-take capacity (drop base items) ∙ ap (λ n. min capacity n) (length-drop base items)

    -- The records up to the end of a block are those before it and its own.
    front-split : (base : ℕ) → take (base + capacity) front ≡ take base front ++ last base
    front-split base =
        take-add base capacity front
        ∙ ap (λ t. take base front ++ t)
            (ap (λ t. take capacity t) (drop-take base all items)
              ∙ take-take capacity (all - base) (drop base items))

    back-more :
        (rounds pos : ℕ) (args : S)
        → rounds * capacity < all
        → back_loop filter (suc rounds) capacity all (at pos) args
          ≡ and_then (search_back filter (last (rounds * capacity)) (rounds * capacity) args) (λ s.
            back_loop filter rounds capacity all
              (at (rounds * capacity + length (block (rounds * capacity))))
              s)
    unfolding back_loop record_read record_seek
    back-more rounds pos args h =
        let base : ℕ = rounds * capacity in
        if_read-some (block base) args
          (λ read.
            and_then (search_back filter (take (all - base) read) base args)
              (λ s. back_loop filter rounds capacity all (at (base + length (block base))) s))
          (omega (arith, size-block base, h, some_fit, within))

    pub back_loop_lem :
        (rounds pos : ℕ) (args : S)
        → rounds * capacity < all + capacity
        → settled (back_loop filter rounds capacity all (at pos) args)
          ≡ settled (search_back filter (take (rounds * capacity) front) 0 args)
    unfolding back_loop search_back
    back_loop_lem zero pos args h =
        let none_left : 0 ≡ 0 * capacity = omega arith in
        ap (λ n. settled (search_back filter (take n front) 0 args)) none_left
    back_loop_lem (suc rounds) pos args h =
        let base : ℕ = rounds * capacity in
        let behind : ℕ = base + length (block base) in
        let inside : rounds * capacity < all = omega (arith, h) in
        let more : suc rounds * capacity ≡ rounds * capacity + capacity = omega arith in
        let before : 0 + length (take base front) ≡ base =
          omega (arith, length-take base front, length-take all items, inside, within) in
        ap settled (back-more rounds pos args inside)
        ∙ (settled-and_then (search_back filter (last base) base args)
              (λ s. back_loop filter rounds capacity all (at behind) s)
              (λ s. search_back filter (take base front) 0 s)
              (λ s. back_loop_lem rounds behind s (omega (arith, inside)))
            ∙ ap settled (
                ap
                  (λ b.
                    and_then (search_back filter (last base) b args)
                      (λ s. search_back filter (take base front) 0 s))
                  (sym before)
                ∙ (sym (search_back-append filter (take base front) (last base) 0 args)
                    ∙ ap (λ t. search_back filter t 0 args)
                        (sym (ap (λ n. take n front) more ∙ front-split base)))))
