-- ===== src/Records/Search/Ahead.antt =====
-- The search of a file by blocks against one pass over the records behind an offset.
use fbbs.Common.{
  inr, inl, ltb, min, Bool-cases, ℕ, zero, suc, ◌+◌, ◌-◌, ◌*◌, ◌≤◌, ◌<◌, ◌≡◌, refl, sym, ap, ◌∙◌,
  List, [], arith, length, take, drop, length-drop, length-take, take-append-drop,
}
use fbbs.Records.{Reply, File, record_read}
use fbbs.Records.Foreach.{drop-drop}
use fbbs.Records.Search.{gave_up, settled, and_then, search_block, forward_loop}
use fbbs.Records.Search.Chain.{length-nil, if_read-some, settled-and_then, search_block-append}

module _ {S A : Type 0} (filter : S → A → ℕ → Reply S A) where
  module _ (capacity : ℕ) (some_fit : 0 < capacity) (items : List A) where
    abbrev pub at : ℕ → File A
    at pos = record { items = items; pos = pos }

    abbrev block : ℕ → List A
    block pos = take capacity (drop pos items)

    size-block : (pos : ℕ) → length (block pos) ≡ min capacity (length items - pos)
    size-block pos =
        length-take capacity (drop pos items) ∙ ap (λ n. min capacity n) (length-drop pos items)

    forward-end :
        (rounds base pos : ℕ) (args : S)
        → length items ≤ pos
        → settled (forward_loop filter rounds capacity base (at pos) args) ≡ gave_up args
    unfolding forward_loop record_read settled
    forward-end zero base pos args h = refl
    forward-end (suc rounds) base pos args h =
        let nothing : block pos ≡ [] = length-nil (block pos) (omega (arith, size-block pos, h)) in
        rw nothing refl

    forward-more :
        (rounds base pos : ℕ) (args : S)
        → pos < length items
        → forward_loop filter (suc rounds) capacity base (at pos) args
          ≡ and_then (search_block filter (block pos) base args) (λ s.
            forward_loop filter rounds capacity (base + capacity) (at (pos + length (block pos))) s)
    unfolding forward_loop record_read
    forward-more rounds base pos args h =
        if_read-some (block pos) args
          (λ read. and_then (search_block filter read base args) (λ s.
            forward_loop filter rounds capacity (base + capacity) (at (pos + length (block pos)))
              s))
          (omega (arith, size-block pos, h, some_fit))

    -- The rounds behind a block.
    abbrev pub Finishes : ℕ → ℕ → Type 0
    Finishes rounds pos =
        (args : S)
        → settled (forward_loop filter rounds capacity pos (at pos) args)
          ≡ settled (search_block filter (drop pos items) pos args)

    forward_rest :
        (rounds pos : ℕ) (args : S)
        → Finishes rounds (pos + capacity)
        → settled (
            forward_loop filter rounds capacity
              (pos + capacity)
              (at (pos + length (block pos)))
              args)
          ≡ settled
              (search_block filter (drop capacity (drop pos items)) (pos + length (block pos)) args)
    unfolding search_block settled
    forward_rest rounds pos args h = elim (Bool-cases (ltb (length items - pos) capacity)) [
      | inl short ↦
          let empty : drop capacity (drop pos items) ≡ [] =
            length-nil (drop capacity (drop pos items)) (
              ground
                (arith, short, length-drop capacity (drop pos items), length-drop pos items)) in
          forward-end rounds (pos + capacity) (pos + length (block pos)) args
            (ground (arith, short, size-block pos))
          ∙ sym (rw empty refl)
      | inr full ↦
          let whole : length (block pos) ≡ capacity = ground (arith, full, size-block pos) in
          rw whole (
            h args
            ∙ ap (λ t. settled (search_block filter t (pos + capacity) args))
                (sym (drop-drop pos capacity items)))
    ]

    pub forward_loop-Finishes :
        (rounds pos : ℕ) → length items ≤ pos + rounds * capacity → Finishes rounds pos
    unfolding search_block settled
    forward_loop-Finishes zero pos h args =
        let empty : drop pos items ≡ [] =
          length-nil (drop pos items) (omega (arith, h, length-drop pos items)) in
        forward-end zero pos pos args (omega (arith, h)) ∙ sym (rw empty refl)
    forward_loop-Finishes (suc rounds) pos h args = elim (Bool-cases (ltb pos (length items))) [
      | inr behind ↦
          let empty : drop pos items ≡ [] =
            length-nil (drop pos items) (ground (arith, behind, length-drop pos items)) in
          forward-end (suc rounds) pos pos args (ground (arith, behind)) ∙ sym (rw empty refl)
      | inl inside ↦
          let next : Finishes rounds (pos + capacity) =
            forward_loop-Finishes rounds (pos + capacity) (omega (arith, h)) in
          ap settled (forward-more rounds pos pos args (ground (arith, inside)))
          ∙ (settled-and_then (search_block filter (block pos) pos args)
                (λ s.
                  forward_loop filter rounds capacity (pos + capacity)
                    (at (pos + length (block pos))) s)
                (λ s.
                  search_block filter (drop capacity (drop pos items)) (pos + length (block pos)) s)
                (λ s. forward_rest rounds pos s next)
              ∙ ap settled (
                  sym (
                    search_block-append filter (block pos) (drop capacity (drop pos items)) pos
                      args)
                  ∙ ap (λ t. search_block filter t pos args)
                      (take-append-drop capacity (drop pos items))))
    ]
