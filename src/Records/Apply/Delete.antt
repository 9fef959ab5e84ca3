-- ===== src/Records/Apply/Delete.antt =====
-- `record_delete`: the file that is left.
use fbbs.Common.{
  append-nil, ℕ, ◌+◌, ◌-◌, ◌≤◌, ◌≡◌, refl, sym, ap, ◌∙◌, append_assoc, Bool, true, false, not, ◌&&◌,
  none, some, List, [], ◌∷◌, ◌++◌, arith, ◌==◌, if◌then◌else◌, length, get_elem?, take, drop,
  length-append, length-drop, length-take, take-append-drop, take-length-append, inl, inr,
  Bool-cases,
}
use fbbs.Common.Run.{ok, fault, overlap}
use fbbs.Records.{Reply, Applied, apply_loop, check_offset, record_apply}
use fbbs.Records.Apply.{
  Kept, sweep, state, starts, is_match, Callback-cases, get_elem?-at, loop-overlap,
  apply_loop-Sweeps,
}

module _ {S A : Type 0} (callback : S → A → ℕ → Reply S A) where
  -- Every record is kept or counted.
  sweep-length :
      (args : S) (offset : ℕ) (xs : List A)
      → let k = sweep callback args offset xs in length k.items + k.removed ≡ length xs
  unfolding sweep
  sweep-length args offset [] = omega arith
  sweep-length args offset (x ∷ xs) =
      let rest = sweep-length (callback args x offset).args (offset + 1) xs in
      elim (Callback-cases (callback args x offset).result) [
        | inl match ↦ rw (sweep, match) (omega (arith, rest))
        | inr other ↦ elim other [
          | inl goes_on ↦ rw (sweep, goes_on) (omega (arith, rest))
          | inr stops ↦ rw (sweep, stops) (omega (arith, rest))
        ]
      ]

  abbrev truncated : ℕ → Applied callback → Applied callback
  truncated size a =
      if not (a.affected == 0) && true
      then record a { items = take (size - a.affected) a.items }
      else a

  same_state :
      (a : Applied callback) (n : ℕ) (items : List A) (args : S)
      → a.affected ≡ n
      → a.items ≡ items
      → a.args ≡ args
      → a ≡ state callback n items args
  same_state a n items args en ei ea =
      ap (λ m. state callback m a.items a.args) en
      ∙ (ap (λ t. state callback n t a.args) ei ∙ ap (state callback n items) ea)

  truncated-kept :
      (size : ℕ) (a : Applied callback) (front : List A) (k : Kept callback) (places : List A)
      → a.items ≡ front ++ (k.items ++ places)
      → a.affected ≡ k.removed
      → length places ≡ k.removed
      → a.args ≡ k.args
      → size ≡ length front + (length k.items + k.removed)
      → truncated size a ≡ state callback k.removed (front ++ k.items) k.args
  truncated-kept size a front k places ei ec ep ea es = elim (Bool-cases (a.affected == 0)) [
    | inl none_left ↦
        let empty : places ≡ [] = no_places places (ground (arith, none_left, ec, ep)) in
        rw none_left (
          same_state a k.removed (front ++ k.items) k.args ec
            (ei ∙ ap (λ t. front ++ t) (ap (λ t. k.items ++ t) empty ∙ append-nil k.items)) ea)
    | inr some_left ↦
        let cut : size - a.affected ≡ length (front ++ k.items) =
          omega (arith, es, ec, length-append front k.items) in
        rw some_left (
          same_state (record a { items = take (size - a.affected) a.items }) k.removed
            (front ++ k.items) k.args ec
            (ap (λ n. take n a.items) cut
              ∙ (ap (take (length (front ++ k.items)))
                    (ei ∙ sym (append_assoc front k.items places))
                  ∙ take-length-append (front ++ k.items) places))
            ea)
  ]
    where
      no_places : (xs : List A) → length xs ≡ 0 → xs ≡ []
      no_places [] e = refl
      no_places (x ∷ xs) e = absurd (ground (arith, e))

  -- What is left in the file and returned.
  abbrev pub swept : List A → (offset : ℕ) → S → Applied callback
  swept items offset args =
      let k = sweep callback args offset (drop offset items) in
      state callback k.removed (take offset items ++ k.items) k.args

  module _ (items : List A) (offset : ℕ) (args : S) (h : offset ≤ length items) where
    size : length (take offset items) ≡ offset
    size = ground (arith, length-take offset items, h)

    left : length items - offset ≡ length (drop offset items)
    left = sym (length-drop offset items)

    -- The loop on the records before the offset and those behind it.
    loop-split :
        apply_loop callback (length items - offset) true offset (state callback 0 items args)
        ≡ apply_loop callback
            (length (drop offset items))
            true
            offset
            (state callback 0 (take offset items ++ drop offset items) args)
    loop-split =
        ap (λ n. apply_loop callback n true offset (state callback 0 items args)) left
        ∙ ap
            (λ t.
              apply_loop callback (length (drop offset items)) true offset
                (state callback 0 t args))
            (sym (take-append-drop offset items))

    delete-swept :
        (at_most : A → A → Bool)
        → starts callback args offset (drop offset items) ≡ true
        → record_apply callback at_most items none offset args true ≡ ok (swept items offset args)
    unfolding record_apply check_offset
    delete-swept at_most st =
        let front = take offset items in
        let rest = drop offset items in
        let s =
          apply_loop-Sweeps callback front [] rest offset 0 args (omega (arith, size)) refl
            (inl st) in
        rw (loop-split ∙ s.run) (
          ap ok (
            truncated-kept (length items) s.applied front (sweep callback args offset rest) s.places
              s.items (s.count ∙ omega arith) (s.free ∙ omega arith) s.args
              (omega (arith, size, left, sweep-length args offset rest, h))))

    rest-overlap :
        (front rest : List A)
        → length front ≡ offset
        → starts callback args offset rest ≡ false
        → apply_loop callback (length rest) true offset (state callback 0 (front ++ rest) args)
          ≡ fault overlap
    rest-overlap front [] e st = absurd (ground (arith, st))
    rest-overlap front (x ∷ xs) e st =
        let at : get_elem? (front ++ x ∷ xs) offset ≡ some x =
          ap (get_elem? (front ++ x ∷ xs)) (sym e) ∙ get_elem?-at front xs x in
        elim (Callback-cases (callback args x offset).result) [
          | inl match ↦ absurd (ground (arith, ap (is_match callback) match, st))
          | inr other ↦
              loop-overlap callback (length xs) offset 0 (front ++ x ∷ xs) args x at refl other
        ]

    delete-overlaps :
        (at_most : A → A → Bool)
        → starts callback args offset (drop offset items) ≡ false
        → record_apply callback at_most items none offset args true ≡ fault overlap
    unfolding record_apply check_offset
    delete-overlaps at_most st =
        rw (loop-split ∙ rest-overlap (take offset items) (drop offset items) size st) refl

    -- Without a current record: where the first record from the offset on matches, or there is none,
    -- removal leaves the records before the offset and those behind it that do not match, in their
    -- order and with what the callback wrote into them, and returns how many do match; a callback that
    -- asks for the end does not end it. Where the first record does not match it is copied over itself,
    -- which the C standard leaves open.
    pub record_delete_lem :
        (at_most : A → A → Bool)
        → record_apply callback at_most items none offset args true ≡ (
            if starts callback args offset (drop offset items)
            then ok (swept items offset args)
            else fault overlap)
    record_delete_lem at_most =
        elim (Bool-cases (starts callback args offset (drop offset items))) [
          | inl st ↦ rw st (delete-swept at_most st)
          | inr st ↦ rw st (delete-overlaps at_most st)
        ]
