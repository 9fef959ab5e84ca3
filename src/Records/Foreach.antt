-- ===== src/Records/Foreach.antt =====
-- `record_foreach` by blocks against one pass over the records, and where it and
-- `record_reverse_foreach` go wrong.
use fbbs.Common.{
  ℕ, zero, suc, ◌+◌, ◌-◌, ◌*◌, ◌/◌, ◌≤◌, ◌<◌, ◌≡◌, refl, sym, ap, ◌∙◌, Bool, true, false, not, ◌||◌,
  none, some, List, [], ◌∷◌, ◌++◌, arith, ◌==◌, length, take, drop, length-drop, length-take,
  take-append-drop, take-all, inl, inr, Bool-cases,
}
use fbbs.Common.Run.{ok}
use fbbs.Records.{
  callback_match, callback_continue, callback_break, Reply, File, Visited, record_buffer_size,
  record_count, record_seek, record_read, record_read_after, goes_back, visit, foreach_loop,
  record_foreach, visit_back, reverse_loop, record_reverse_foreach,
}
use fbbs.Records.Apply.{Callback-cases}

drop-nil {ℓ} : {A : Type ℓ} (n : ℕ) → drop {A = A} n [] ≡ []
drop-nil zero = refl
drop-nil (suc n) = refl

pub drop-drop {ℓ} : {A : Type ℓ} (n m : ℕ) (xs : List A) → drop m (drop n xs) ≡ drop (n + m) xs
drop-drop zero m xs = let same : m ≡ 0 + m = omega arith in ap (λ k. drop k xs) same
drop-drop (suc n) m [] = drop-nil m ∙ sym (drop-nil (suc n + m))
drop-drop (suc n) m (x ∷ xs) =
    let next : suc (n + m) ≡ suc n + m = omega arith in
    drop-drop n m xs ∙ ap (λ k. drop k (x ∷ xs)) next

module _ {S A : Type 0} (callback : S → A → ℕ → Reply S A) where
  -- The calls for records in order, from an offset and a number of matches on, and what they come to: at
  -- the end of the records, or at the one for which the callback asks for the end.
  pub data Walks : List A → (offset matched : ℕ) → S → Visited callback → Type 0 where
    at_end :
        (i m : ℕ) (s : S)
        → Walks [] i m s (record { stopped = false; matched = m; offset = i; args = s })
    matches :
        (x : A) (xs : List A) (i m : ℕ) (s : S) (w : Visited callback)
        → (callback s x i).result ≡ callback_match
        → Walks xs (i + 1) (m + 1) (callback s x i).args w
        → Walks (x ∷ xs) i m s w
    continues :
        (x : A) (xs : List A) (i m : ℕ) (s : S) (w : Visited callback)
        → (callback s x i).result ≡ callback_continue
        → Walks xs (i + 1) m (callback s x i).args w
        → Walks (x ∷ xs) i m s w
    breaks :
        (x : A) (xs : List A) (i m : ℕ) (s : S)
        → (callback s x i).result ≡ callback_break
        → Walks
            (x ∷ xs)
            i
            m
            s
            (record { stopped = true; matched = m; offset = i + 1; args = (callback s x i).args })

  visit-Walks :
      (xs : List A) (i m : ℕ) (s : S)
      → Walks xs i m s
          (visit callback xs (record { stopped = false; matched = m; offset = i; args = s }))
  unfolding visit
  visit-Walks [] i m s = at_end i m s
  visit-Walks (x ∷ xs) i m s =
      let r = callback s x i in
      elim (Callback-cases r.result) [
        | inl match ↦
            rw (visit, match) (matches x xs i m s _ match (visit-Walks xs (i + 1) (m + 1) r.args))
        | inr other ↦ elim other [
          | inl goes_on ↦
              rw (visit, goes_on) (continues x xs i m s _ goes_on (visit-Walks xs (i + 1) m r.args))
          | inr stops ↦ rw (visit, stops) (breaks x xs i m s stops)
        ]
      ]

  abbrev after : List A → Visited callback → Visited callback → Visited callback
  after ys v w = elim w.stopped [ true ↦ w | false ↦ visit callback ys w ]

  visit-append :
      (xs ys : List A) (v : Visited callback)
      → v.stopped ≡ false
      → visit callback (xs ++ ys) v ≡ after ys v (visit callback xs v)
  unfolding visit
  visit-append [] ys v h = rw h refl
  visit-append (x ∷ xs) ys v h =
      let r = callback v.args x v.offset in
      let next : Visited callback = record {
        stopped = false;
        matched = v.matched;
        offset = v.offset + 1;
        args = r.args;
      } in
      elim (Callback-cases r.result) [
        | inl match ↦
            rw (visit, match) (visit-append xs ys (record next { matched = v.matched + 1 }) refl)
        | inr other ↦ elim other [
          | inl goes_on ↦ rw (visit, goes_on) (visit-append xs ys next refl)
          | inr stops ↦ rw (visit, stops) refl
        ]
      ]

  module _ (at_most : A → A → Bool) (block : ℕ) (some_fit : 0 < block) where
    abbrev at : List A → ℕ → File A
    at items pos = record { items = items; pos = pos }

    module _ (fuel : ℕ) (items : List A) (pos : ℕ) (v : Visited callback) where
      abbrev buf : List A
      buf = take block (drop pos items)

      abbrev seen : Visited callback
      seen = visit callback buf v

      loop-ends :
          (seen.stopped || not (length buf == block)) ≡ true
          → foreach_loop callback (suc fuel) at_most block none (at items pos) v ≡ ok seen
      unfolding foreach_loop record_read goes_back
      loop-ends e = rw (foreach_loop, e) refl

      loop-more :
          (seen.stopped || not (length buf == block)) ≡ false
          → foreach_loop callback (suc fuel) at_most block none (at items pos) v
            ≡ foreach_loop callback fuel at_most block none (at items (pos + length buf)) seen
      unfolding foreach_loop record_read goes_back
      loop-more e = rw (foreach_loop, e) refl

      visit-split :
          v.stopped ≡ false
          → visit callback (drop pos items) v ≡ after (drop block (drop pos items)) v seen
      visit-split h =
          ap (λ t. visit callback t v) (sym (take-append-drop block (drop pos items)))
          ∙ visit-append buf (drop block (drop pos items)) v h

    foreach_loop-visit :
        (fuel : ℕ) (items : List A) (pos : ℕ) (v : Visited callback)
        → v.stopped ≡ false
        → length (drop pos items) < fuel
        → foreach_loop callback fuel at_most block none (at items pos) v
          ≡ ok (visit callback (drop pos items) v)
    foreach_loop-visit zero items pos v h f = absurd (omega (arith, f))
    foreach_loop-visit (suc fuel) items pos v h f =
        let rest = drop pos items in
        let w = visit callback (take block rest) v in
        let split = visit-split fuel items pos v h in
        elim (Bool-cases w.stopped) [
          | inl stopped ↦
              let ends : (w.stopped || not (length (take block rest) == block)) ≡ true =
                ground (arith, stopped) in
              loop-ends fuel items pos v ends ∙ ap ok (sym (split ∙ rw stopped refl))
          | inr runs ↦ elim (Bool-cases (length (take block rest) == block)) [
            | inr short ↦
                let ends : (w.stopped || not (length (take block rest) == block)) ≡ true =
                  ground (arith, short) in
                let all : take block rest ≡ rest =
                  take-all block rest (ground (arith, short, length-take block rest)) in
                loop-ends fuel items pos v ends ∙ ap (λ t. ok (visit callback t v)) all
            | inl full ↦
                let more : (w.stopped || not (length (take block rest) == block)) ≡ false =
                  ground (arith, runs, full) in
                let behind : drop block rest ≡ drop (pos + length (take block rest)) items =
                  drop-drop pos block items ∙ ap (λ n. drop n items) (ground (arith, full)) in
                let fewer : length (drop (pos + length (take block rest)) items) < fuel = omega (
                  arith,
                  f,
                  some_fit,
                  ap length (sym behind),
                  length-drop block rest,
                  full_block full,
                ) in
                loop-more fuel items pos v more
                ∙ (foreach_loop-visit fuel items (pos + length (take block rest)) w runs fewer
                    ∙ ap ok
                        (ap (λ t. visit callback t w) (sym behind) ∙ sym (split ∙ rw runs refl)))
          ]
        ]
      where
        full_block :
            (length (take block (drop pos items)) == block) ≡ true → block ≤ length (drop pos items)
        full_block e = ground (arith, e, length-take block (drop pos items))

  -- Where a block holds a record and no current record is given, record_foreach ends, and has called the
  -- callback for the records from the offset on, in order, up to the end or to the first for which the
  -- callback asks for the end.
  pub record_foreach_lem :
      (at_most : A → A → Bool) (rlen : ℕ) (items : List A) (pos offset : ℕ) (args : S)
      → 0 < record_buffer_size / rlen
      → (w : Visited callback) × (record_foreach callback at_most rlen
            (record { items = items; pos = pos })
            none
            offset
            args
          ≡ ok w)
        × Walks (drop offset items) offset 0 args w
  unfolding record_foreach record_seek
  record_foreach_lem at_most rlen items pos offset args h = (
    visit callback (drop offset items)
        (record { stopped = false; matched = 0; offset = offset; args = args }),
    foreach_loop-visit at_most (record_buffer_size / rlen) h (length items + 2) items offset
        (record { stopped = false; matched = 0; offset = offset; args = args }) refl
        (omega (arith, length-drop offset items)),
    visit-Walks (drop offset items) offset 0 args,
  )

  loop-back :
      (at_most : A → A → Bool) (block fuel : ℕ) (items : List A) (pos : ℕ) (ptr : A)
      (v : Visited callback)
      → goes_back callback at_most (some ptr) (take block (drop pos items)) ≡ true
      → (length (take block (drop pos items)) == block) ≡ false
      → foreach_loop callback
          (suc fuel)
          at_most
          block
          (some ptr)
          (record { items = items; pos = pos })
          v
        ≡ ok (record v { offset = 0 })
  unfolding foreach_loop record_read
  loop-back at_most block fuel items pos ptr v back short = rw (foreach_loop, back, short) refl

  -- Where less than a block stands behind the offset and the first record there is greater than the
  -- current one, or there is none, the search goes back to the head of the file and ends there: no record
  -- is visited.
  pub foreach_visits_none :
      (at_most : A → A → Bool) (rlen : ℕ) (items : List A) (pos offset : ℕ) (ptr : A) (args : S)
      → length (drop offset items) < record_buffer_size / rlen
      → goes_back callback at_most (some ptr) (drop offset items) ≡ true
      → record_foreach callback at_most rlen
          (record { items = items; pos = pos })
          (some ptr)
          offset
          args
        ≡ ok (record { stopped = false; matched = 0; offset = 0; args = args })
  unfolding record_foreach record_seek
  foreach_visits_none at_most rlen items pos offset ptr args short back =
      let block : ℕ = record_buffer_size / rlen in
      let start : Visited callback = record {
        stopped = false;
        matched = 0;
        offset = offset;
        args = args;
      } in
      let all : take block (drop offset items) ≡ drop offset items =
        take-all block (drop offset items) (omega (arith, short)) in
      let fuel : length items + 2 ≡ suc (length items + 1) = omega arith in
      ap
        (λ n.
          foreach_loop callback n at_most block (some ptr) (record { items = items; pos = offset })
            start)
        fuel
      ∙ loop-back at_most block (length items + 1) items offset ptr start
          (ap (goes_back callback at_most (some ptr)) all ∙ back)
          (ap (λ t. length t == block) all ∙ ground (arith, short))

  -- The records from the last one on, each with its offset, and the argument after calls for such pairs.
  unfoldable pub backwards : (from : ℕ) → List A → List (ℕ × A)
  backwards from [] = []
  backwards from (x ∷ xs) = backwards (from + 1) xs ++ (from, x) ∷ []

  unfoldable pub calls : List (ℕ × A) → S → S
  calls [] s = s
  calls ((i, x) ∷ ps) s = calls ps (callback s x i).args

  calls-append : (ps qs : List (ℕ × A)) (s : S) → calls (ps ++ qs) s ≡ calls qs (calls ps s)
  unfolding calls
  calls-append [] qs s = refl
  calls-append ((i, x) ∷ ps) qs s = calls-append ps qs (callback s x i).args

  module _ (always : (s : S) (x : A) (i : ℕ) → (callback s x i).result ≡ callback_match) where
    -- Nothing breaks off, and each record is visited and counted.
    record Counts (offset : ℕ) (xs : List A) (v w : Visited callback) : Type 0 where
      runs : w.stopped ≡ false
      count : w.matched ≡ v.matched + length xs
      visited : w.args ≡ calls (backwards offset xs) v.args

    visit_back-Counts :
        (xs : List A) (offset : ℕ) (v : Visited callback)
        → v.stopped ≡ false
        → Counts offset xs v (visit_back callback xs offset v)
    unfolding visit_back backwards calls
    visit_back-Counts [] offset v h = record { runs = h; count = omega arith; visited = refl }
    visit_back-Counts (x ∷ xs) offset v h =
        let w = visit_back callback xs (offset + 1) v in
        let c = visit_back-Counts xs (offset + 1) v h in
        rw (visit_back, c.runs, always w.args x offset)
          (record {
            runs = refl;
            count = omega (arith, c.count);
            visited =
                ap (λ s. (callback s x offset).args) c.visited
                ∙ sym (calls-append (backwards (offset + 1) xs) ((offset, x) ∷ []) v.args);
          })

    module _ (block fuel : ℕ) (f : File A) (offset : ℕ) (v : Visited callback) where
      abbrev block_at : List A
      block_at = take block (drop (offset - block) f.items)

      abbrev counted : Visited callback
      counted = visit_back callback block_at (offset - block) v

      reverse-ends :
          (length block_at == 0) ≡ false
          → (counted.stopped || offset - block == 0) ≡ true
          → reverse_loop callback (suc fuel) block f offset v ≡ ok counted
      unfolding reverse_loop record_read_after record_read record_seek
      reverse-ends full e = rw (reverse_loop, full, e) refl

      reverse-more :
          (length block_at == 0) ≡ false
          → (counted.stopped || offset - block == 0) ≡ false
          → reverse_loop callback (suc fuel) block f offset v
            ≡ reverse_loop callback fuel block
                (record f { pos = offset - block + length block_at })
                (offset - block)
                counted
      unfolding reverse_loop record_read_after record_read record_seek
      reverse-more full e = rw (reverse_loop, full, e) refl

    -- In a file of more than one block and less than two, a callback that always matches is called for
    -- the last block of records from its end, and then for the whole first block from its end, so that
    -- the records that both blocks have are visited and counted twice.
    pub reverse_visits_twice :
        (rlen more : ℕ) (f : File A) (args : S)
        → length f.items ≡ record_buffer_size / rlen + more
        → 0 < more
        → more < record_buffer_size / rlen
        → (w : Visited callback) × (record_reverse_foreach callback rlen f args ≡ ok w)
          × (w.matched ≡ 2 * (record_buffer_size / rlen))
          × (w.args
              ≡ calls
                  (backwards more (drop more f.items)
                    ++ backwards 0 (take (record_buffer_size / rlen) f.items))
                  args)
    unfolding record_reverse_foreach record_count
    reverse_visits_twice rlen more f args size some_more below =
        let block : ℕ = record_buffer_size / rlen in
        let start : Visited callback = record {
          stopped = false;
          matched = 0;
          offset = 0;
          args = args;
        } in
        let n : ℕ = length f.items in
        let base : n - block ≡ more = omega (arith, size) in
        let one = block_at block n f n start in
        let one_size : length one ≡ block = ground (
          arith,
          length-take block (drop (n - block) f.items),
          length-drop (n - block) f.items,
          size,
        ) in
        let w = counted block n f n start in
        let c = visit_back-Counts one (n - block) start refl in
        let f2 : File A = record f { pos = n - block + length one } in
        let two = block_at block (n - 1) f2 (n - block) w in
        let two_size : length two ≡ block = ground (
          arith,
          length-take block (drop (n - block - block) f.items),
          length-drop (n - block - block) f.items,
          size,
          below,
        ) in
        let w2 = counted block (n - 1) f2 (n - block) w in
        let c2 = visit_back-Counts two (n - block - block) w c.runs in
        let first_full : (length one == 0) ≡ false = ground (arith, one_size, below) in
        let second_full : (length two == 0) ≡ false = ground (arith, two_size, below) in
        let goes_on : (w.stopped || n - block == 0) ≡ false =
          ground (arith, c.runs, base, some_more) in
        let ends : (w2.stopped || n - block - block == 0) ≡ true =
          ground (arith, c2.runs, base, below) in
        let zero_base : n - block - block ≡ 0 = omega (arith, base, below) in
        let last_block : backwards (n - block - block) two ≡ backwards 0 (take block f.items) =
          ap (λ k. backwards k (take block (drop k f.items))) zero_base in
        let first_block : backwards (n - block) one ≡ backwards more (drop more f.items) =
          ap (λ k. backwards k (take block (drop k f.items))) base
          ∙ ap (backwards more) (
              take-all block (drop more f.items) (omega (arith, length-drop more f.items, size))) in
        let first : n + 1 ≡ suc n = omega arith in
        let second : n ≡ suc (n - 1) = omega (arith, size, some_more) in
        (
          w2,
          ap (λ k. reverse_loop callback k block f n start) first
              ∙ (reverse-more block n f n start first_full goes_on
                  ∙ (ap (λ k. reverse_loop callback k block f2 (n - block) w) second
                      ∙ reverse-ends block (n - 1) f2 (n - block) w second_full ends)),
          omega (arith, c2.count, c.count, one_size, two_size),
          c2.visited
              ∙ (ap (λ s. calls (backwards (n - block - block) two) s) c.visited
                  ∙ (ap (λ ps. calls ps (calls (backwards (n - block) one) args)) last_block
                      ∙ (ap (λ ps. calls (backwards 0 (take block f.items)) (calls ps args))
                            first_block
                          ∙ sym (
                              calls-append (backwards more (drop more f.items))
                                (backwards 0 (take block f.items)) args)))),
        )
