-- ===== src/Records/Merge/Sorted.antt =====
-- `record_merge` leaves the file in order, with all records.
use fbbs.Common.{
  subst, ℕ, zero, suc, ◌+◌, ◌<◌, ◌≡◌, refl, sym, ap, ◌∙◌, append-nil, Bool, true, false, List, [],
  ◌∷◌, ◌++◌, arith, ◌==◌, length, set, replicate, length-replicate, inl, inr, Bool-cases,
}
use fbbs.Common.Run.{Run, ok}
use fbbs.Records.{item_at}
use fbbs.Records.Change.{merge_loop, record_merge}
use fbbs.Records.Merge.{
  rev, length-rev, rev-rev, Last, Last-of, put-last, rev-shape, item_at-rev, tally, AllAtMost,
  AllAtLeast, IsUp, IsDown, Below, Below-cons, rev-IsUp, Ordered, Merges,
}

-- A record written into the last free place of a file.
fill :
    {A : Type 0} (xs done hole items : List A) (n k : ℕ) (v : A) (last : Last hole n)
    → items ≡ xs ++ (hole ++ done)
    → k ≡ length xs + n
    → set items k v ≡ xs ++ (last.front ++ v ∷ done)
fill xs done hole items n k v last ei ek =
    ap (λ t. set t k v) (ei ∙ ap (λ u. xs ++ (u ++ done)) last.whole)
    ∙ (ap (λ j. set (xs ++ ((last.front ++ last.item ∷ []) ++ done)) j v)
          (ek ∙ ap (λ j. length xs + j) (sym last.size))
        ∙ put-last xs last.front done last.item v)

-- A comparison of any two records that is an order.
pub record IsOrder {A : Type 0} (at_most : A → A → Bool) : Type 0 where
  pub total : (a b : A) → at_most a b ≡ false → at_most b a ≡ true
  pub trans : (a b c : A) → at_most a b ≡ true → at_most b c ≡ true → at_most a c ≡ true

module _ {A : Type 0} (at_most : A → A → Bool) (order : IsOrder at_most) where
  AllAtMost-trans :
      (xs : List A) (b c : A) → AllAtMost at_most xs b → at_most b c ≡ true → AllAtMost at_most xs c
  AllAtMost-trans [] b c h l = tt
  AllAtMost-trans (x ∷ xs) b c h l = (order.trans x b c h.0 l, AllAtMost-trans xs b c h.1 l)

  -- The greatest of the new records is moved in front of those that are done.
  Ordered-new :
      (fs ps done : List A) (p : A)
      → AllAtMost at_most fs p
      → Ordered at_most fs (p ∷ ps) done
      → Ordered at_most fs ps (p ∷ done)
  Ordered-new fs ps done p h o = record {
    fs_down = o.fs_down;
    ps_down = o.ps_down.1;
    done_up = (o.ps_below.0, o.done_up);
    fs_below = Below-cons at_most fs done p h o.fs_below;
    ps_below = Below-cons at_most ps done p o.ps_down.0 o.ps_below.1;
  }

  Ordered-old :
      (fs ps done : List A) (f : A)
      → AllAtMost at_most ps f
      → Ordered at_most (f ∷ fs) ps done
      → Ordered at_most fs ps (f ∷ done)
  Ordered-old fs ps done f h o = record {
    fs_down = o.fs_down.1;
    ps_down = o.ps_down;
    done_up = (o.fs_below.0, o.done_up);
    fs_below = Below-cons at_most fs done f o.fs_down.0 o.fs_below.1;
    ps_below = Below-cons at_most ps done f h o.ps_below;
  }

  tally-rev :
      (test : A → Bool) (xs ys : List A) → tally test (rev xs ++ ys) ≡ tally test xs + tally test ys
  unfolding tally
  tally-rev test [] ys = unfold rev in omega arith
  tally-rev test (x ∷ xs) ys =
      ap (tally test) (rev-shape x xs ys) ∙ omega (arith, tally-rev test xs (x ∷ ys))

  Merges-new :
      (fs ps done : List A) (p : A) (m n : Run (List A))
      → n ≡ m
      → Merges at_most fs ps (p ∷ done) m
      → Merges at_most fs (p ∷ ps) done n
  unfolding tally
  Merges-new fs ps done p m n e r = record {
    out = r.out;
    run = e ∙ r.run;
    up = r.up;
    count = λ test. omega (arith, r.count test);
  }

  Merges-old :
      (fs ps done : List A) (f : A) (m n : Run (List A))
      → n ≡ m
      → Merges at_most fs ps (f ∷ done) m
      → Merges at_most (f ∷ fs) ps done n
  unfolding tally
  Merges-old fs ps done f m n e r = record {
    out = r.out;
    run = e ∙ r.run;
    up = r.up;
    count = λ test. omega (arith, r.count test);
  }

  -- The rounds of the loop.
  module _ (fuel : ℕ) (ptr items : List A) (q : ℕ) (p : A) (at : item_at ptr q ≡ ok p) where
    round-first :
        merge_loop (suc fuel) at_most ptr zero (suc q) items
        ≡ merge_loop fuel at_most ptr zero q (set items q p)
    unfolding merge_loop
    round-first = rw at refl

    module _ (s : ℕ) (f : A) (old : item_at items s ≡ ok f) where
      round-new :
          at_most f p ≡ true
          → merge_loop (suc fuel) at_most ptr (suc s) (suc q) items
            ≡ merge_loop fuel at_most ptr (suc s) q (set items (suc s + q) p)
      unfolding merge_loop
      round-new e = rw (at, old, e) refl

      round-old :
          at_most f p ≡ false
          → merge_loop (suc fuel) at_most ptr (suc s) (suc q) items
            ≡ merge_loop fuel at_most ptr s (suc q) (set items (s + suc q) f)
      unfolding merge_loop
      round-old e = rw (at, old, e) refl

  merge_loop-Merges :
      (fuel : ℕ) (fs ps done used hole ptr items : List A)
      → length fs + length ps < fuel
      → length hole ≡ length ps
      → ptr ≡ rev ps ++ used
      → items ≡ rev fs ++ (hole ++ done)
      → Ordered at_most fs ps done
      → Merges at_most fs ps done (merge_loop fuel at_most ptr (length fs) (length ps) items)
  merge_loop-Merges zero fs ps done used hole ptr items l n ep ei o = absurd (omega (arith, l))
  merge_loop-Merges (suc fuel) fs [] done used [] ptr items l n ep ei o = record {
    out = items;
    run = unfold merge_loop in refl;
    up = subst (IsUp at_most) (sym ei) (rev-IsUp at_most fs done o.fs_down o.done_up o.fs_below);
    count = λ test. ap (tally test) ei ∙ (tally-rev test fs done ∙ unfold tally in omega arith);
  }
  merge_loop-Merges (suc fuel) fs [] done used (h ∷ hole) ptr items l n ep ei o =
      absurd (ground (arith, n))
  merge_loop-Merges (suc fuel) [] (p ∷ ps) done used hole ptr items l n ep ei o =
      let last = Last-of hole (length ps) n in
      let at : item_at ptr (length ps) ≡ ok p =
        ap (λ t. item_at t (length ps)) ep ∙ item_at-rev p ps used in
      let written : set items (length ps) p ≡ rev [] ++ (last.front ++ p ∷ done) =
        fill (rev []) done hole items (length ps) (length ps) p last ei
          (omega (arith, length-rev {A = A} [])) in
      Merges-new [] ps done p _ _ (round-first fuel ptr items (length ps) p at) (
        merge_loop-Merges fuel [] ps (p ∷ done) (p ∷ used) last.front ptr (set items (length ps) p)
          (omega (arith, l)) last.size (ep ∙ rev-shape p ps used) written
          (Ordered-new [] ps done p tt o))
  merge_loop-Merges (suc fuel) (f ∷ fs) (p ∷ ps) done used hole ptr items l n ep ei o =
      let last = Last-of hole (length ps) n in
      let at : item_at ptr (length ps) ≡ ok p =
        ap (λ t. item_at t (length ps)) ep ∙ item_at-rev p ps used in
      let old : item_at items (length fs) ≡ ok f =
        ap (λ t. item_at t (length fs)) ei ∙ item_at-rev f fs (hole ++ done) in
      elim (Bool-cases (at_most f p)) [
        | inl new ↦
            let place : suc (length fs) + length ps ≡ length (rev (f ∷ fs)) + length ps =
              omega (arith, length-rev (f ∷ fs)) in
            let written =
              fill (rev (f ∷ fs)) done hole items (length ps) (suc (length fs) + length ps) p last
                ei place in
            Merges-new (f ∷ fs) ps done p _ _
              (round-new fuel ptr items (length ps) p at (length fs) f old new)
              (merge_loop-Merges fuel (f ∷ fs) ps (p ∷ done) (p ∷ used) last.front ptr
                (set items (suc (length fs) + length ps) p) (omega (arith, l)) last.size
                (ep ∙ rev-shape p ps used) written
                (Ordered-new (f ∷ fs) ps done p (new, AllAtMost-trans fs f p o.fs_down.0 new) o))
        | inr keeps ↦
            let less : at_most p f ≡ true = order.total f p keeps in
            let place : length fs + suc (length ps) ≡ length (rev (f ∷ fs)) + length ps =
              omega (arith, length-rev (f ∷ fs)) in
            let written =
              fill (rev (f ∷ fs)) done hole items (length ps) (length fs + suc (length ps)) f last
                ei place in
            Merges-old fs (p ∷ ps) done f _ _
              (round-old fuel ptr items (length ps) p at (length fs) f old keeps)
              (merge_loop-Merges fuel fs (p ∷ ps) (f ∷ done) used (f ∷ last.front) ptr
                (set items (length fs + suc (length ps)) f) (omega (arith, l)) (ap suc last.size) ep
                (written ∙ rev-shape f fs (last.front ++ f ∷ done))
                (Ordered-old fs (p ∷ ps) done f (less, AllAtMost-trans ps p f o.ps_down.0 less) o))
      ]

  All-snoc :
      (xs : List A) (x y : A)
      → AllAtMost at_most xs y
      → at_most x y ≡ true
      → AllAtMost at_most (xs ++ x ∷ []) y
  All-snoc [] x y h l = (l, tt)
  All-snoc (z ∷ xs) x y h l = (h.0, All-snoc xs x y h.1 l)

  IsDown-snoc :
      (xs : List A) (x : A)
      → IsDown at_most xs
      → AllAtLeast at_most x xs
      → IsDown at_most (xs ++ x ∷ [])
  IsDown-snoc [] x d h = (tt, tt)
  IsDown-snoc (y ∷ xs) x d h = (All-snoc xs x y d.0 h.0, IsDown-snoc xs x d.1 h.1)

  AllAtLeast-rev : (x : A) (xs : List A) → AllAtLeast at_most x xs → AllAtLeast at_most x (rev xs)
  unfolding rev
  AllAtLeast-rev x [] h = tt
  AllAtLeast-rev x (y ∷ xs) h = snoc (rev xs) (AllAtLeast-rev x xs h.1)
    where
      snoc : (ys : List A) → AllAtLeast at_most x ys → AllAtLeast at_most x (ys ++ y ∷ [])
      snoc [] k = (h.0, tt)
      snoc (z ∷ ys) k = (k.0, snoc ys k.1)

  rev-IsDown : (xs : List A) → IsUp at_most xs → IsDown at_most (rev xs)
  unfolding rev
  rev-IsDown [] u = tt
  rev-IsDown (x ∷ xs) u = IsDown-snoc (rev xs) x (rev-IsDown xs u.1) (AllAtLeast-rev x xs u.0)

  Below-nil : (xs : List A) → Below at_most xs []
  Below-nil [] = tt
  Below-nil (x ∷ xs) = (tt, Below-nil xs)

  tally-empty : (test : A → Bool) → tally test ([]) ≡ 0
  unfolding tally
  tally-empty test = refl

  tally-nil : (test : A → Bool) (xs : List A) → length xs ≡ 0 → tally test xs ≡ 0
  unfolding tally
  tally-nil test [] h = refl
  tally-nil test (x ∷ xs) h = absurd (ground (arith, h))

  tally-all : (test : A → Bool) (xs : List A) → tally test (rev xs) ≡ tally test xs
  tally-all test xs =
      ap (tally test) (sym (append-nil (rev xs)))
      ∙ (tally-rev test xs [] ∙ omega (arith, tally-empty test))

  -- Records that are merged into a file in order leave it in order, with the records of both and no
  -- others, each as often as they have it; `qsort` puts the new ones in order and keeps their number.
  pub record_merge_lem :
      (qsort : List A → List A) (blank : A) (items ptr : List A)
      → IsUp at_most items
      → IsUp at_most (qsort ptr)
      → ((test : A → Bool) → tally test (qsort ptr) ≡ tally test ptr)
      → (out : List A) × (record_merge qsort at_most blank items ptr ≡ ok out)
        × IsUp at_most out
        × ((test : A → Bool) → tally test out ≡ tally test items + tally test ptr)
  unfolding record_merge
  record_merge_lem qsort blank items ptr u s c = elim (Bool-cases (length ptr == 0)) [
    | inl empty ↦
        rw empty (items, refl, u, λ test. omega (arith, tally-nil test ptr (ground (arith, empty))))
    | inr full ↦
        let sorted = qsort ptr in
        let holes = replicate (length sorted) blank in
        let m =
          merge_loop-Merges (length items + length sorted + 1) (rev items) (rev sorted) [] [] holes
            sorted (items ++ holes) (omega (arith, length-rev items, length-rev sorted))
            (length-replicate (length sorted) blank ∙ sym (length-rev sorted))
            (sym (append-nil (rev (rev sorted)) ∙ rev-rev sorted))
            (sym (
              ap (λ t. rev (rev items) ++ t) (append-nil holes)
              ∙ ap (λ t. t ++ holes) (rev-rev items)))
            (record {
              fs_down = rev-IsDown items u;
              ps_down = rev-IsDown sorted s;
              done_up = tt;
              fs_below = Below-nil (rev items);
              ps_below = Below-nil (rev sorted);
            }) in
        let run : merge_loop (length items + length sorted + 1) at_most sorted (length items)
              (length sorted) (items ++ holes)
            ≡ ok m.out =
          ap
            (λ n.
              merge_loop (length items + length sorted + 1) at_most sorted n (length sorted)
                (items ++ holes))
            (sym (length-rev items))
          ∙ (ap
                (λ n.
                  merge_loop (length items + length sorted + 1) at_most sorted (length (rev items))
                    n (items ++ holes))
                (sym (length-rev sorted))
              ∙ m.run) in
        rw full (
          m.out,
          run,
          m.up,
          λ test.
              m.count test
              ∙ omega
                  (arith, tally-all test items, tally-all test sorted, c test, tally-empty test),
        )
  ]
