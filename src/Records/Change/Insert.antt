-- ===== src/Records/Change/Insert.antt =====
-- `insert_record` against insertion into a list.
use fbbs.Common.{
  append_assoc, ℕ, suc, ◌+◌, ◌-◌, ◌<◌, ◌≡◌, refl, sym, ap, ◌∙◌, Bool, true, false, List, [], ◌∷◌,
  ◌++◌, arith, ◌==◌, if◌then◌else◌, length, set, length-append, inl, inr, Bool-cases,
  take-length-append,
}
use fbbs.Records.Apply.{set-append}
use fbbs.Records.Change.{find_place, move_up, insert_record}

module _ {A : Type 0} (check : A → Bool) (blank arg : A) where
  -- The record in front of the first that passes the check.
  unfoldable pub insert_before : List A → List A
  insert_before [] = arg ∷ []
  insert_before (x ∷ xs) = if check x then arg ∷ x ∷ xs else x ∷ insert_before xs

  move_up-cons :
      (x : A) (xs : List A) (i : ℕ) → i < length xs → move_up (x ∷ xs) (suc i) ≡ x ∷ move_up xs i
  unfolding move_up
  move_up-cons x xs i h =
      let size : suc (length xs) - 1 - suc i ≡ length xs - 1 - i = omega (arith, h) in
      let next : suc i + 1 ≡ suc (i + 1) = omega arith in rw (size, next) refl

  move_up-first : (x : A) (xs : List A) → move_up (x ∷ (xs ++ blank ∷ [])) 0 ≡ x ∷ x ∷ xs
  unfolding move_up
  move_up-first x xs =
      let size : suc (length (xs ++ blank ∷ [])) - 1 - 0 ≡ suc (length xs) =
        omega (arith, length-append xs (blank ∷ [])) in
      rw size (ap (λ t. x ∷ x ∷ t) (take-length-append xs (blank ∷ [])))

  move_up-at :
      (front ys : List A) (y : A)
      → move_up (front ++ (y ∷ (ys ++ blank ∷ []))) (length front) ≡ front ++ (y ∷ y ∷ ys)
  move_up-at [] ys y = move_up-first y ys
  move_up-at (x ∷ front) ys y =
      let inside : length front < length (front ++ (y ∷ (ys ++ blank ∷ []))) =
        omega (arith, length-append front (y ∷ (ys ++ blank ∷ []))) in
      move_up-cons x (front ++ (y ∷ (ys ++ blank ∷ []))) (length front) inside
      ∙ ap (λ t. x ∷ t) (move_up-at front ys y)

  -- Where the check first holds.
  record Splits (items : List A) : Type 0 where
    front : List A
    behind : List A
    whole : items ≡ front ++ behind
    place : find_place check items ≡ length front
    spec : insert_before items ≡ front ++ arg ∷ behind

  split : (items : List A) → Splits items
  unfolding find_place insert_before
  split [] = record { front = []; behind = []; whole = refl; place = refl; spec = refl }
  split (x ∷ xs) = elim (Bool-cases (check x)) [
    | inl passes ↦ record {
      front = [];
      behind = x ∷ xs;
      whole = refl;
      place = rw passes refl;
      spec = rw (insert_before, passes) refl;
    }
    | inr fails ↦
        let s = split xs in
        record {
          front = x ∷ s.front;
          behind = s.behind;
          whole = ap (λ t. x ∷ t) s.whole;
          place = rw (find_place, fails) (ap suc s.place);
          spec = rw (insert_before, fails) (ap (λ t. x ∷ t) s.spec);
        }
  ]

  abbrev written : List A → ℕ → List A
  written items iter =
      set (if iter == length items then items ++ blank ∷ [] else move_up (items ++ blank ∷ []) iter)
        iter arg

  written-at :
      (front behind : List A) → written (front ++ behind) (length front) ≡ front ++ arg ∷ behind
  written-at front [] =
      let end : (length front == length (front ++ [])) ≡ true =
        ground (arith, length-append {A = A} front []) in
      rw end (
        ap (λ t. set t (length front) arg) (append_assoc front [] (blank ∷ []))
        ∙ set-append front [] blank arg)
  written-at front (y ∷ ys) =
      let inside : (length front == length (front ++ y ∷ ys)) ≡ false =
        ground (arith, length-append front (y ∷ ys)) in
      rw inside (
        ap (λ t. set (move_up t (length front)) (length front) arg)
          (append_assoc front (y ∷ ys) (blank ∷ []))
        ∙ (ap (λ t. set t (length front) arg) (move_up-at front ys y)
            ∙ set-append front (y ∷ ys) y arg))

  -- The record is inserted in front of the first that passes the check, or at the end.
  pub insert_record_lem :
      (items : List A) → insert_record check blank arg items ≡ insert_before items
  unfolding insert_record
  insert_record_lem items =
      let s = split items in
      ap (written items) s.place
      ∙ (ap (λ t. written t (length s.front)) s.whole ∙ (written-at s.front s.behind ∙ sym s.spec))
