-- ===== src/Records/Merge.antt =====
-- `record_merge` in the file against the merge of two lists.
pub mod Sorted
use fbbs.Common.{
  some, subst, All, ℕ, zero, suc, ◌+◌, ◌-◌, ◌≤◌, ◌<◌, ◌≡◌, refl, sym, ap, ◌∙◌, append_assoc,
  append-nil, Bool, true, false, List, [], ◌∷◌, ◌++◌, arith, ◌==◌, if◌then◌else◌, length, set,
  get_elem?, replicate, length-replicate, length-append, inl, inr, Bool-cases,
}
use fbbs.Common.Run.{Run, ok, ◌>>=◌}
use fbbs.Records.{item_at}
use fbbs.Records.Apply.{set-append, get_elem?-at}
use fbbs.Records.Change.{merge_loop, record_merge}

unfoldable pub rev {ℓ} : {A : Type ℓ} → List A → List A
rev [] = []
rev (x ∷ xs) = rev xs ++ x ∷ []

pub length-rev {ℓ} : {A : Type ℓ} (xs : List A) → length (rev xs) ≡ length xs
unfolding rev
length-rev [] = refl
length-rev (x ∷ xs) = length-append (rev xs) (x ∷ []) ∙ omega (arith, length-rev xs)

rev-append {ℓ} : {A : Type ℓ} (xs ys : List A) → rev (xs ++ ys) ≡ rev ys ++ rev xs
unfolding rev
rev-append [] ys = sym (append-nil (rev ys))
rev-append (x ∷ xs) ys =
    ap (λ t. t ++ x ∷ []) (rev-append xs ys) ∙ append_assoc (rev ys) (rev xs) (x ∷ [])

pub rev-rev {ℓ} : {A : Type ℓ} (xs : List A) → rev (rev xs) ≡ xs
unfolding rev
rev-rev [] = refl
rev-rev (x ∷ xs) = rev-append (rev xs) (x ∷ []) ∙ ap (λ t. x ∷ t) (rev-rev xs)

-- A list of a known length that is not empty has a last item.
pub record Last {A : Type 0} (hole : List A) (n : ℕ) : Type 0 where
  pub front : List A
  pub item : A
  pub whole : hole ≡ front ++ item ∷ []
  pub size : length front ≡ n

pub Last-of : {A : Type 0} (hole : List A) (n : ℕ) → length hole ≡ suc n → Last hole n
Last-of [] n h = absurd (ground (arith, h))
Last-of (x ∷ []) n h = record { front = []; item = x; whole = refl; size = omega (arith, h) }
Last-of (x ∷ y ∷ xs) n h =
    let l = Last-of (y ∷ xs) (length xs) refl in
    record {
      front = x ∷ l.front;
      item = l.item;
      whole = ap (λ t. x ∷ t) l.whole;
      size = omega (arith, l.size, h);
    }

-- A record written into the last free place.
pub put-last :
    {A : Type 0} (xs front done : List A) (h v : A)
    → set (xs ++ ((front ++ h ∷ []) ++ done)) (length xs + length front) v
      ≡ xs ++ (front ++ v ∷ done)
put-last xs front done h v =
    let shape : xs ++ ((front ++ h ∷ []) ++ done) ≡ (xs ++ front) ++ h ∷ done =
      ap (λ t. xs ++ t) (append_assoc front (h ∷ []) done)
      ∙ sym (append_assoc xs front (h ∷ done)) in
    ap (λ n. set (xs ++ ((front ++ h ∷ []) ++ done)) n v) (sym (length-append xs front))
    ∙ (ap (λ t. set t (length (xs ++ front)) v) shape
        ∙ (set-append (xs ++ front) done h v ∙ append_assoc xs front (v ∷ done)))

pub rev-shape : {A : Type 0} (x : A) (xs ys : List A) → rev (x ∷ xs) ++ ys ≡ rev xs ++ x ∷ ys
unfolding rev
rev-shape x xs ys = append_assoc (rev xs) (x ∷ []) ys

pub item_at-rev :
    {A : Type 0} (x : A) (xs ys : List A) → item_at (rev (x ∷ xs) ++ ys) (length xs) ≡ ok x
unfolding item_at
item_at-rev x xs ys =
    let at : get_elem? (rev (x ∷ xs) ++ ys) (length xs) ≡ some x =
      ap (λ t. get_elem? t (length xs)) (rev-shape x xs ys)
      ∙ (ap (get_elem? (rev xs ++ x ∷ ys)) (sym (length-rev xs)) ∙ get_elem?-at (rev xs) ys x) in
    rw (item_at, at) refl

-- How many records pass a test.
unfoldable pub tally : {A : Type 0} → (test : A → Bool) → List A → ℕ
tally test [] = 0
tally test (x ∷ xs) = (if test x then 1 else 0) + tally test xs

module _ {A : Type 0} (at_most : A → A → Bool) where
  abbrev pub AllAtMost : List A → A → Type 0
  AllAtMost xs y = All (λ x. at_most x y ≡ true) xs

  abbrev pub AllAtLeast : A → List A → Type 0
  AllAtLeast x ys = All (λ y. at_most x y ≡ true) ys

  -- In order, and in the reverse order.
  abbrev pub IsUp : List A → Type 0
  IsUp [] = Unit
  IsUp (x ∷ xs) = AllAtLeast x xs × IsUp xs

  abbrev pub IsDown : List A → Type 0
  IsDown [] = Unit
  IsDown (x ∷ xs) = AllAtMost xs x × IsDown xs

  abbrev pub Below : List A → List A → Type 0
  Below xs ys = All (λ x. AllAtLeast x ys) xs

  pub Below-cons : (xs ys : List A) (y : A) → AllAtMost xs y → Below xs ys → Below xs (y ∷ ys)
  Below-cons [] ys y h b = tt
  Below-cons (x ∷ xs) ys y h b = ((h.0, b.0), Below-cons xs ys y h.1 b.1)

  pub rev-IsUp : (fs done : List A) → IsDown fs → IsUp done → Below fs done → IsUp (rev fs ++ done)
  rev-IsUp [] done d u b = unfold rev in u
  rev-IsUp (f ∷ fs) done d u b =
      subst IsUp (sym (rev-shape f fs done))
        (rev-IsUp fs (f ∷ done) d.1 (b.0, u) (Below-cons fs done f d.0 b.1))

  pub record Ordered (fs ps done : List A) : Type 0 where
    pub fs_down : IsDown fs
    pub ps_down : IsDown ps
    pub done_up : IsUp done
    pub fs_below : Below fs done
    pub ps_below : Below ps done

  -- The file that is left: in order, with the records of all three lists.
  pub record Merges (fs ps done : List A) (m : Run (List A)) : Type 0 where
    pub out : List A
    pub run : m ≡ ok out
    pub up : IsUp out
    pub count :
        (test : A → Bool) → tally test out ≡ tally test fs + (tally test ps + tally test done)
