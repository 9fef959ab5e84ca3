-- ===== src/Records/Numbered.antt =====
-- lib/record.c: the functions that number the records of a file from 1, `search_record`, `get_record`,
-- `get_records` and `substitute_record`.
use fbbs.Common.{
  get_elem?-append_left, inr, length-replicate, inl, get_elem?-set_self, length-append,
  get_elem?-set_ne, All, if◌then◌else◌, Bool-cases, append_assoc, ℕ, zero, suc, ◌+◌, ◌-◌, ◌≤◌, ◌<◌,
  ◌≡◌, ◌≢◌, refl, sym, ap, ◌∙◌, Bool, true, false, Option, none, some, List, [], ◌∷◌, ◌++◌, arith,
  length, get_elem?, set, take, drop, replicate, ltb,
}

module _ {A : Type 0} where
  -- The loop of `search_record` from the record with the number `i + 1` on.
  unfoldable pub search_loop : (test : A → Bool) → (i : ℕ) → List A → Option (ℕ × A)
  search_loop test i [] = none
  search_loop test i (x ∷ xs) = if test x then some (i + 1, x) else search_loop test (i + 1) xs

  -- `search_record`: the number and the record, or 0 as none.
  unfoldable pub search_record : (test : A → Bool) → List A → Option (ℕ × A)
  unfolding search_loop
  search_record test items = search_loop test 0 items

  -- `get_record`; `lseek` refuses the place before the first record.
  unfoldable pub get_record : List A → (id : ℕ) → Option A
  get_record items zero = none
  get_record items (suc place) = get_elem? items place

  unfoldable pub get_records : List A → (id number : ℕ) → List A
  get_records items zero number = []
  get_records items (suc place) number = take number (drop place items)

  -- `substitute_record`; behind the end, the file is filled by blank records. -1 is none.
  unfoldable pub substitute_record : (blank : A) → List A → (a : A) → (id : ℕ) → Option (List A)
  substitute_record blank items a zero = none
  substitute_record blank items a (suc place) = some (
      if ltb place (length items)
      then set items place a
      else items ++ (replicate (place - length items) blank ++ a ∷ []))

  -- The record found is the first that passes the test, and its number is the one that gets it.
  pub record Finds (test : A → Bool) (items : List A) (i n : ℕ) (a : A) : Type 0 where
    pub front : List A
    pub behind : List A
    pub whole : items ≡ front ++ a ∷ behind
    pub numbered : n ≡ i + length front + 1
    pub others : All (λ x. test x ≡ false) front
    pub passes : test a ≡ true

  abbrev pub Searched : (A → Bool) → List A → ℕ → Option (ℕ × A) → Type 0
  Searched test items i none = All (λ x. test x ≡ false) items
  Searched test items i (some (n, a)) = Finds test items i n a

  Searched-cons :
      (test : A → Bool) (x : A) (xs : List A) (i : ℕ) (r : Option (ℕ × A))
      → test x ≡ false
      → Searched test xs (i + 1) r
      → Searched test (x ∷ xs) i r
  Searched-cons test x xs i none h s = (h, s)
  Searched-cons test x xs i (some (n, a)) h s = record {
    front = x ∷ s.front;
    behind = s.behind;
    whole = ap (λ t. x ∷ t) s.whole;
    numbered = omega (arith, s.numbered);
    others = (h, s.others);
    passes = s.passes;
  }

  search_loop-Searched :
      (test : A → Bool) (i : ℕ) (items : List A) → Searched test items i (search_loop test i items)
  unfolding search_loop
  search_loop-Searched test i [] = tt
  search_loop-Searched test i (x ∷ xs) = elim (Bool-cases (test x)) [
    | inl passes ↦ rw passes (record {
      front = [];
      behind = xs;
      whole = refl;
      numbered = omega arith;
      others = tt;
      passes = passes;
    })
    | inr fails ↦ rw fails (
        Searched-cons test x xs i (search_loop test (i + 1) xs) fails
          (search_loop-Searched test (i + 1) xs))
  ]

  -- search_record returns the first record that passes the test, with its number counted from 1; where it
  -- returns 0, no record passes.
  pub search_record_lem :
      (test : A → Bool) (items : List A) → Searched test items 0 (search_record test items)
  unfolding search_record
  search_record_lem test items = search_loop-Searched test 0 items

  get_elem?-end :
      (xs : List A) (a : A) (i : ℕ) → i ≡ length xs → get_elem? (xs ++ a ∷ []) i ≡ some a
  get_elem?-end [] a i h = rw h refl
  get_elem?-end (x ∷ xs) a zero h = absurd (omega (arith, h))
  get_elem?-end (x ∷ xs) a (suc i) h = get_elem?-end xs a i (omega (arith, h))

  -- The record is got by its number, and no other record of the file is changed.
  pub record Replaced (items : List A) (a : A) (id : ℕ) (out : List A) : Type 0 where
    pub new : get_record out id ≡ some a
    pub old : (n : ℕ) → n ≤ length items → n ≢ id → get_record out n ≡ get_record items n

  set-Replaced :
      (items : List A) (a : A) (place : ℕ)
      → place < length items
      → Replaced items a (suc place) (set items place a)
  unfolding get_record
  set-Replaced items a place h = record { new = get_elem?-set_self items place a h; old = old }
    where
      old :
          (n : ℕ)
          → n ≤ length items
          → n ≢ suc place
          → get_record (set items place a) n ≡ get_record items n
      old zero l ne = refl
      old (suc n) l ne = get_elem?-set_ne items a (λ e. ne (omega (arith, e)))

  append-Replaced :
      (blank : A) (items : List A) (a : A) (place : ℕ)
      → length items ≤ place
      → Replaced items a (suc place) (items ++ (replicate (place - length items) blank ++ a ∷ []))
  unfolding get_record
  append-Replaced blank items a place h = record { new = new; old = old }
    where
      holes : List A
      holes = replicate (place - length items) blank

      new : get_elem? (items ++ (holes ++ a ∷ [])) place ≡ some a
      new =
          ap (λ t. get_elem? t place) (sym (append_assoc items holes (a ∷ [])))
          ∙ get_elem?-end (items ++ holes) a place (
              omega (
                arith,
                h,
                length-append items holes,
                length-replicate (place - length items) blank,
              ))

      old :
          (n : ℕ)
          → n ≤ length items
          → n ≢ suc place
          → get_record (items ++ (holes ++ a ∷ [])) n ≡ get_record items n
      old zero l ne = refl
      old (suc n) l ne = get_elem?-append_left items (holes ++ a ∷ []) n (omega (arith, l))

  -- For a number from 1 on, substitute_record succeeds, and then get_record gets the new record by this
  -- number, and by any other number up to that of the last record what it got before.
  pub substitute_record_lem :
      (blank : A) (items : List A) (a : A) (id : ℕ)
      → 0 < id
      → (out : List A) × (substitute_record blank items a id ≡ some out) × Replaced items a id out
  unfolding substitute_record
  substitute_record_lem blank items a zero h = absurd (omega (arith, h))
  substitute_record_lem blank items a (suc place) h = elim (Bool-cases (ltb place (length items))) [
    | inl inside ↦
        rw inside (set items place a, refl, set-Replaced items a place (ground (arith, inside)))
    | inr behind ↦ rw behind (
      items ++ (replicate (place - length items) blank ++ a ∷ []),
      refl,
      append-Replaced blank items a place (ground (arith, behind)),
    )
  ]
