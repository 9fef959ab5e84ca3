-- ===== src/Hash/Iterate.antt =====
-- lib/hash.c: iteration over a table, and its destruction.
use fbbs.Common.{
  subst, take-length-append, ℕ, zero, suc, ◌+◌, ◌≤◌, ◌≡◌, refl, sym, ap, ◌∙◌, append_assoc, Bool,
  true, false, Option, none, some, List, [], ◌∷◌, ◌++◌, arith, length, take, append-nil, drop, ltb,
  get_elem?, if◌then◌else◌, ◌<◌, ◌^◌, ◌%◌, Bool-cases, inl, inr,
}
use fbbs.Common.Run.{bind_assoc, Run, ok, fault, endless, ◌>>=◌}
use native.Mathlib.Nat.{one-le-pow}
use fbbs.Hash.{Entry, Table, chain_at}
use fbbs.Hash.Lookup.{IsSlots, chain_at-some, chain_at-ok}

-- `hash_iter_t`, without its table: the entries behind `entry` in its chain, and the next slot.
pub record Iter : Type 0 where
  pub next : List Entry
  pub index : ℕ

-- The loop of `hash_next`, up to a slot that is not empty; none is NULL.
unfoldable pub next_slot : (fuel : ℕ) → Table → (index : ℕ) → Run (Option (Entry × Iter))
unfolding chain_at
next_slot zero t index = fault endless
next_slot (suc fuel) t index = if ltb t.max index then ok none else (do
  chain ← chain_at t.array index
  elim chain [
    | [] ↦ next_slot fuel t ((index + 1) % 2 ^ 32)
    | e ∷ es ↦ ok (some (e, record { next = es; index = (index + 1) % 2 ^ 32 }))
  ])

-- `hash_next`: the entry it stops at. Each round takes a slot, and one more ends.
unfoldable pub hash_next : Table → Iter → Run (Option (Entry × Iter))
unfolding next_slot
hash_next t it = elim it.next [
  | [] ↦ next_slot (t.max + 2) t it.index
  | e ∷ es ↦ ok (some (e, record it { next = es }))
]

-- The iterator that `hash_begin` gives to `hash_next`.
abbrev pub iter_start : Iter
iter_start = record { next = []; index = 0 }

-- `hash_begin`, where `malloc` gives the iterator or does not.
unfoldable pub hash_begin : (memory : Bool) → Table → Run (Option (Entry × Iter))
unfolding hash_next
hash_begin false t = ok none
hash_begin true t = hash_next t iter_start

-- The entries of all slots, one slot after another.
unfoldable pub entries : List (List Entry) → List Entry
entries [] = []
entries (es ∷ slots) = es ++ entries slots

-- `hash_destroy`: the entries of the table and how many free ones are freed. Its loop leaves out the
-- slot `max`.
unfoldable pub hash_destroy : Table → List Entry × ℕ
hash_destroy t = (entries (take t.max t.array), t.free)

-- The entries that calls of `hash_next` stop at until one returns NULL.
unfoldable pub visit : (fuel : ℕ) → Table → Option (Entry × Iter) → Run (List Entry)
visit fuel t none = ok []
visit zero t (some r) = fault endless
visit (suc fuel) t (some r) = do
  following ← hash_next t r.1
  rest ← visit fuel t following
  ok (r.0 ∷ rest)

module _ (t : Table) (slots : IsSlots t) (small : t.max + 1 < 2 ^ 32) where
  whole : length t.array ≡ t.max + 1
  whole = omega (arith, slots.size, slots.mask, one-le-pow slots.width 2 (omega arith))

  abbrev left : Iter → List Entry
  left it = it.next ++ entries (drop it.index t.array)

  -- The next entry, and the iterator behind it.
  abbrev Stops : Run (Option (Entry × Iter)) → List Entry → Type 0
  Stops m [] = m ≡ ok none
  Stops m (e ∷ es) = (it : Iter) × (m ≡ ok (some (e, it))) × (left it ≡ es) × (it.index ≤ t.max + 1)

  -- The slots from one on.
  slot-drop :
      (array : List (List Entry)) (index : ℕ) (es : List Entry)
      → get_elem? array index ≡ some es
      → entries (drop index array) ≡ es ++ entries (drop (suc index) array)
  unfolding entries
  slot-drop [] index es h = absurd (ground (arith, h))
  slot-drop (x ∷ xs) zero es h = let same : x ≡ es = cc in ap (λ c. c ++ entries xs) same
  slot-drop (x ∷ xs) (suc index) es h = slot-drop xs index es h

  behind-nil :
      (array : List (List Entry)) (index : ℕ)
      → length array ≤ index
      → entries (drop index array) ≡ []
  unfolding entries
  behind-nil [] zero h = refl
  behind-nil [] (suc index) h = refl
  behind-nil (x ∷ xs) zero h = absurd (omega (arith, h))
  behind-nil (x ∷ xs) (suc index) h = behind-nil xs index (omega (arith, h))

  -- What the loop does at a slot.
  abbrev at_slot : (fuel index : ℕ) → List Entry → Run (Option (Entry × Iter))
  at_slot fuel index chain = elim chain [
    | [] ↦ next_slot fuel t (suc index)
    | e ∷ es ↦ ok (some (e, record { next = es; index = suc index }))
  ]

  next_slot-at_slot :
      (fuel index : ℕ) (chain : List Entry)
      → index ≤ t.max
      → get_elem? t.array index ≡ some chain
      → next_slot (suc fuel) t index ≡ at_slot fuel index chain
  unfolding next_slot
  next_slot-at_slot fuel index [] within here =
      let inside : ltb t.max index ≡ false = ground (arith, within) in
      let following : (index + 1) % 2 ^ 32 ≡ suc index = omega (arith, within, small) in
      rw (inside, chain_at-ok t.array index [] here, following) refl
  next_slot-at_slot fuel index (e ∷ es) within here =
      let inside : ltb t.max index ≡ false = ground (arith, within) in
      let following : (index + 1) % 2 ^ 32 ≡ suc index = omega (arith, within, small) in
      rw (inside, chain_at-ok t.array index (e ∷ es) here, following) refl

  at_slot-Stops :
      (fuel index : ℕ) (chain : List Entry)
      → index ≤ t.max
      → get_elem? t.array index ≡ some chain
      → Stops (next_slot fuel t (suc index)) (entries (drop (suc index) t.array))
      → Stops (at_slot fuel index chain) (entries (drop index t.array))
  at_slot-Stops fuel index [] within here later =
      subst (Stops (next_slot fuel t (suc index))) (sym (slot-drop t.array index [] here)) later
  at_slot-Stops fuel index (e ∷ es) within here later =
      subst (Stops (ok (some (e, record { next = es; index = suc index }))))
        (sym (slot-drop t.array index (e ∷ es) here))
        (record { next = es; index = suc index }, refl, refl, omega (arith, within))

  next_slot-Stops :
      (fuel index : ℕ)
      → index ≤ t.max + 1
      → t.max + 1 < fuel + index
      → Stops (next_slot fuel t index) (entries (drop index t.array))
  unfolding next_slot
  next_slot-Stops zero index h f = absurd (omega (arith, h, f))
  next_slot-Stops (suc fuel) index h f = elim (Bool-cases (ltb t.max index)) [
    | inl behind ↦ rw (behind, behind-nil t.array index (ground (arith, behind, whole))) refl
    | inr inside ↦
        let within : index ≤ t.max = ground (arith, inside) in
        let (chain, here) = chain_at-some t.array index (omega (arith, within, whole)) in
        let later = next_slot-Stops fuel (suc index) (omega (arith, within)) (omega (arith, f)) in
        subst (λ m. Stops m (entries (drop index t.array)))
          (sym (next_slot-at_slot fuel index chain within here))
          (at_slot-Stops fuel index chain within here later)
  ]

  hash_next-Stops :
      (next : List Entry) (index : ℕ)
      → index ≤ t.max + 1
      → Stops
          (hash_next t (record { next = next; index = index }))
          (next ++ entries (drop index t.array))
  unfolding hash_next
  hash_next-Stops [] index h = next_slot-Stops (t.max + 2) index h (omega arith)
  hash_next-Stops (e ∷ es) index h = (record { next = es; index = index }, refl, refl, h)

  visit-left :
      (fuel : ℕ) (m : Run (Option (Entry × Iter))) (es : List Entry)
      → Stops m es
      → length es ≤ fuel
      → (m >>= λ r. visit fuel t r) ≡ ok es
  unfolding visit
  visit-left zero m [] s h = rw s refl
  visit-left (suc fuel) m [] s h = rw s refl
  visit-left zero m (e ∷ es) s h = absurd (omega (arith, h))
  visit-left (suc fuel) m (e ∷ es) (it, run, rest, bound) h =
      let further : Stops (hash_next t it) es =
        subst (λ s. Stops (hash_next t it) s) rest (hash_next-Stops it.next it.index bound) in
      let later = visit-left fuel (hash_next t it) es further (omega (arith, h)) in
      rw run (visit-split fuel e (hash_next t it) es later)
    where
      visit-split :
          (n : ℕ) (d : Entry) (m : Run (Option (Entry × Iter))) (ds : List Entry)
          → (m >>= λ r. visit n t r) ≡ ok ds
          → (m >>= λ r. visit n t r >>= λ xs. ok (d ∷ xs)) ≡ ok (d ∷ ds)
      visit-split n d m ds e = sym (bind_assoc m (λ r. visit n t r) (λ xs. ok (d ∷ xs))) ∙ rw e refl

  -- In a table of fewer than 2^32 slots, all of which its array has, the calls from `hash_begin` on stop
  -- once at every entry, one slot after another, and then return NULL.
  pub hash_begin_lem :
      (hash_begin true t >>= λ r. visit (length (entries t.array)) t r) ≡ ok (entries t.array)
  unfolding hash_begin
  hash_begin_lem =
      visit-left (length (entries t.array)) (hash_next t iter_start) (entries t.array)
        (hash_next-Stops [] 0 (omega arith)) (omega arith)

entries-append : (xs ys : List (List Entry)) → entries (xs ++ ys) ≡ entries xs ++ entries ys
unfolding entries
entries-append [] ys = refl
entries-append (es ∷ xs) ys =
    ap (λ s. es ++ s) (entries-append xs ys) ∙ sym (append_assoc es (entries xs) (entries ys))

-- `hash_destroy` frees the entries of all slots but the last, whose entries are lost.
pub hash_destroy_leaks :
    (t : Table) (slots : List (List Entry)) (last : List Entry)
    → t.array ≡ slots ++ last ∷ []
    → length slots ≡ t.max
    → ((hash_destroy t).0 ++ last ≡ entries t.array) × ((hash_destroy t).1 ≡ t.free)
unfolding hash_destroy
hash_destroy_leaks t slots last e n =
    let kept : take t.max t.array ≡ slots =
      ap (take t.max) e
      ∙ (ap (λ k. take k (slots ++ last ∷ [])) (sym n) ∙ take-length-append slots (last ∷ [])) in
    let whole : entries t.array ≡ entries slots ++ last =
      ap entries e
      ∙ (entries-append slots (last ∷ [])
          ∙ ap (λ s. entries slots ++ s) (unfold entries in append-nil last)) in
    (ap (λ s. entries s ++ last) kept ∙ sym whole, refl)
