-- ===== src/Hash/Lookup.antt =====
-- `hash_get` after `hash_set`.
use fbbs.Common.{
  length-set, get_elem?-set_ne, ◌≢◌, ap, get_elem?-set_self, ◌∙◌, sym, subst, ℕ, zero, suc, ◌+◌,
  ◌-◌, ◌%◌, ◌^◌, ◌≤◌, ◌<◌, ◌≡◌, refl, bit_and, Bool, true, false, Option, none, some, List, [], ◌∷◌,
  arith, ltb, ◌==◌, if◌then◌else◌, length, get_elem?, set, Bool-cases, inl, inr,
}
use native.Mathlib.Nat.{mod-lt, one-le-pow}
use fbbs.Common.Bits.{bit_and_mask}
use fbbs.Common.Run.{null_pointer, fault, Run, ok, ◌>>=◌}
use fbbs.Hash.Chain.{same_bytes-eq, find_in-put_in_self, find_in-put_in_other}
use fbbs.Hash.{
  entry_for, Entry, Table, same_bytes, find_in, put_in, chain_at, take_entry, hash_set, hash_get,
}

pub chain_at-some :
    (array : List (List Entry)) (slot : ℕ)
    → slot < length array
    → (es : List Entry) × (get_elem? array slot ≡ some es)
chain_at-some [] slot h = absurd (omega arith)
chain_at-some (x ∷ xs) zero h = (x, refl)
chain_at-some (x ∷ xs) (suc slot) h = chain_at-some xs slot (omega arith)

abbrev look : List (List Entry) → (slot : ℕ) → List ℕ → (hash : ℕ) → Run (Option ℕ)
look array slot key hash = do chain ← chain_at array slot; ok (find_in key hash chain)

-- A lookup that finds the chain `es`.
look-in :
    (array : List (List Entry)) (slot : ℕ) (key : List ℕ) (hash : ℕ) (es : List Entry)
    → get_elem? array slot ≡ some es
    → look array slot key hash ≡ ok (find_in key hash es)
unfolding chain_at
look-in array slot key hash es e = rw (chain_at, e) refl

look-same :
    (array array' : List (List Entry)) (slot : ℕ) (key : List ℕ) (hash : ℕ)
    → get_elem? array slot ≡ get_elem? array' slot
    → look array slot key hash ≡ look array' slot key hash
unfolding chain_at
look-same array array' slot key hash e = rw (chain_at, e) refl

pub unequal : (m n : ℕ) → (m == n) ≡ false → m ≢ n
unequal m n h = ground arith

module _ (func : List ℕ → ℕ) (max : ℕ) (array : List (List Entry)) (key : List ℕ) (val : ℕ)
    (es : List Entry) where
  abbrev slot_of : List ℕ → ℕ
  slot_of k = bit_and (func k) max

  abbrev after : List (List Entry)
  after = set array (slot_of key) (put_in key (func key) val es)

  look-after :
      (other : List ℕ)
      → slot_of key < length array
      → get_elem? array (slot_of key) ≡ some es
      → look after (slot_of other) other (func other) ≡ (
          if same_bytes key other
          then ok (some val)
          else look array (slot_of other) other (func other))
  look-after other inside here =
      let stored = get_elem?-set_self array (slot_of key) (put_in key (func key) val es) inside in
      elim (Bool-cases (same_bytes key other)) [
        | inl same ↦ rw same (
            subst (λ (k : List ℕ). look after (slot_of k) k (func k) ≡ ok (some val))
              (same_bytes-eq key other same)
              (look-in after (slot_of key) key (func key) (put_in key (func key) val es) stored
                ∙ ap ok (find_in-put_in_self key (func key) val es)))
        | inr differ ↦ rw differ (elim (Bool-cases (slot_of key == slot_of other)) [
          | inl shared ↦
              let at : slot_of key ≡ slot_of other = ground (arith, shared) in
              subst (λ (n : ℕ). look after n other (func other) ≡ look array n other (func other))
                at
                (look-in after (slot_of key) other (func other) (put_in key (func key) val es)
                    stored
                  ∙ ap ok (find_in-put_in_other key other (func key) (func other) val es differ)
                  ∙ sym (look-in array (slot_of key) other (func other) es here))
          | inr elsewhere ↦
              let apart : slot_of key ≢ slot_of other =
                unequal (slot_of key) (slot_of other) elsewhere in
              let kept : get_elem? after (slot_of other) ≡ get_elem? array (slot_of other) =
                get_elem?-set_ne array (put_in key (func key) val es) apart in
              look-same after array (slot_of other) other (func other) kept
        ])
      ]

-- The table has the slots of its mask.
pub record IsSlots (t : Table) : Type 0 where
  pub width : ℕ
  pub mask : t.max ≡ 2 ^ width - 1
  pub size : length t.array ≡ 2 ^ width

pub slot-lt : (t : Table) (hash : ℕ) → IsSlots t → bit_and hash t.max < length t.array
slot-lt t hash v =
    let masked : bit_and hash t.max ≡ hash % 2 ^ v.width =
      ap (bit_and hash) v.mask ∙ bit_and_mask v.width hash in
    let small : hash % 2 ^ v.width < 2 ^ v.width =
      mod-lt hash (one-le-pow v.width 2 (omega arith)) in
    omega (arith, masked, small, v.size)

entry_for-lem :
    (t : Table) (found : Option ℕ)
    → t.count < t.max
    → (u : Table) × (entry_for true t found ≡ ok u) × (u.max ≡ t.max) × (u.count ≤ u.max)
unfolding entry_for take_entry
entry_for-lem t (some old) h = (t, refl, refl, omega arith)
entry_for-lem t none h = elim (Bool-cases (t.free == 0)) [
  | inl empty ↦ (record t { count = t.count + 1 }, rw empty refl, refl, omega arith)
  | inr spare ↦
      (record t { free = t.free - 1; count = t.count + 1 }, rw spare refl, refl, omega arith)
]

pub chain_at-ok :
    (array : List (List Entry)) (slot : ℕ) (es : List Entry)
    → get_elem? array slot ≡ some es
    → chain_at array slot ≡ ok es
unfolding chain_at
chain_at-ok array slot es e = rw (chain_at, e) refl

module _ (func : List ℕ → ℕ) (array_memory : Bool) (t : Table) (key : List ℕ) (val : ℕ) where
  abbrev Sets : Run (Bool × Table) → List ℕ → Type 0
  Sets m other =
      (w : Table) × (m ≡ ok (true, w))
      × IsSlots w
      × (hash_get func w other
          ≡ (if same_bytes key other then ok (some val) else hash_get func t other))

  set-steps :
      (es : List Entry) (u : Table)
      → chain_at t.array (bit_and (func key) t.max) ≡ ok es
      → entry_for true t (find_in key (func key) es) ≡ ok u
      → u.count ≤ u.max
      → hash_set func true array_memory t key (some val)
        ≡ ok (true, record u { array = after func t.max t.array key val es })
  unfolding hash_set
  set-steps es u at entry room =
      let small : ltb u.max u.count ≡ false = ground arith in rw (at, entry, small) refl

  -- With room below the limit at which the table grows, and memory for an entry, `hash_set` succeeds.
  -- The key then has the value, and every other key has what it had.
  pub hash_set-get :
      (other : List ℕ)
      → IsSlots t
      → t.count < t.max
      → Sets (hash_set func true array_memory t key (some val)) other
  unfolding hash_get
  hash_set-get other v room =
      let slot : ℕ = bit_and (func key) t.max in
      let inside : slot < length t.array = slot-lt t (func key) v in
      let (es, here) = chain_at-some t.array slot inside in
      let (u, entry, mask, small) = entry_for-lem t (find_in key (func key) es) room in
      let array = after func t.max t.array key val es in
      (
        record u { array = array },
        set-steps es u (chain_at-ok t.array slot es here) entry small,
        record {
          width = v.width;
          mask = mask ∙ v.mask;
          size = length-set t.array slot (put_in key (func key) val es) ∙ v.size;
        },
        ap (λ (n : ℕ). look array (bit_and (func other) n) other (func other)) mask
            ∙ look-after func t.max t.array key val es other inside here,
      )

-- With neither a free entry nor memory for one, `hash_set` of a new key reads through NULL.
pub hash_set_without_memory :
    (func : List ℕ → ℕ) (array_memory : Bool) (t : Table) (key : List ℕ) (val : ℕ)
    → IsSlots t
    → hash_get func t key ≡ ok none
    → t.free ≡ 0
    → hash_set func false array_memory t key (some val) ≡ fault null_pointer
unfolding hash_set hash_get entry_for take_entry
hash_set_without_memory func array_memory t key val v missing empty =
    let inside = slot-lt t (func key) v in
    let (es, here) = chain_at-some t.array (bit_and (func key) t.max) inside in
    let at = chain_at-ok t.array (bit_and (func key) t.max) es here in
    let absent : find_in key (func key) es ≡ none = go es at missing in
    let none_free : (t.free == 0) ≡ true = ground arith in rw (at, absent, none_free) refl
  where
    go :
        (es : List Entry)
        → chain_at t.array (bit_and (func key) t.max) ≡ ok es
        → look t.array (bit_and (func key) t.max) key (func key) ≡ ok none
        → find_in key (func key) es ≡ none
    go es at h = let found : ok (find_in key (func key) es) ≡ ok none = rw at at h in cc
