-- ===== src/Records/Apply.antt =====
-- `record_apply` that removes records in their place, against the list of the records that are kept.
pub mod Delete
use fbbs.Common.{
  subst, ◌⊎◌, append-nil, ℕ, suc, ◌+◌, ◌-◌, ◌≤◌, ◌≡◌, refl, sym, ap, ◌∙◌, append_assoc, Bool, true,
  false, ◌<◌, not, ◌&&◌, none, some, List, [], ◌∷◌, ◌++◌, arith, ◌==◌, if◌then◌else◌, length,
  get_elem?, set, take, drop, length-append, length-drop, length-take, take-append-drop,
  take-length-append, inl, inr, Bool-cases,
}
use fbbs.Common.Run.{Run, ok, fault, overlap}
use fbbs.Records.{
  Callback, callback_match, callback_continue, callback_break, Reply, Applied, item_at, copy_back,
  apply_loop, check_offset, record_apply,
}

pub set-append {ℓ} :
    {A : Type ℓ} (xs ys : List A) (y v : A) → set (xs ++ y ∷ ys) (length xs) v ≡ xs ++ v ∷ ys
set-append [] ys y v = refl
set-append (x ∷ xs) ys y v = ap (λ t. x ∷ t) (set-append xs ys y v)

pub get_elem?-at {ℓ} :
    {A : Type ℓ} (xs ys : List A) (y : A) → get_elem? (xs ++ y ∷ ys) (length xs) ≡ some y
get_elem?-at [] ys y = refl
get_elem?-at (x ∷ xs) ys y = get_elem?-at xs ys y

pub Callback-cases :
    (c : Callback) → (c ≡ callback_match) ⊎ ((c ≡ callback_continue) ⊎ (c ≡ callback_break))
Callback-cases callback_match = inl refl
Callback-cases callback_continue = inr (inl refl)
Callback-cases callback_break = inr (inr refl)

-- A record written behind the kept ones: the free places move on by one.
place :
    {A : Type 0} (front junk xs : List A) (v : A)
    → (free : List A) × (length free ≡ length junk)
      × (set (front ++ (junk ++ v ∷ xs)) (length front) v ≡ (front ++ v ∷ []) ++ (free ++ xs))
place front [] xs v = ([], refl, set-append front xs v v ∙ sym (append_assoc front (v ∷ []) xs))
place front (j ∷ js) xs v = (
  js ++ v ∷ [],
  length-append js (v ∷ []) ∙ omega arith,
  set-append front (js ++ v ∷ xs) j v
      ∙ (ap (λ t. front ++ (v ∷ t)) (sym (append_assoc js (v ∷ []) xs))
          ∙ sym (append_assoc front (v ∷ []) ((js ++ v ∷ []) ++ xs))),
)

module _ {S A : Type 0} (callback : S → A → ℕ → Reply S A) where
  -- The records that are kept, how many are not, and the argument of the callback.
  pub record Kept : Type 0 where
    pub items : List A
    pub removed : ℕ
    pub args : S

  abbrev keep : A → Kept → Kept
  keep x k = record k { items = x ∷ k.items }

  -- Without the records that match; a callback that asks for the end does not get it.
  unfoldable pub sweep : (args : S) → (offset : ℕ) → List A → Kept
  sweep args offset [] = record { items = []; removed = 0; args = args }
  sweep args offset (x ∷ xs) =
      let r = callback args x offset in
      let rest = sweep r.args (offset + 1) xs in
      elim r.result [
        | callback_match ↦ record rest { removed = rest.removed + 1 }
        | callback_continue ↦ keep r.item rest
        | callback_break ↦ keep r.item rest
      ]

  -- The records before those that are left to read: the kept ones, and places that are free.
  pub record Sweeps (front : List A) (k : Kept) (affected : ℕ) (m : Run (Applied callback))
      : Type 0 where
    pub applied : Applied callback
    pub run : m ≡ ok applied
    pub places : List A
    pub items : applied.items ≡ front ++ (k.items ++ places)
    pub count : applied.affected ≡ affected + k.removed
    pub free : length places ≡ affected + k.removed
    pub args : applied.args ≡ k.args

  -- A record that is kept, in front of the others.
  Sweeps-keep :
      (front : List A) (x : A) (k : Kept) (affected : ℕ) (m : Run (Applied callback))
      → Sweeps (front ++ x ∷ []) k affected m
      → Sweeps front (keep x k) affected m
  Sweeps-keep front x k affected m s = record {
    applied = s.applied;
    run = s.run;
    places = s.places;
    items = s.items ∙ append_assoc front (x ∷ []) (k.items ++ s.places);
    count = s.count;
    free = s.free;
    args = s.args;
  }

  Sweeps-match :
      (front : List A) (k : Kept) (affected : ℕ) (m : Run (Applied callback))
      → Sweeps front k (affected + 1) m
      → Sweeps front (record k { removed = k.removed + 1 }) affected m
  Sweeps-match front k affected m s = record {
    applied = s.applied;
    run = s.run;
    places = s.places;
    items = s.items;
    count = s.count ∙ omega arith;
    free = s.free ∙ omega arith;
    args = s.args;
  }

  Sweeps-cast :
      (front : List A) (k k2 : Kept) (affected : ℕ) (m m2 : Run (Applied callback))
      → k2 ≡ k
      → m2 ≡ m
      → Sweeps front k affected m
      → Sweeps front k2 affected m2
  Sweeps-cast front k k2 affected m m2 ek em s =
      subst (λ j. Sweeps front j affected m2) (sym ek)
        (subst (λ n. Sweeps front k affected n) (sym em) s)

  abbrev pub state : ℕ → List A → S → Applied callback
  state affected items args = record { affected = affected; items = items; args = args }

  module _ (left offset affected : ℕ) (items : List A) (args : S) (x : A)
      (at : get_elem? items offset ≡ some x) where
    found : item_at items offset ≡ ok x
    unfolding item_at
    found = rw (item_at, at) refl

    abbrev reply : Reply S A
    reply = callback args x offset

    loop-match :
        reply.result ≡ callback_match
        → apply_loop callback (suc left) true offset (state affected items args)
          ≡ apply_loop callback left true
              (offset + 1)
              (state (affected + 1) (set items offset reply.item) reply.args)
    unfolding apply_loop
    loop-match e = rw (found, e) refl

    loop-keep :
        0 < affected
        → (reply.result ≡ callback_continue) ⊎ (reply.result ≡ callback_break)
        → apply_loop callback (suc left) true offset (state affected items args)
          ≡ apply_loop callback left true (offset + 1) (
              state affected
                (set (set items offset reply.item) (offset - affected) reply.item)
                reply.args)
    unfolding apply_loop copy_back
    loop-keep some_left (inl e) =
        let unequal : (affected == 0) ≡ false = ground (arith, some_left) in
        rw (found, e, unequal) refl
    loop-keep some_left (inr e) =
        let unequal : (affected == 0) ≡ false = ground (arith, some_left) in
        rw (found, e, unequal) refl

    -- A record that is kept before one was removed is copied over itself.
    pub loop-overlap :
        affected ≡ 0
        → (reply.result ≡ callback_continue) ⊎ (reply.result ≡ callback_break)
        → apply_loop callback (suc left) true offset (state affected items args) ≡ fault overlap
    unfolding apply_loop copy_back
    loop-overlap none_left (inl e) =
        let equal : (affected == 0) ≡ true = ground (arith, none_left) in rw (found, e, equal) refl
    loop-overlap none_left (inr e) =
        let equal : (affected == 0) ≡ true = ground (arith, none_left) in rw (found, e, equal) refl

  sweep-match :
      (args : S) (offset : ℕ) (x : A) (xs : List A)
      → (callback args x offset).result ≡ callback_match
      → sweep args offset (x ∷ xs) ≡ (
          let rest = sweep (callback args x offset).args (offset + 1) xs in
          record rest { removed = rest.removed + 1 })
  unfolding sweep
  sweep-match args offset x xs e = rw (sweep, e) refl

  sweep-keep :
      (args : S) (offset : ℕ) (x : A) (xs : List A)
      → ((callback args x offset).result ≡ callback_continue)
        ⊎ ((callback args x offset).result ≡ callback_break)
      → sweep args offset (x ∷ xs)
        ≡ keep (callback args x offset).item (sweep (callback args x offset).args (offset + 1) xs)
  unfolding sweep
  sweep-keep args offset x xs (inl e) = rw (sweep, e) refl
  sweep-keep args offset x xs (inr e) = rw (sweep, e) refl

  abbrev pub is_match : Callback → Bool
  is_match callback_match = true
  is_match callback_continue = false
  is_match callback_break = false

  -- Whether the first record, if there is one, is removed.
  abbrev pub starts : (args : S) → (offset : ℕ) → List A → Bool
  starts args offset [] = true
  starts args offset (x ∷ xs) = is_match (callback args x offset).result

  is_match-other :
      (c : Callback) → (c ≡ callback_continue) ⊎ (c ≡ callback_break) → is_match c ≡ false
  is_match-other c (inl e) = rw e refl
  is_match-other c (inr e) = rw e refl

  some_removed :
      (c : Callback) (affected : ℕ)
      → (c ≡ callback_continue) ⊎ (c ≡ callback_break)
      → (is_match c ≡ true) ⊎ (0 < affected)
      → 0 < affected
  some_removed c affected other (inl e) = absurd (ground (arith, is_match-other c other, e))
  some_removed c affected other (inr l) = l

  pub apply_loop-Sweeps :
      (front junk rest : List A) (offset affected : ℕ) (args : S)
      → offset ≡ length front + length junk
      → affected ≡ length junk
      → (starts args offset rest ≡ true) ⊎ (0 < affected)
      → Sweeps front (sweep args offset rest) affected (
          apply_loop callback
            (length rest)
            true
            offset
            (record { affected = affected; items = front ++ (junk ++ rest); args = args }))
  unfolding apply_loop sweep
  apply_loop-Sweeps front junk [] offset affected args eo ea st = record {
    applied = record { affected = affected; items = front ++ (junk ++ []); args = args };
    run = refl;
    places = junk;
    items = ap (λ t. front ++ t) (append-nil junk);
    count = omega arith;
    free = omega (arith, ea);
    args = refl;
  }
  apply_loop-Sweeps front junk (x ∷ xs) offset affected args eo ea st =
      let r = callback args x offset in
      let both : offset ≡ length (front ++ junk) = eo ∙ sym (length-append front junk) in
      let at : get_elem? (front ++ (junk ++ x ∷ xs)) offset ≡ some x =
        ap (λ n. get_elem? (front ++ (junk ++ x ∷ xs)) n) both
        ∙ (ap (λ t. get_elem? t (length (front ++ junk))) (sym (append_assoc front junk (x ∷ xs)))
            ∙ get_elem?-at (front ++ junk) xs x) in
      let seen : set (front ++ (junk ++ x ∷ xs)) offset r.item ≡ front ++ (junk ++ r.item ∷ xs) =
        ap (λ n. set (front ++ (junk ++ x ∷ xs)) n r.item) both
        ∙ (ap (λ t. set t (length (front ++ junk)) r.item) (sym (append_assoc front junk (x ∷ xs)))
            ∙ (set-append (front ++ junk) xs x r.item ∙ append_assoc front junk (r.item ∷ xs))) in
      let (free, size, moved) = place front junk xs r.item in
      let back : offset - affected ≡ length front = omega (arith, eo, ea) in
      let rest = sweep r.args (offset + 1) xs in
      elim (Callback-cases r.result) [
        | inl match ↦
            let taken =
              apply_loop-Sweeps front (junk ++ r.item ∷ []) xs (offset + 1) (affected + 1) r.args
                (omega (arith, eo, length-append junk (r.item ∷ [])))
                (omega (arith, ea, length-append junk (r.item ∷ []))) (inr (omega arith)) in
            Sweeps-cast front (record rest { removed = rest.removed + 1 }) _ affected _ _
              (sweep-match args offset x xs match)
              (loop-match (length xs) offset affected (front ++ (junk ++ x ∷ xs)) args x at match
                ∙ ap
                    (λ t.
                      apply_loop callback (length xs) true (offset + 1)
                        (state (affected + 1) t r.args))
                    (seen ∙ ap (λ t. front ++ t) (sym (append_assoc junk (r.item ∷ []) xs))))
              (Sweeps-match front rest affected _ taken)
        | inr other ↦
            let some_left : 0 < affected = some_removed r.result affected other st in
            let next =
              apply_loop-Sweeps (front ++ r.item ∷ []) free xs (offset + 1) affected r.args
                (omega (arith, eo, size, length-append front (r.item ∷ []))) (ea ∙ sym size)
                (inr some_left) in
            Sweeps-cast front (keep r.item rest) _ affected _ _ (sweep-keep args offset x xs other)
              (loop-keep (length xs) offset affected (front ++ (junk ++ x ∷ xs)) args x at some_left
                  other
                ∙ ap
                    (λ t.
                      apply_loop callback (length xs) true (offset + 1) (state affected t r.args))
                    (ap (λ t. set t (offset - affected) r.item) seen
                      ∙ (ap (λ n. set (front ++ (junk ++ r.item ∷ xs)) n r.item) back ∙ moved)))
              (Sweeps-keep front r.item rest affected _ next)
      ]
