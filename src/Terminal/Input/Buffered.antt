-- ===== src/Terminal/Input/Buffered.antt =====
-- The input buffer against the bytes that the reads give.
use fbbs.Common.{
  ap, ℕ, zero, suc, ◌+◌, ◌≡◌, refl, Option, none, some, List, [], ◌∷◌, ◌++◌, arith, drop, get_elem?,
}
use fbbs.Terminal.Input.{Input, refill, get_raw_ch}

-- The bytes of the reads, up to the one that ends the session.
unfoldable pub joined : List (List ℕ) → List ℕ
joined [] = []
joined ([] ∷ reads) = []
joined ((c ∷ cs) ∷ reads) = (c ∷ cs) ++ joined reads

abbrev pub remaining : Input → List ℕ
remaining i = drop i.cur i.ptr ++ joined i.reads

-- The next byte and the input behind it, or the end.
abbrev pub Gives : Option (ℕ × Input) → List ℕ → Type 0
Gives r [] = r ≡ none
Gives r (c ∷ cs) = (j : Input) × (r ≡ some (c, j)) × (remaining j ≡ cs)

refill-Gives : (i : Input) (reads : List (List ℕ)) → Gives (refill i reads) (joined reads)
unfolding refill joined
refill-Gives i [] = refl
refill-Gives i ([] ∷ reads) = refl
refill-Gives i ((c ∷ cs) ∷ reads) = (record { ptr = c ∷ cs; cur = 1; reads = reads }, refl, refl)

-- The list from an index on, by what stands there.
abbrev From : List ℕ → ℕ → Option ℕ → Type 0
From xs i none = drop i xs ≡ []
From xs i (some c) = drop i xs ≡ c ∷ drop (suc i) xs

drop-From : (xs : List ℕ) (i : ℕ) → From xs i (get_elem? xs i)
drop-From [] zero = refl
drop-From [] (suc i) = refl
drop-From (x ∷ xs) zero = refl
drop-From (x ∷ xs) (suc i) = drop-From xs i

taken :
    (i : Input) (o : Option ℕ)
    → From i.ptr i.cur o
    → Gives
        (elim o [ none ↦ refill i i.reads | some c ↦ some (c, record i { cur = i.cur + 1 }) ])
        (remaining i)
taken i none e = rw e (refill-Gives i i.reads)
taken i (some c) e =
    let next : i.cur + 1 ≡ suc i.cur = omega arith in
    rw e (record i { cur = i.cur + 1 }, refl, ap (λ (n : ℕ). drop n i.ptr ++ joined i.reads) next)

-- `get_raw_ch` gives the bytes of the reads one after another, and ends the session where a read gives
-- none.
pub get_raw_ch_lem : (i : Input) → Gives (get_raw_ch i) (remaining i)
unfolding get_raw_ch
get_raw_ch_lem i = taken i (get_elem? i.ptr i.cur) (drop-From i.ptr i.cur)
