-- ===== src/Parcel/Sequence.antt =====
-- Several writes in a row: they write their bytes one behind the other, or report an error.
use fbbs.Common.{
  ℕ, ◌+◌, ◌-◌, ◌^◌, ◌≤◌, ◌≡◌, ap, sym, ◌∙◌, ◌⊎◌, inl, inr, true, List, ◌++◌, arith, ltb, Bool-cases,
  length, get_elem?, length-append, get_elem?-append,
}
use fbbs.Common.Alloc.{Allocator, IsAllocator}
use fbbs.Common.Memory.{StandsAt}
use fbbs.Common.Run.{Run, ok, ◌>>=◌}
use fbbs.Parcel.{Parcel, write}
use fbbs.Parcel.Write.{OutOfMemory, IsOpen, Written, write_lem}

-- `m` returns a parcel that reports an error, or holds `bytes` behind what `p` held.
abbrev pub Appends : Allocator → Parcel → List ℕ → Run Parcel → Type 0
Appends al p bytes m = (q : Parcel) × (m ≡ ok q) × (OutOfMemory al q ⊎ Written p bytes q)

-- After an error nothing is written.
pub write-error :
    (al : Allocator) (p : Parcel) (bytes : List ℕ) → p.error ≡ true → write al p bytes ≡ ok p
unfolding write
write-error al p bytes e = ground arith

pub StandsAt-append :
    (b : List ℕ) (n : ℕ) (xs ys : List ℕ)
    → StandsAt b n xs
    → StandsAt b (n + length xs) ys
    → StandsAt b n (xs ++ ys)
StandsAt-append b n xs ys hx hy i h = elim (Bool-cases (ltb i (length xs))) [
  | inl lt ↦ rw (get_elem?-append, lt) (hx i (ground arith))
  | inr ge ↦
      rw (get_elem?-append, ge)
        (ap (get_elem? b) (ground arith) ∙ hy (i - length xs) (ground (arith, length-append xs ys)))
]

pub Written-append :
    (p q r : Parcel) (xs ys : List ℕ) → Written p xs q → Written q ys r → Written p (xs ++ ys) r
Written-append p q r xs ys f g = record {
  valid = g.valid;
  size = omega (arith, f.size, g.size, length-append xs ys);
  new_bytes = λ c e.
      StandsAt-append c p.size xs ys
        (λ i h.
          let (b, is, n) = f.valid.block in
          g.old_bytes b c (p.size + i) is e (omega (arith, f.size)) ∙ f.new_bytes b is i h)
        (λ i h. ap (λ (n : ℕ). get_elem? c (n + i)) (sym f.size) ∙ g.new_bytes c e i h);
  old_bytes = λ b c i x y h.
      let (d, is, n) = f.valid.block in
      g.old_bytes d c i is y (omega (arith, f.size)) ∙ f.old_bytes b d i x is h;
}

module _ (al : Allocator) (lawful : IsAllocator al) (p : Parcel) (v : IsOpen p) where
  pub write-Appends :
      (bytes : List ℕ) → p.size + length bytes ≤ 2 ^ 62 → Appends al p bytes (write al p bytes)
  write-Appends bytes room = write_lem al p bytes lawful v room

  -- One more write behind a run of writes.
  pub then-Appends :
      (m : Run Parcel) (xs ys : List ℕ)
      → p.size + length xs + length ys ≤ 2 ^ 62
      → Appends al p xs m
      → Appends al p (xs ++ ys) (m >>= λ q. write al q ys)
  then-Appends m xs ys room (q, e, inl bad) = (q, rw e (write-error al q ys bad.0), inl bad)
  then-Appends m xs ys room (q, e, inr w) =
      next (write_lem al q ys lawful w.valid (omega (arith, w.size)))
    where
      next : Appends al q ys (write al q ys) → Appends al p (xs ++ ys) (m >>= λ q. write al q ys)
      next (r, e', inl bad) = (r, rw e e', inl bad)
      next (r, e', inr w') = (r, rw e e', inr (Written-append p q r xs ys w w'))
