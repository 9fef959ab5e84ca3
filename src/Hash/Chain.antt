-- ===== src/Hash/Chain.antt =====
-- A chain in which a key is searched after it, or another one, was written.
use fbbs.Common.{
  ◌∙◌, sym, subst, ℕ, ◌≡◌, refl, true, false, some, List, [], ◌∷◌, arith, Bool-cases, inl, inr,
}
use fbbs.Hash.{Entry, same_bytes, matches, find_in, put_in}

same_bytes_refl : (xs : List ℕ) → same_bytes xs xs ≡ true
unfolding same_bytes
same_bytes_refl [] = refl
same_bytes_refl (x ∷ xs) = ground (arith, same_bytes_refl xs)

pub same_bytes-eq : (xs ys : List ℕ) → same_bytes xs ys ≡ true → xs ≡ ys
unfolding same_bytes
same_bytes-eq [] [] h = refl
same_bytes-eq [] (y ∷ ys) h = cc
same_bytes-eq (x ∷ xs) [] h = cc
same_bytes-eq (x ∷ xs) (y ∷ ys) h = ground (arith, same_bytes-eq xs ys)

-- In one chain.
pub find_in-put_in_self :
    (key : List ℕ) (hash val : ℕ) (es : List Entry)
    → find_in key hash (put_in key hash val es) ≡ some val
unfolding find_in put_in
find_in-put_in_self key hash val [] = ground (arith, same_bytes_refl key)
find_in-put_in_self key hash val (e ∷ es) = elim (Bool-cases (matches key hash e)) [
  | inl here ↦ rw (here, here) refl
  | inr further ↦ rw (further, further) (find_in-put_in_self key hash val es)
]

not_both :
    (key other : List ℕ) (hash hash' : ℕ) (e : Entry)
    → same_bytes key other ≡ false
    → matches key hash e ≡ true
    → matches other hash' e ≡ false
not_both key other hash hash' e differ here = elim (Bool-cases (matches other hash' e)) [
  | inr apart ↦ apart
  | inl both ↦
      let a : e.key ≡ key = same_bytes-eq e.key key (ground (arith, here)) in
      let b : e.key ≡ other = same_bytes-eq e.key other (ground (arith, both)) in
      let same : same_bytes key other ≡ true =
        subst (λ (t : List ℕ). same_bytes key t ≡ true) (sym a ∙ b) (same_bytes_refl key) in
      cc
]

pub find_in-put_in_other :
    (key other : List ℕ) (hash hash' val : ℕ) (es : List Entry)
    → same_bytes key other ≡ false
    → find_in other hash' (put_in key hash val es) ≡ find_in other hash' es
unfolding find_in put_in
find_in-put_in_other key other hash hash' val [] differ = ground (arith, differ)
find_in-put_in_other key other hash hash' val (e ∷ es) differ =
    elim (Bool-cases (matches key hash e)) [
      | inl here ↦
          let no : matches other hash' e ≡ false = not_both key other hash hash' e differ here in
          rw (here, no) refl
      | inr further ↦ rw (further, find_in-put_in_other key other hash hash' val es differ) refl
    ]
