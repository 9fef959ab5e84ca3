-- ===== src/Hash/Growth.antt =====
-- lib/hash.c: lookups in a table that has grown.
use fbbs.Common.{ℕ, suc, ◌≡◌, bit_and, false, List, [], ◌∷◌, All}
use fbbs.Hash.{Entry, same_bytes, matches}

-- No two entries of a chain have the same key.
abbrev pub IsDistinct : List Entry → Type 0
IsDistinct [] = Unit
IsDistinct (e ∷ es) = All (λ (d : Entry). same_bytes d.key e.key ≡ false) es × IsDistinct es

-- Every entry stands in the slot of its hash, from a slot on.
abbrev pub AreInPlace : (max slot : ℕ) → List (List Entry) → Type 0
AreInPlace max slot [] = Unit
AreInPlace max slot (es ∷ chains) =
    All (λ (e : Entry). bit_and e.hash max ≡ slot) es
    × (IsDistinct es × AreInPlace max (suc slot) chains)

module _ (key : List ℕ) (hash : ℕ) where
  abbrev NoMatch : List Entry → Type 0
  NoMatch es = All (λ (e : Entry). matches key hash e ≡ false) es
