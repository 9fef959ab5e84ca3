-- ===== src/Text/Case/Search.antt =====
-- `strcasestr_gbk` on text in ASCII against the first place of the needle.
use fbbs.Common.{ℕ, ◌+◌, ◌≡◌, true, false, Option, none, some, List, [], ◌∷◌, leb, All}
use fbbs.Common.CString.{begins_with}

-- The first place of the pattern, where the text begins at `i`.
unfoldable pub first_from : (pattern : List ℕ) → (i : ℕ) → List ℕ → Option ℕ
first_from pattern i [] = none
first_from pattern i (c ∷ s) = elim (begins_with pattern (c ∷ s)) [
  | true ↦ some i
  | false ↦ first_from pattern (i + 1) s
]

abbrev pub IsAscii : List ℕ → Type 0
IsAscii s = All (λ c. leb 0x80 c ≡ false) s
