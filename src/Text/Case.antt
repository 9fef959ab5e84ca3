-- ===== src/Text/Case.antt =====
-- lib/string.c: changes of case, and the search that ignores it.
pub mod Search
use fbbs.Common.{
  ℕ, zero, suc, ◌+◌, ◌-◌, Bool, true, false, not, ◌&&◌, ◌||◌, Option, none, some, List, [], ◌∷◌,
  map, ltb, leb, ◌==◌, if◌then◌else◌, length,
}
use fbbs.Common.Run.{Run, ok, fault, bad_access, ◌>>=◌}

-- `tolower` and `toupper` of the C locale.
unfoldable pub to_lower : ℕ → ℕ
to_lower c = if leb 65 c && leb c 90 then c + 32 else c

unfoldable pub to_upper : ℕ → ℕ
to_upper c = if leb 97 c && leb c 122 then c - 32 else c

-- Of two pointers, of which NULL is none.
unfoldable pub strtolower : (dst : Bool) → Option (List ℕ) → Option (List ℕ)
strtolower false src = none
strtolower true none = none
strtolower true (some src) = some (map to_lower src)

unfoldable pub strtoupper : (dst : Bool) → Option (List ℕ) → Option (List ℕ)
strtoupper false src = none
strtoupper true none = none
strtoupper true (some src) = some (map to_upper src)

unfoldable mutual
  -- The loop of `strncasecmp_gbk`, and whether what it returns is 0.
  pub casecmp : (n l : ℕ) → (s1 s2 : List ℕ) → Run Bool
  casecmp n l [] s2 = ok (l == n)
  casecmp n l (a ∷ s1) [] = ok (l == n)
  casecmp n l (a ∷ s1) (b ∷ s2) = elim (ltb l n && to_lower a == to_lower b) [
    | false ↦ ok (not (ltb l n) && l == n)
    | true ↦ elim (leb 0x80 a) [
      | true ↦ casecmp_second n (l + 1) s1 s2
      | false ↦ casecmp n (l + 1) s1 s2
    ]
  ]

  -- The second byte of a character. Where both strings end in front of it, the loop reads behind their NULs.
  pub casecmp_second : (n l : ℕ) → (s1 s2 : List ℕ) → Run Bool
  casecmp_second n l [] [] = fault bad_access
  casecmp_second n l [] (b ∷ s2) = ok false
  casecmp_second n l (a ∷ s1) [] = ok false
  casecmp_second n l (a ∷ s1) (b ∷ s2) = elim (a == b) [
    | true ↦ casecmp n (l + 1) s1 s2
    | false ↦ ok false
  ]

-- The loop of `strcasestr_gbk` from `i` on; `skip` is its own `i++`.
unfoldable pub search_loop :
    (needle : List ℕ) → (limit : ℕ) → (skip : Bool) → (i : ℕ) → List ℕ → Run (Option ℕ)
search_loop needle limit skip i [] = ok none
search_loop needle limit true i (c ∷ s) = search_loop needle limit false (i + 1) s
search_loop needle limit false i (c ∷ s) = elim (leb i limit) [
  | false ↦ ok none
  | true ↦ do
    same ← casecmp (length needle) 0 (c ∷ s) needle
    elim same [ true ↦ ok (some i) | false ↦ search_loop needle limit (leb 0x80 c) (i + 1) s ]
]

-- `strcasestr_gbk`: where the needle is found.
unfoldable pub strcasestr_gbk : (haystack needle : List ℕ) → Run (Option ℕ)
strcasestr_gbk haystack needle =
    if ltb (length haystack) (length needle)
    then ok none
    else if length haystack == 0
    then ok none
    else if length needle == 0
    then ok (some 0)
    else search_loop needle (length haystack - length needle) false 0 haystack
