-- ===== src/Text/Gbk.antt =====
-- lib/string.c: `valid_gbk` and `check_gbk`, on strings in GBK.
pub mod Repair
use fbbs.Common.{
  ℕ, zero, suc, ◌+◌, ◌-◌, ◌%◌, ◌^◌, Bool, true, false, not, ◌&&◌, ◌||◌, List, [], ◌∷◌, ltb, leb,
  ◌==◌, if◌then◌else◌, length,
}

-- The two tests of `valid_gbk`.
abbrev pub is_bad_first : ℕ → Bool
is_bad_first c = c == 0x80 || c == 0xff

abbrev pub is_bad_second : ℕ → Bool
is_bad_second c = ltb c 0x40 || c == 0x7f

-- The string and the count that are returned.
pub record Repaired : Type 0 where
  pub str : List ℕ
  pub count : ℕ

abbrev pub put_before : ℕ → Repaired → Repaired
put_before c r = record r { str = c ∷ r.str }

-- A byte in the state GBK_FIRST, with what the loop does behind it: in this state, or behind the first
-- byte of two.
abbrev pub first_byte : (replace c : ℕ) → (plain lead : Repaired) → Repaired
first_byte replace c plain lead = elim (is_bad_first c) [
  | true ↦ put_before (replace % 2 ^ 8) plain
  | false ↦ elim (leb 0x80 c) [ true ↦ lead | false ↦ put_before c plain ]
]

unfoldable mutual
  -- GBK_FIRST
  pub gbk_first : (replace : ℕ) → List ℕ → Repaired
  gbk_first replace [] = record { str = []; count = 0 }
  gbk_first replace (c ∷ s) = first_byte replace c (gbk_first replace s) (gbk_second replace c s)

  -- GBK_SECOND, behind the byte `lead`: a bad byte is read again as a first one.
  pub gbk_second : (replace lead : ℕ) → List ℕ → Repaired
  gbk_second replace lead [] = record { str = replace % 2 ^ 8 ∷ []; count = 0 }
  gbk_second replace lead (c ∷ s) = elim (is_bad_second c) [
    | true ↦
        let again = first_byte replace c (gbk_first replace s) (gbk_second replace c s) in
        record { str = replace % 2 ^ 8 ∷ again.str; count = again.count + 1 }
    | false ↦ put_before lead (put_before c (gbk_first replace s))
  ]

-- `valid_gbk`, of all bytes of a string.
unfoldable pub valid_gbk : (str : List ℕ) → (replace : ℕ) → Repaired
valid_gbk str replace = gbk_first replace str

-- The loop of `check_gbk`: the position of the pointer that is returned.
unfoldable pub check_loop : (gbk : Bool) → (title : ℕ) → List ℕ → ℕ
check_loop gbk title [] = if gbk then title - 1 else title
check_loop gbk title (c ∷ s) = check_loop (not gbk && leb 0x80 c) (title + 1) s

unfoldable pub check_gbk : List ℕ → ℕ
check_gbk title = check_loop false 0 title
