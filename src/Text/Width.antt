-- ===== src/Text/Width.antt =====
-- `fb_wcwidth`: how many columns a character takes, with the binary search in the table of characters
-- that take none.
pub mod Search
pub mod Columns
use fbbs.Common.{
  ℕ, zero, suc, ◌+◌, ◌-◌, ◌/◌, Bool, true, false, not, ◌&&◌, ◌||◌, Option, none, some, List, [],
  ◌∷◌, ltb, leb, ◌==◌, if◌then◌else◌, length, get_elem?,
}
use fbbs.Common.Run.{Run, ok, fault, bad_access, endless, ◌>>=◌}

-- `struct interval`
pub record Interval : Type 0 where
  pub first : ℕ
  pub last : ℕ

abbrev pub range : ℕ → ℕ → Interval
range a b = record { first = a; last = b }

unfoldable pub interval_at : List Interval → ℕ → Run Interval
interval_at table i = elim (get_elem? table i) [ none ↦ fault bad_access | some x ↦ ok x ]

-- The loop of `bisearch`, where `end` is `max + 1`.
pub search_loop : (fuel : ℕ) → (ucs : ℕ) → List Interval → (min end : ℕ) → Run Bool
search_loop zero ucs table min end = fault endless
search_loop (suc fuel) ucs table min end = if not (ltb min end) then ok false else do
  let mid = (min + end - 1) / 2
  x ← interval_at table mid
  if ltb x.last ucs
      then search_loop fuel ucs table (mid + 1) end
      else if ltb ucs x.first
      then search_loop fuel ucs table min mid
      else ok true

pub bisearch : (ucs : ℕ) → List Interval → (max : ℕ) → Run Bool
bisearch ucs table max = do
  low ← interval_at table 0
  high ← interval_at table max
  if ltb ucs low.first || ltb high.last ucs
      then ok false
      else search_loop (max + 2) ucs table 0 (max + 1)

-- -1 for a control character, or a number of columns.
pub data Width : Type 0 where
  control : Width
  columns : ℕ → Width

abbrev pub combining : List Interval
combining =
    range 0x0300 0x0357
    ∷ range 0x035D 0x036F
    ∷ range 0x0483 0x0486
    ∷ range 0x0488 0x0489
    ∷ range 0x0591 0x05A1
    ∷ range 0x05A3 0x05B9
    ∷ range 0x05BB 0x05BD
    ∷ range 0x05BF 0x05BF
    ∷ range 0x05C1 0x05C2
    ∷ range 0x05C4 0x05C4
    ∷ range 0x0600 0x0603
    ∷ range 0x0610 0x0615
    ∷ range 0x064B 0x0658
    ∷ range 0x0670 0x0670
    ∷ range 0x06D6 0x06E4
    ∷ range 0x06E7 0x06E8
    ∷ range 0x06EA 0x06ED
    ∷ range 0x070F 0x070F
    ∷ range 0x0711 0x0711
    ∷ range 0x0730 0x074A
    ∷ range 0x07A6 0x07B0
    ∷ range 0x0901 0x0902
    ∷ range 0x093C 0x093C
    ∷ range 0x0941 0x0948
    ∷ range 0x094D 0x094D
    ∷ range 0x0951 0x0954
    ∷ range 0x0962 0x0963
    ∷ range 0x0981 0x0981
    ∷ range 0x09BC 0x09BC
    ∷ range 0x09C1 0x09C4
    ∷ range 0x09CD 0x09CD
    ∷ range 0x09E2 0x09E3
    ∷ range 0x0A01 0x0A02
    ∷ range 0x0A3C 0x0A3C
    ∷ range 0x0A41 0x0A42
    ∷ range 0x0A47 0x0A48
    ∷ range 0x0A4B 0x0A4D
    ∷ range 0x0A70 0x0A71
    ∷ range 0x0A81 0x0A82
    ∷ range 0x0ABC 0x0ABC
    ∷ range 0x0AC1 0x0AC5
    ∷ range 0x0AC7 0x0AC8
    ∷ range 0x0ACD 0x0ACD
    ∷ range 0x0AE2 0x0AE3
    ∷ range 0x0B01 0x0B01
    ∷ range 0x0B3C 0x0B3C
    ∷ range 0x0B3F 0x0B3F
    ∷ range 0x0B41 0x0B43
    ∷ range 0x0B4D 0x0B4D
    ∷ range 0x0B56 0x0B56
    ∷ range 0x0B82 0x0B82
    ∷ range 0x0BC0 0x0BC0
    ∷ range 0x0BCD 0x0BCD
    ∷ range 0x0C3E 0x0C40
    ∷ range 0x0C46 0x0C48
    ∷ range 0x0C4A 0x0C4D
    ∷ range 0x0C55 0x0C56
    ∷ range 0x0CBC 0x0CBC
    ∷ range 0x0CBF 0x0CBF
    ∷ range 0x0CC6 0x0CC6
    ∷ range 0x0CCC 0x0CCD
    ∷ range 0x0D41 0x0D43
    ∷ range 0x0D4D 0x0D4D
    ∷ range 0x0DCA 0x0DCA
    ∷ range 0x0DD2 0x0DD4
    ∷ range 0x0DD6 0x0DD6
    ∷ range 0x0E31 0x0E31
    ∷ range 0x0E34 0x0E3A
    ∷ range 0x0E47 0x0E4E
    ∷ range 0x0EB1 0x0EB1
    ∷ range 0x0EB4 0x0EB9
    ∷ range 0x0EBB 0x0EBC
    ∷ range 0x0EC8 0x0ECD
    ∷ range 0x0F18 0x0F19
    ∷ range 0x0F35 0x0F35
    ∷ range 0x0F37 0x0F37
    ∷ range 0x0F39 0x0F39
    ∷ range 0x0F71 0x0F7E
    ∷ range 0x0F80 0x0F84
    ∷ range 0x0F86 0x0F87
    ∷ range 0x0F90 0x0F97
    ∷ range 0x0F99 0x0FBC
    ∷ range 0x0FC6 0x0FC6
    ∷ range 0x102D 0x1030
    ∷ range 0x1032 0x1032
    ∷ range 0x1036 0x1037
    ∷ range 0x1039 0x1039
    ∷ range 0x1058 0x1059
    ∷ range 0x1160 0x11FF
    ∷ range 0x1712 0x1714
    ∷ range 0x1732 0x1734
    ∷ range 0x1752 0x1753
    ∷ range 0x1772 0x1773
    ∷ range 0x17B4 0x17B5
    ∷ range 0x17B7 0x17BD
    ∷ range 0x17C6 0x17C6
    ∷ range 0x17C9 0x17D3
    ∷ range 0x17DD 0x17DD
    ∷ range 0x180B 0x180D
    ∷ range 0x18A9 0x18A9
    ∷ range 0x1920 0x1922
    ∷ range 0x1927 0x1928
    ∷ range 0x1932 0x1932
    ∷ range 0x1939 0x193B
    ∷ range 0x200B 0x200F
    ∷ range 0x202A 0x202E
    ∷ range 0x2060 0x2063
    ∷ range 0x206A 0x206F
    ∷ range 0x20D0 0x20EA
    ∷ range 0x302A 0x302F
    ∷ range 0x3099 0x309A
    ∷ range 0xFB1E 0xFB1E
    ∷ range 0xFE00 0xFE0F
    ∷ range 0xFE20 0xFE23
    ∷ range 0xFEFF 0xFEFF
    ∷ range 0xFFF9 0xFFFB
    ∷ range 0x1D167 0x1D169
    ∷ range 0x1D173 0x1D182
    ∷ range 0x1D185 0x1D18B
    ∷ range 0x1D1AA 0x1D1AD
    ∷ range 0xE0001 0xE0001
    ∷ range 0xE0020 0xE007F
    ∷ range 0xE0100 0xE01EF
    ∷ []

-- The characters of two columns.
unfoldable pub is_wide : ℕ → Bool
is_wide ch =
    leb 0x1100 ch
    && (leb ch 0x115f
        || ch == 0x2329
        || ch == 0x232a
        || (leb 0x2e80 ch && leb ch 0xa4cf && not (ch == 0x303f))
        || (leb 0xac00 ch && leb ch 0xd7a3)
        || (leb 0xf900 ch && leb ch 0xfaff)
        || (leb 0xfe30 ch && leb ch 0xfe6f)
        || (leb 0xff00 ch && leb ch 0xff60)
        || (leb 0xffe0 ch && leb ch 0xffe6)
        || (leb 0x20000 ch && leb ch 0x2fffd)
        || (leb 0x30000 ch && leb ch 0x3fffd))

unfoldable pub fb_wcwidth : ℕ → Run Width
fb_wcwidth ch =
    if ch == 0
    then ok (columns 0)
    else if ltb ch 32 || (leb 0x7f ch && ltb ch 0xa0)
    then ok control
    else do
      found ← bisearch ch combining (length combining - 1)
      ok (columns (if found then 0 else if is_wide ch then 2 else 1))
