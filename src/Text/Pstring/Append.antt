-- ===== src/Text/Pstring/Append.antt =====
-- What `pstring` functions append, and where they write behind the block.
use fbbs.Common.{
  ℕ, zero, suc, ◌+◌, ◌-◌, ◌*◌, ◌%◌, ◌^◌, ◌≤◌, ◌<◌, ◌≡◌, refl, sym, ap, ◌∙◌, true, false, List, [],
  ◌∷◌, ◌++◌, arith, leb, ◌==◌, length, take, drop, replicate, length-replicate, length-take, inl,
  inr, Bool-cases,
}
use fbbs.Common.Run.{Run, ok, fault, bad_access, ◌>>=◌}
use fbbs.Common.Memory.{copy_in, copy_in-fits, overlay, length-overlay, take-overlay}
use fbbs.Text.Pstring.{
  Pstring, uint_max, pstring_move, pstring_realloc, pstring_append_c, pstring_append_string,
  pstring,
}

-- A string with room for its NUL, whose size can be doubled.
pub record IsPstring (s : Pstring) : Type 0 where
  pub whole : length s.str ≡ s.size
  pub room : s.len < s.size
  pub small : s.size < 2 ^ 31

-- The bytes of the string.
abbrev pub content : Pstring → List ℕ
content s = take s.len s.str

-- The string in a new block.
abbrev moved_to : Pstring → ℕ → Pstring
moved_to s size = record {
  str = overlay (replicate size 0) 0 (take (s.len + 1) s.str);
  len = s.len;
  size = size;
}

-- A block of the size in which the content is the same.
pub record Moves (s t : Pstring) (bytes : ℕ) : Type 0 where
  pub len : t.len ≡ s.len
  pub size : t.size ≡ bytes
  pub whole : length t.str ≡ bytes
  pub kept : content t ≡ content s

pub take-take : (n m : ℕ) (s : List ℕ) → n ≤ m → take n (take m s) ≡ take n s
take-take zero m s h = refl
take-take (suc n) zero s h = absurd (omega (arith, h))
take-take (suc n) (suc m) [] h = refl
take-take (suc n) (suc m) (c ∷ s) h = ap (λ t. c ∷ t) (take-take n m s (omega (arith, h)))

take-append_left : (n : ℕ) (s t : List ℕ) → n ≤ length s → take n (s ++ t) ≡ take n s
take-append_left zero s t h = refl
take-append_left (suc n) [] t h = absurd (omega (arith, h))
take-append_left (suc n) (c ∷ s) t h = ap (λ u. c ∷ u) (take-append_left n s t (omega (arith, h)))

pub pstring_move-Moves :
    (s : Pstring) (size : ℕ)
    → s.len < length s.str
    → s.len < size
    → (t : Pstring) × (pstring_move true s size ≡ ok t) × Moves s t size
unfolding pstring_move
pstring_move-Moves s size h room =
    let part : length (take (s.len + 1) s.str) ≡ s.len + 1 =
      ground (arith, length-take (s.len + 1) s.str, h) in
    let block : length (replicate {A = ℕ} size 0) ≡ size = length-replicate size 0 in
    let fits : 0 + length (take (s.len + 1) s.str) ≤ length (replicate {A = ℕ} size 0) =
      omega (arith, part, block, room) in
    let readable : leb (s.len + 1) (length s.str) ≡ true = ground (arith, h) in
    let copied = copy_in-fits (replicate size 0) 0 (take (s.len + 1) s.str) fits in
    (
      moved_to s size,
      rw (readable, copied) refl,
      record {
        len = refl;
        size = refl;
        whole = length-overlay (replicate size 0) 0 (take (s.len + 1) s.str) fits ∙ block;
        kept =
            take-append_left s.len (take (s.len + 1) s.str)
              (drop (0 + length (take (s.len + 1) s.str)) (replicate size 0)) (omega (arith, part))
            ∙ take-take s.len (s.len + 1) s.str (omega arith);
      },
    )

-- The string with twice the size.
pstring_realloc-Moves :
    (s : Pstring)
    → IsPstring s
    → (t : Pstring) × (pstring_realloc true s ≡ ok t) × Moves s t (s.size * 2)
unfolding pstring_realloc
pstring_realloc-Moves s v =
    let (t, run, m) =
      pstring_move-Moves s (s.size * 2) (omega (arith, v.whole, v.room)) (omega (arith, v.room)) in
    let can_grow : (s.size == uint_max) ≡ false = ground (arith, v.small) in
    let doubled : s.size * 2 % 2 ^ 32 ≡ s.size * 2 = omega (arith, v.small) in
    (t, rw (can_grow, doubled) run, m)

-- The block with bytes behind the content.
pub written-lem :
    (t : Pstring) (bytes : List ℕ)
    → t.len + length bytes ≤ length t.str
    → (copy_in t.str t.len bytes ≡ ok (overlay t.str t.len bytes))
      × (length (overlay t.str t.len bytes) ≡ length t.str)
      × (take (t.len + length bytes) (overlay t.str t.len bytes) ≡ content t ++ bytes)
written-lem t bytes h = (
  copy_in-fits t.str t.len bytes h,
  length-overlay t.str t.len bytes h,
  take-overlay t.str t.len bytes h,
)

-- A run that leaves a valid string with the bytes, in a block at most twice as large.
abbrev pub Appends : Pstring → List ℕ → Run Pstring → Type 0
Appends s bytes m =
    (t : Pstring) × (m ≡ ok t)
    × (content t ≡ content s ++ bytes)
    × (length t.str ≡ t.size)
    × (t.len < t.size)
    × (t.size ≤ 2 * s.size)

-- Writing behind a string that stands in a block with room for more than the bytes.
appended :
    (s t : Pstring) (bytes : List ℕ) (size : ℕ)
    → Moves s t size
    → s.len + length bytes < size
    → size ≤ 2 * s.size
    → Appends s bytes (do
      block ← copy_in t.str t.len bytes
      ok (record { str = block; len = t.len + length bytes; size = t.size }))
appended s t bytes size m h twice =
    let fits : t.len + length bytes ≤ length t.str = omega (arith, m.len, m.whole, h) in
    let (run, whole, text) = written-lem t bytes fits in
    rw run (
      record { str = overlay t.str t.len bytes; len = t.len + length bytes; size = t.size },
      refl,
      text ∙ ap (λ u. u ++ bytes) m.kept,
      whole ∙ (m.whole ∙ sym m.size),
      omega (arith, m.len, m.size, h),
      omega (arith, m.size, twice),
    )

stays : (s : Pstring) → IsPstring s → Moves s s s.size
stays s v = record { len = refl; size = refl; whole = v.whole; kept = refl }

-- Where the pool gives memory, a string is appended if doubling the block once makes room for it and a NUL.
pub append_string_lem :
    (s : Pstring) (str : List ℕ)
    → IsPstring s
    → s.len + length str < 2 * s.size
    → Appends s str (pstring_append_string true s str)
unfolding pstring_append_string
append_string_lem s str v h = elim (Bool-cases (leb s.size (s.len + length str))) [
  | inl full ↦
      let (t, run, m) = pstring_realloc-Moves s v in
      rw (full, run) (appended s t str (s.size * 2) m (omega (arith, h)) (omega arith))
  | inr room ↦ rw room (appended s s str s.size (stays s v) (ground (arith, room)) (omega arith))
]

-- A byte is appended to any valid string, whose block is doubled where it is full.
pub append_c_lem :
    (s : Pstring) (c : ℕ) → IsPstring s → Appends s (c % 2 ^ 8 ∷ []) (pstring_append_c true s c)
unfolding pstring_append_c
append_c_lem s c v = elim (Bool-cases (s.len == s.size - 1)) [
  | inl full ↦
      let (t, run, m) = pstring_realloc-Moves s v in
      rw (full, run)
        (appended s t (c % 2 ^ 8 ∷ []) (s.size * 2) m (omega (arith, v.room)) (omega arith))
  | inr room ↦
      let free : s.len + 1 < s.size = ground (arith, room, v.room) in
      rw room (appended s s (c % 2 ^ 8 ∷ []) s.size (stays s v) free (omega arith))
]

too_long :
    (block : List ℕ) (at : ℕ) (src : List ℕ)
    → length block < at + length src
    → copy_in block at src ≡ fault bad_access
unfolding copy_in
too_long block at src h = ground (arith, h)

no_nul :
    (block : List ℕ) (len size : ℕ)
    → length block ≤ len
    → pstring (record { str = block; len = len; size = size }) ≡ fault bad_access
unfolding pstring copy_in
no_nul block len size h =
    let over : leb (len + 1) (length block) ≡ false = ground (arith, h) in rw over refl

-- Where the pool gives memory, a longer string is written behind the block, or leaves no room for the
-- NUL, which is written behind it then.
pub append_string_overflows :
    (s : Pstring) (str : List ℕ)
    → IsPstring s
    → 2 * s.size ≤ s.len + length str
    → (pstring_append_string true s str >>= pstring) ≡ fault bad_access
unfolding pstring_append_string
append_string_overflows s str v h =
    let full : leb s.size (s.len + length str) ≡ true = ground (arith, h) in
    let (t, run, m) = pstring_realloc-Moves s v in
    rw (full, run)
      (elim (Bool-cases (leb (t.len + length str) (length t.str))) [
        | inl fits ↦
            let (copied, whole, text) = written-lem t str (ground (arith, fits)) in
            rw copied (
              no_nul (overlay t.str t.len str) (t.len + length str) t.size
                (omega (arith, whole, m.len, m.whole, h)))
        | inr over ↦ rw (too_long t.str t.len str (ground (arith, over))) refl
      ])
