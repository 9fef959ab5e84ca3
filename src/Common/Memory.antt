-- ===== src/Common/Memory.antt =====
-- `memcpy` and `memmove` inside a block of bytes; an access past the block is a fault.
use fbbs.Common.{
  take-length-append, append_assoc, sym, le→leb, ◌∙◌, ℕ, zero, suc, [], ◌∷◌, refl, ap, some, ◌+◌,
  ◌-◌, ◌≤◌, ◌<◌, ◌≡◌, List, ◌++◌, arith, ltb, leb, if◌then◌else◌, length, get_elem?, take, drop,
  length-append, length-take, length-drop, get_elem?-append, get_elem?-take, get_elem?-drop,
}
use fbbs.Common.Run.{Run, ok, fault, bad_access}

-- `memcpy(block + at, src, length src)`
unfoldable pub copy_in : List ℕ → ℕ → List ℕ → Run (List ℕ)
copy_in block at src =
    if leb (at + length src) (length block)
    then ok (take at block ++ (src ++ drop (at + length src) block))
    else fault bad_access

-- `memmove(block + dst, block + src, n)`
unfoldable pub move : List ℕ → (dst src n : ℕ) → Run (List ℕ)
move block dst src n =
    if leb (src + n) (length block)
    then copy_in block dst (take n (drop src block))
    else fault bad_access

-- The bytes `block[at .. at + n)`.
unfoldable pub copy_out : List ℕ → (at n : ℕ) → Run (List ℕ)
copy_out block at n =
    if leb (at + n) (length block) then ok (take n (drop at block)) else fault bad_access

abbrev pub overlay : List ℕ → ℕ → List ℕ → List ℕ
overlay block at src = take at block ++ (src ++ drop (at + length src) block)

pub copy_in-fits :
    (block : List ℕ) (at : ℕ) (src : List ℕ)
    → at + length src ≤ length block
    → copy_in block at src ≡ ok (overlay block at src)
unfolding copy_in
copy_in-fits block at src h = ground arith

pub length-overlay :
    (block : List ℕ) (at : ℕ) (src : List ℕ)
    → at + length src ≤ length block
    → length (overlay block at src) ≡ length block
length-overlay block at src h = omega (
  arith,
  length-append (take at block) (src ++ drop (at + length src) block),
  length-append src (drop (at + length src) block),
  length-take at block,
  length-drop (at + length src) block,
)

pub take-overlay :
    (block : List ℕ) (at : ℕ) (src : List ℕ)
    → at + length src ≤ length block
    → take (at + length src) (overlay block at src) ≡ take at block ++ src
take-overlay block at src h =
    let size : at + length src ≡ length (take at block ++ src) =
      omega (arith, length-append (take at block) src, length-take at block) in
    ap (take (at + length src))
      (sym (append_assoc (take at block) src (drop (at + length src) block)))
    ∙ ap (λ (n : ℕ). take n ((take at block ++ src) ++ drop (at + length src) block)) size
    ∙ take-length-append (take at block ++ src) (drop (at + length src) block)

-- Which byte stands where after the copy.
pub get_elem?-overlay :
    (block : List ℕ) (at : ℕ) (src : List ℕ) (i : ℕ)
    → at + length src ≤ length block
    → get_elem? (overlay block at src) i ≡ (
        if ltb i at
        then get_elem? block i
        else if ltb i (at + length src)
        then get_elem? src (i - at)
        else get_elem? block i)
get_elem?-overlay block at src i h = ground (
  arith,
  get_elem?-append (take at block) (src ++ drop (at + length src) block) i,
  get_elem?-append src (drop (at + length src) block) (i - at),
  length-take at block,
  get_elem?-take at block i,
  get_elem?-drop (at + length src) block (i - at - length src),
)

-- The block after `move` has moved `n` bytes.
abbrev pub moved : List ℕ → (dst src n : ℕ) → List ℕ
moved b dst src n = overlay b dst (take n (drop src b))

-- `memmove` towards the front, byte by byte.
module _ (b : List ℕ) (dst src n : ℕ) (room : src + n ≤ length b) (down : dst ≤ src) where
  taken : length (take n (drop src b)) ≡ n
  taken = omega (arith, length-take n (drop src b), length-drop src b)

  pub move-moved : move b dst src n ≡ ok (moved b dst src n)
  unfolding move
  move-moved = ground (arith, copy_in-fits b dst (take n (drop src b)), taken)

  pub length-moved : length (moved b dst src n) ≡ length b
  length-moved = length-overlay b dst (take n (drop src b)) (omega (arith, taken))

  pub get_elem?-moved_before : (i : ℕ) → i < dst → get_elem? (moved b dst src n) i ≡ get_elem? b i
  get_elem?-moved_before i h =
      ground (arith, get_elem?-overlay b dst (take n (drop src b)) i, taken)

  pub get_elem?-moved_inside :
      (i : ℕ)
      → dst ≤ i
      → i < dst + n
      → get_elem? (moved b dst src n) i ≡ get_elem? b (i + (src - dst))
  get_elem?-moved_inside i h k = ground (
    arith,
    get_elem?-overlay b dst (take n (drop src b)) i,
    taken,
    get_elem?-take n (drop src b) (i - dst),
    get_elem?-drop src b (i - dst),
  )

-- The bytes `xs` stand in `b` from `n` on.
abbrev pub StandsAt : List ℕ → ℕ → List ℕ → Type 0
StandsAt b n xs = (i : ℕ) → i < length xs → get_elem? b (n + i) ≡ get_elem? xs i

-- The bytes that stand at `n` are what is copied out from there.
pub take-drop_at :
    (b : List ℕ) (n : ℕ) (xs : List ℕ)
    → StandsAt b n xs
    → n + length xs ≤ length b
    → take (length xs) (drop n b) ≡ xs
take-drop_at b zero [] at h = refl
take-drop_at [] zero (x ∷ xs) at h = absurd (omega arith)
take-drop_at (y ∷ b) zero (x ∷ xs) at h =
    let rest =
      take-drop_at b zero xs
        (λ i lt.
          let e : suc (0 + i) ≡ 0 + suc i = omega arith in
          ap (get_elem? (y ∷ b)) e ∙ at (suc i) (omega arith))
        (omega arith) in
    let first : get_elem? (y ∷ b) (0 + 0) ≡ some x = at 0 (omega arith) in
    let same : y ≡ x = cc in cc
take-drop_at [] (suc n) xs at h = absurd (omega arith)
take-drop_at (y ∷ b) (suc n) xs at h =
    take-drop_at b n xs
      (λ i lt. let e : suc (n + i) ≡ suc n + i = omega arith in ap (get_elem? (y ∷ b)) e ∙ at i lt)
      (omega arith)

module _ (b : List ℕ) (at : ℕ) (src : List ℕ) (room : at + length src ≤ length b) where
  pub overlay-StandsAt : StandsAt (overlay b at src) at src
  overlay-StandsAt i h = ground (arith, get_elem?-overlay b at src (at + i))

  -- Bytes before the copy stay.
  pub overlay-StandsAt_before :
      (n : ℕ) (xs : List ℕ)
      → n + length xs ≤ at
      → StandsAt b n xs
      → StandsAt (overlay b at src) n xs
  overlay-StandsAt_before n xs h s i lt = ground (arith, get_elem?-overlay b at src (n + i), s i)

pub copy_out-StandsAt :
    (b : List ℕ) (n count : ℕ) (xs : List ℕ)
    → StandsAt b n xs
    → count ≡ length xs
    → n + count ≤ length b
    → copy_out b n count ≡ ok xs
unfolding copy_out
copy_out-StandsAt b n count xs at e h =
    rw (le→leb (n + count) (length b) h, e) (ap ok (take-drop_at b n xs at (omega arith)))
