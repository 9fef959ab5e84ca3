-- ===== src/Text/Utf8.antt =====
-- UTF-8 as the Unicode standard describes it, and `next_wchar` against it.
use fbbs.Common.{
  ◌∙◌, ap, ℕ, ◌+◌, ◌*◌, ◌/◌, ◌%◌, ◌^◌, ◌≤◌, ◌<◌, ◌≡◌, bit_or, List, [], ◌∷◌, ◌++◌, arith, ltb,
  if◌then◌else◌, length, inl, inr, Bool-cases,
}
use fbbs.Text.{is_cont, wide, next_wchar, starts_two, starts_three, starts_four}
use fbbs.Text.Bytes.{
  lead_two, lead_three, lead_four, cont-is_cont, cont_low, lead_low_two, lead_low_three,
  lead_low_four, joined,
}

-- The bytes of a character.
unfoldable pub encode : ℕ → List ℕ
encode c =
    if ltb c 0x80
    then c ∷ []
    else if ltb c 0x800
    then (0xc0 + c / 0x40) ∷ (0x80 + c % 0x40) ∷ []
    else if ltb c 0x10000
    then (0xe0 + c / 0x1000) ∷ (0x80 + c / 0x40 % 0x40) ∷ (0x80 + c % 0x40) ∷ []
    else (0xf0 + c / 0x40000)
      ∷ (0x80 + c / 0x1000 % 0x40)
      ∷ (0x80 + c / 0x40 % 0x40)
      ∷ (0x80 + c % 0x40)
      ∷ []

abbrev pub Decodes : List ℕ → (wc incr : ℕ) → Type 0
Decodes s wc incr = (left : ℕ) → incr ≤ left → next_wchar s left ≡ wide wc incr

module _ (s : List ℕ) where
  decode_two : (a b : ℕ) → a < 32 → b < 64 → Decodes ((0xc0 + a) ∷ (0x80 + b) ∷ s) (a * 2 ^ 6 + b) 2
  unfolding next_wchar starts_two
  decode_two a b h k left room = ground (
    arith,
    lead_two (0xc0 + a) (omega arith),
    cont-is_cont b k,
    lead_low_two a h,
    cont_low b k,
    joined 6 a b k,
  )

  decode_three :
      (a b c : ℕ)
      → a < 16
      → b < 64
      → c < 64
      → Decodes ((0xe0 + a) ∷ (0x80 + b) ∷ (0x80 + c) ∷ s) ((a * 2 ^ 6 + b) * 2 ^ 6 + c) 3
  unfolding next_wchar starts_two starts_three
  decode_three a b c h k l left room =
      let high : bit_or (a * 2 ^ 12) (b * 2 ^ 6) ≡ (a * 2 ^ 6 + b) * 2 ^ 6 =
        ap (λ (t : ℕ). bit_or t (b * 2 ^ 6)) (omega arith)
        ∙ joined 12 a (b * 2 ^ 6) (omega arith)
        ∙ omega arith in
      ground (
        arith,
        lead_two (0xe0 + a) (omega arith),
        lead_three (0xe0 + a) (omega arith),
        cont-is_cont b k,
        cont-is_cont c l,
        lead_low_three a h,
        cont_low b k,
        cont_low c l,
        high,
        joined 6 (a * 2 ^ 6 + b) c l,
      )

  decode_four :
      (a b c d : ℕ)
      → a < 8
      → b < 64
      → c < 64
      → d < 64
      → Decodes
          ((0xf0 + a) ∷ (0x80 + b) ∷ (0x80 + c) ∷ (0x80 + d) ∷ s)
          (((a * 2 ^ 6 + b) * 2 ^ 6 + c) * 2 ^ 6 + d)
          4
  unfolding next_wchar starts_two starts_three starts_four
  decode_four a b c d h k l m left room =
      let top : bit_or (a * 2 ^ 18) (b * 2 ^ 12) ≡ (a * 2 ^ 6 + b) * 2 ^ 12 =
        joined 18 a (b * 2 ^ 12) (omega arith) ∙ omega arith in
      let high : bit_or ((a * 2 ^ 6 + b) * 2 ^ 12) (c * 2 ^ 6)
          ≡ ((a * 2 ^ 6 + b) * 2 ^ 6 + c) * 2 ^ 6 =
        joined 12 (a * 2 ^ 6 + b) (c * 2 ^ 6) (omega arith) ∙ omega arith in
      ground (
        arith,
        lead_two (0xf0 + a) (omega arith),
        lead_three (0xf0 + a) (omega arith),
        lead_four (0xf0 + a) (omega arith),
        cont-is_cont b k,
        cont-is_cont c l,
        cont-is_cont d m,
        lead_low_four a h,
        cont_low b k,
        cont_low c l,
        cont_low d m,
        top,
        high,
        joined 6 ((a * 2 ^ 6 + b) * 2 ^ 6 + c) d m,
      )

-- A character that is neither NUL nor above the range of four bytes.
pub record IsChar (c : ℕ) : Type 0 where
  pub positive : 0 < c
  pub bounded : c < 2 ^ 21

-- `next_wchar` reads a character from its bytes, whatever follows them, if as many bytes are left.
pub next_wchar-encode :
    (c left : ℕ) (s : List ℕ)
    → IsChar c
    → length (encode c) ≤ left
    → next_wchar (encode c ++ s) left ≡ wide c (length (encode c))
unfolding encode
next_wchar-encode c left s v room = elim (Bool-cases (ltb c 0x80)) [
  | inl one ↦ rw one (unfold next_wchar in ground (arith, v.positive))
  | inr more ↦ elim (Bool-cases (ltb c 0x800)) [
    | inl two ↦
        let whole : c / 0x40 * 2 ^ 6 + c % 0x40 ≡ c = omega arith in
        rw (more, two)
          (decode_two s (c / 0x40) (c % 0x40) (ground arith) (omega arith) left (ground arith)
            ∙ ap (λ (t : ℕ). wide t 2) whole)
    | inr more2 ↦ elim (Bool-cases (ltb c 0x10000)) [
      | inl three ↦
          let whole : (c / 0x1000 * 2 ^ 6 + c / 0x40 % 0x40) * 2 ^ 6 + c % 0x40 ≡ c = omega arith in
          rw (more, more2, three)
            (decode_three s (c / 0x1000) (c / 0x40 % 0x40) (c % 0x40) (ground arith) (omega arith)
                (omega arith) left (ground arith)
              ∙ ap (λ (t : ℕ). wide t 3) whole)
      | inr four ↦
          let whole : ((c / 0x40000 * 2 ^ 6 + c / 0x1000 % 0x40) * 2 ^ 6 + c / 0x40 % 0x40) * 2 ^ 6
                + c % 0x40
              ≡ c =
            omega arith in
          rw (more, more2, four)
            (decode_four s (c / 0x40000) (c / 0x1000 % 0x40) (c / 0x40 % 0x40) (c % 0x40)
                (omega (arith, v.bounded)) (omega arith) (omega arith) (omega arith) left
                (ground arith)
              ∙ ap (λ (t : ℕ). wide t 4) whole)
    ]
  ]
]

-- What `next_wchar` reads stands in the string: the pointer moves by one byte at least, and neither
-- past the NUL nor past the bytes that are left.
pub next_wchar-bounds :
    (s : List ℕ) (left wc incr : ℕ)
    → next_wchar s left ≡ wide wc incr
    → (0 < incr) × (incr ≤ left) × (incr ≤ length s)
unfolding next_wchar starts_two starts_three starts_four is_cont
next_wchar-bounds [] left wc incr e = ground arith
next_wchar-bounds (a ∷ []) left wc incr e = ground arith
next_wchar-bounds (a ∷ b ∷ []) left wc incr e = ground arith
next_wchar-bounds (a ∷ b ∷ c ∷ []) left wc incr e = ground arith
next_wchar-bounds (a ∷ b ∷ c ∷ d ∷ s) left wc incr e = ground arith
