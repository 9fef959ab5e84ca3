-- ===== src/Text/Tail.antt =====
-- The bytes of a character, and of a character that was cut off.
use fbbs.Common.{
  ◌∙◌, ap, ℕ, zero, suc, ◌+◌, ◌/◌, ◌%◌, ◌<◌, ◌≡◌, refl, true, false, List, [], ◌∷◌, arith, ltb,
  length, take, All, inl, inr, Bool-cases,
}
use fbbs.Text.{is_cont, invalid, next_wchar, starts_two, starts_three, starts_four, no_limit}
use fbbs.Text.Bytes.{lead_two, lead_three, is_cont_range, cont-is_cont}
use fbbs.Text.Utf8.{encode, IsChar}

abbrev pub AllCont : List ℕ → Type 0
AllCont bytes = All (λ b. is_cont b ≡ true) bytes

abbrev pub CutIsInvalid : (lead : ℕ) → List ℕ → Type 0
CutIsInvalid lead conts =
    (m : ℕ) → m < length conts → next_wchar (lead ∷ take m conts) no_limit ≡ invalid

-- A first byte, and continuation bytes without all of which it is no character.
pub record IsSequence (lead : ℕ) (conts : List ℕ) : Type 0 where
  pub starts : is_cont lead ≡ false
  pub continues : AllCont conts
  pub cut : CutIsInvalid lead conts

IsSequence-one : (a : ℕ) → a < 0x80 → IsSequence a []
IsSequence-one a h = record {
  starts = is_cont_range a (omega arith) ∙ ground arith;
  continues = tt;
  cut = λ m k. absurd (omega arith);
}

cut_two : (a b : ℕ) → a < 32 → CutIsInvalid (0xc0 + a) (b ∷ [])
unfolding next_wchar starts_two starts_three starts_four is_cont
cut_two a b h zero k = ground arith
cut_two a b h (suc m) k = absurd (omega arith)

cut_three : (a b c : ℕ) → a < 16 → CutIsInvalid (0xe0 + a) (b ∷ c ∷ [])
unfolding next_wchar starts_two starts_three starts_four is_cont
cut_three a b c h zero k = ground arith
cut_three a b c h (suc zero) k = ground (arith, lead_two (0xe0 + a) (omega arith))
cut_three a b c h (suc (suc m)) k = absurd (omega arith)

cut_four : (a b c d : ℕ) → a < 8 → CutIsInvalid (0xf0 + a) (b ∷ c ∷ d ∷ [])
unfolding next_wchar starts_two starts_three starts_four is_cont
cut_four a b c d h zero k = ground arith
cut_four a b c d h (suc zero) k = ground (arith, lead_two (0xf0 + a) (omega arith))
cut_four a b c d h (suc (suc zero)) k =
    ground (arith, lead_two (0xf0 + a) (omega arith), lead_three (0xf0 + a) (omega arith))
cut_four a b c d h (suc (suc (suc m))) k = absurd (omega arith)

lead_starts : (a : ℕ) → a < 64 → is_cont (0xc0 + a) ≡ false
lead_starts a h = is_cont_range (0xc0 + a) (omega arith) ∙ ground arith

abbrev pub HasSequence : List ℕ → Type 0
HasSequence bytes = (lead : ℕ) × (conts : List ℕ) × (bytes ≡ lead ∷ conts) × IsSequence lead conts

pub encode-HasSequence : (c : ℕ) → IsChar c → HasSequence (encode c)
unfolding encode
encode-HasSequence c v = elim (Bool-cases (ltb c 0x80)) [
  | inl one ↦ rw one (c, [], refl, IsSequence-one c (ground arith))
  | inr more ↦ elim (Bool-cases (ltb c 0x800)) [
    | inl two ↦
        let h : c / 0x40 < 32 = ground arith in
        rw (more, two)
          (
            0xc0 + c / 0x40,
            (0x80 + c % 0x40) ∷ [],
            refl,
            record {
              starts = lead_starts (c / 0x40) (omega arith);
              continues = (cont-is_cont (c % 0x40) (omega arith), tt);
              cut = cut_two (c / 0x40) (0x80 + c % 0x40) h;
            },
          )
    | inr more2 ↦ elim (Bool-cases (ltb c 0x10000)) [
      | inl three ↦
          let h : c / 0x1000 < 16 = ground arith in
          rw (more, more2, three)
            (
              0xe0 + c / 0x1000,
              (0x80 + c / 0x40 % 0x40) ∷ (0x80 + c % 0x40) ∷ [],
              refl,
              record {
                starts = ap is_cont (omega arith) ∙ lead_starts (32 + c / 0x1000) (omega arith);
                continues = (
                  cont-is_cont (c / 0x40 % 0x40) (omega arith),
                  (cont-is_cont (c % 0x40) (omega arith), tt),
                );
                cut = cut_three (c / 0x1000) (0x80 + c / 0x40 % 0x40) (0x80 + c % 0x40) h;
              },
            )
      | inr four ↦
          let h : c / 0x40000 < 8 = omega (arith, v.bounded) in
          rw (more, more2, four)
            (
              0xf0 + c / 0x40000,
              (0x80 + c / 0x1000 % 0x40) ∷ (0x80 + c / 0x40 % 0x40) ∷ (0x80 + c % 0x40) ∷ [],
              refl,
              record {
                starts = ap is_cont (omega arith) ∙ lead_starts (48 + c / 0x40000) (omega arith);
                continues = (
                  cont-is_cont (c / 0x1000 % 0x40) (omega arith),
                  (
                    cont-is_cont (c / 0x40 % 0x40) (omega arith),
                    (cont-is_cont (c % 0x40) (omega arith), tt),
                  ),
                );
                cut =
                    cut_four (c / 0x40000) (0x80 + c / 0x1000 % 0x40) (0x80 + c / 0x40 % 0x40)
                      (0x80 + c % 0x40) h;
              },
            )
    ]
  ]
]
