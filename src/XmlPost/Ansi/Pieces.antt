-- ===== src/XmlPost/Ansi/Pieces.antt =====
-- What `_print_ansi_text` prints for a text, taken apart at its ESC bytes.
use mathlib.Core.Path.{ap₂}
use fbbs.Common.{
  subst, ℕ, zero, suc, ◌+◌, ◌<◌, ◌≡◌, refl, sym, ap, ◌∙◌, append_assoc, append-nil, Bool, true,
  false, ◌&&◌, List, [], ◌∷◌, ◌++◌, arith, leb, ◌==◌, if◌then◌else◌, length, length-append, inl,
  inr, Bool-cases,
}
use fbbs.Common.Run.{Run, ok}
use fbbs.XmlPost.{xml_escape}
use fbbs.XmlPost.Ansi.{
  Color, Codes, plain_color, no_codes, number, set_code, merge, code_loop, parse_ansi_code,
  open_color, close_color, ansi_loop, print_ansi_text,
}
use fbbs.XmlPost.Ansi.Colours.{IsColor, parse_ansi_code_lem}

-- The text before the first ESC, and that behind each of them.
unfoldable pub split : List ℕ → List ℕ × List (List ℕ)
split [] = ([], [])
split (c ∷ s) =
    let rest = split s in if c == 27 then ([], rest.0 ∷ rest.1) else (c ∷ rest.0, rest.1)

-- What is left of a text with more pieces behind it, and of its first piece by itself.
record Agrees (more : List (List ℕ)) (r q : List ℕ × Color) : Type 0 where
  texts : split r.0 ≡ (q.0, more)
  colors : r.1 ≡ q.1

split-esc :
    (c : ℕ) (s : List ℕ) → (c == 27) ≡ true → split (c ∷ s) ≡ ([], (split s).0 ∷ (split s).1)
unfolding split
split-esc c s h = rw (split, h) refl

split-char :
    (c : ℕ) (s : List ℕ) → (c == 27) ≡ false → split (c ∷ s) ≡ (c ∷ (split s).0, (split s).1)
unfolding split
split-char c s h = rw (split, h) refl

module _ (first : Bool) (a : Codes) (digits : List ℕ) (c : ℕ) (s : List ℕ) (k : Color) where
  -- Not a byte of a code.
  loop-stops :
      (c == 109) ≡ false
      → (c == 59) ≡ false
      → (leb 48 c && leb c 57) ≡ false
      → code_loop first a digits (c ∷ s) k ≡ (c ∷ s, k)
  unfolding code_loop
  loop-stops m semi digit = rw (m, semi, digit) refl

  loop-ends :
      (c == 109) ≡ true
      → code_loop first a digits (c ∷ s) k
        ≡ (s, if first then plain_color else merge (set_code a (number 0 digits)) k)
  unfolding code_loop
  loop-ends m = rw m refl

  loop-further :
      (c == 109) ≡ false
      → (c == 59) ≡ true
      → code_loop first a digits (c ∷ s) k ≡ code_loop false (set_code a (number 0 digits)) [] s k
  unfolding code_loop
  loop-further m semi = rw (m, semi) refl

  loop-longer :
      (c == 109) ≡ false
      → (c == 59) ≡ false
      → (leb 48 c && leb c 57) ≡ true
      → code_loop first a digits (c ∷ s) k ≡ code_loop false a (digits ++ c ∷ []) s k
  unfolding code_loop
  loop-longer m semi digit = rw (m, semi, digit) refl

Agrees-cast :
    (more : List (List ℕ)) {r r2 q q2 : List ℕ × Color}
    → r ≡ r2
    → q ≡ q2
    → Agrees more r2 q2
    → Agrees more r q
Agrees-cast more {r = r} {r2 = r2} {q = q} {q2 = q2} er eq g =
    subst (λ z. Agrees more z q) (sym er) (subst (λ z. Agrees more r2 z) (sym eq) g)

code_loop-nil :
    (first : Bool) (a : Codes) (digits : List ℕ) (k : Color)
    → code_loop first a digits [] k ≡ ([], k)
unfolding code_loop
code_loop-nil first a digits k = refl

code_loop-Agrees :
    (first : Bool) (a : Codes) (digits s : List ℕ) (k : Color)
    → Agrees (split s).1 (code_loop first a digits s k) (code_loop first a digits (split s).0 k)
code_loop-Agrees first a digits [] k =
    unfold split in unfold code_loop in record { texts = refl; colors = refl }
code_loop-Agrees first a digits (c ∷ s) k = elim (Bool-cases (c == 27)) [
  | inl esc ↦
      subst (λ z. Agrees z.1 (code_loop first a digits (c ∷ s) k) (code_loop first a digits z.0 k))
        (sym (split-esc c s esc))
        (Agrees-cast ((split s).0 ∷ (split s).1)
          (loop-stops first a digits c s k (ground (arith, esc)) (ground (arith, esc))
            (ground (arith, esc)))
          (code_loop-nil first a digits k) (record { texts = split-esc c s esc; colors = refl }))
  | inr other ↦
      let p = (split s).0 in
      let more = (split s).1 in
      subst (λ z. Agrees z.1 (code_loop first a digits (c ∷ s) k) (code_loop first a digits z.0 k))
        (sym (split-char c s other))
        (elim (Bool-cases (c == 109)) [
          | inl m ↦
              Agrees-cast more (loop-ends first a digits c s k m) (loop-ends first a digits c p k m)
                (record { texts = refl; colors = refl })
          | inr m ↦ elim (Bool-cases (c == 59)) [
            | inl semi ↦
                Agrees-cast more (loop-further first a digits c s k m semi)
                  (loop-further first a digits c p k m semi)
                  (code_loop-Agrees false (set_code a (number 0 digits)) [] s k)
            | inr no_semi ↦ elim (Bool-cases (leb 48 c && leb c 57)) [
              | inl digit ↦
                  Agrees-cast more (loop-longer first a digits c s k m no_semi digit)
                    (loop-longer first a digits c p k m no_semi digit)
                    (code_loop-Agrees false a (digits ++ c ∷ []) s k)
              | inr bad ↦
                  Agrees-cast more (loop-stops first a digits c s k m no_semi bad)
                    (loop-stops first a digits c p k m no_semi bad)
                    (record { texts = split-char c s other; colors = refl })
            ]
          ]
        ])
]

parse_ansi_code-Agrees :
    (s : List ℕ) (k : Color)
    → Agrees (split s).1 (parse_ansi_code s k) (parse_ansi_code (split s).0 k)
unfolding parse_ansi_code
parse_ansi_code-Agrees [] k = unfold split in record { texts = refl; colors = refl }
parse_ansi_code-Agrees (c ∷ s) k = elim (Bool-cases (c == 27)) [
  | inl esc ↦
      let other : (c == 91) ≡ false = ground (arith, esc) in
      subst (λ z. Agrees z.1 (parse_ansi_code (c ∷ s) k) (parse_ansi_code z.0 k))
        (sym (split-esc c s esc)) (rw other (record { texts = split-esc c s esc; colors = refl }))
  | inr char ↦
      subst (λ z. Agrees z.1 (parse_ansi_code (c ∷ s) k) (parse_ansi_code z.0 k))
        (sym (split-char c s char))
        (elim (Bool-cases (c == 91)) [
          | inl bracket ↦ rw bracket (code_loop-Agrees true no_codes [] s k)
          | inr other ↦ rw other (record { texts = split-char c s char; colors = refl })
        ])
]

module _ (convert : List ℕ → List ℕ) where
  -- Each piece is an element of the colour that its code leaves; what is printed, and the last colour.
  unfoldable pub coloured : List (List ℕ) → Color → List ℕ × Color
  coloured [] k = ([], k)
  coloured (piece ∷ pieces) k =
      let code = parse_ansi_code piece k in
      let rest = coloured pieces code.1 in
      (open_color code.1 ++ (xml_escape convert code.0 ++ (60 ∷ 47 ∷ 99 ∷ 62 ∷ rest.0)), rest.1)

  abbrev pub rendered :
      (opened : Bool) → (pending : List ℕ) → List ℕ × List (List ℕ) → Color → List ℕ × Color
  rendered opened pending z k =
      let r = coloured z.1 k in
      (xml_escape convert (pending ++ z.0) ++ (close_color opened ++ r.0), r.1)

  loop-esc :
      (fuel : ℕ) (opened : Bool) (pending : List ℕ) (c : ℕ) (s : List ℕ) (k last : Color)
      (out : List ℕ)
      → (c == 27) ≡ true
      → ansi_loop convert fuel true [] (parse_ansi_code s k).0 (parse_ansi_code s k).1
        ≡ ok (out, last)
      → ansi_loop convert (suc fuel) opened pending (c ∷ s) k
        ≡ ok (
          xml_escape convert pending
              ++ (close_color opened ++ (open_color (parse_ansi_code s k).1 ++ out)),
          last,
        )
  unfolding ansi_loop
  loop-esc fuel opened pending c s k last out esc e = rw (esc, e) refl

  loop-char :
      (fuel : ℕ) (opened : Bool) (pending : List ℕ) (c : ℕ) (s : List ℕ) (k : Color)
      → (c == 27) ≡ false
      → ansi_loop convert (suc fuel) opened pending (c ∷ s) k
        ≡ ansi_loop convert fuel opened (pending ++ c ∷ []) s k
  unfolding ansi_loop
  loop-char fuel opened pending c s k other = rw other refl

  abbrev framed :
      (opened : Bool) → (pending : List ℕ) → Color → List ℕ × Color → Run (List ℕ × Color)
  framed opened pending color r =
      ok (xml_escape convert pending ++ (close_color opened ++ (open_color color ++ r.0)), r.1)

  ansi_loop-rendered :
      (fuel : ℕ) (opened : Bool) (pending s : List ℕ) (k : Color)
      → IsColor k
      → length s < fuel
      → ansi_loop convert fuel opened pending s k ≡ ok (rendered opened pending (split s) k)
  unfolding coloured
  ansi_loop-rendered zero opened pending s k v f = absurd (omega (arith, f))
  ansi_loop-rendered (suc fuel) opened pending [] k v f =
      unfold ansi_loop in
      unfold split in
      ap (λ t. ok (t, k))
        (ap₂ (λ t u. xml_escape convert t ++ u) (sym (append-nil pending))
          (sym (append-nil (close_color opened))))
  ansi_loop-rendered (suc fuel) opened pending (c ∷ s) k v f = elim (Bool-cases (c == 27)) [
    | inl esc ↦
        let r = parse_ansi_code s k in
        let q = parse_ansi_code (split s).0 k in
        let more = (split s).1 in
        let agrees = parse_ansi_code-Agrees s k in
        let (taken, e, valid) = parse_ansi_code_lem s k v in
        let shorter : length r.0 < fuel = omega (arith, f, ap length e ∙ length-append taken r.0) in
        let next = ansi_loop-rendered fuel true [] r.0 r.1 valid shorter in
        loop-esc fuel opened pending c s k (rendered true [] (split r.0) r.1).1
          (rendered true [] (split r.0) r.1).0 esc next
        ∙ (ap₂ (λ z color. framed opened pending color (rendered true [] z color)) agrees.texts
              agrees.colors
            ∙ (ap
                  (λ t. ok (
                    xml_escape convert t
                        ++ (close_color opened ++ (coloured ((split s).0 ∷ more) k).0),
                    (coloured more q.1).1,
                  ))
                  (sym (append-nil pending))
                ∙ ap (λ z. ok (rendered opened pending z k)) (sym (split-esc c s esc))))
    | inr other ↦
        loop-char fuel opened pending c s k other
        ∙ (ansi_loop-rendered fuel opened (pending ++ c ∷ []) s k v (omega (arith, f))
            ∙ (ap
                  (λ t. ok (
                    xml_escape convert t ++ (close_color opened ++ (coloured (split s).1 k).0),
                    (coloured (split s).1 k).1,
                  ))
                  (append_assoc pending (c ∷ []) (split s).0)
                ∙ ap (λ z. ok (rendered opened pending z k)) (sym (split-char c s other))))
  ]

  coloured-IsColor :
      (pieces : List (List ℕ)) (k : Color) → IsColor k → IsColor (coloured pieces k).1
  unfolding coloured
  coloured-IsColor [] k v = v
  coloured-IsColor (piece ∷ pieces) k v =
      let (taken, e, valid) = parse_ansi_code_lem piece k v in
      coloured-IsColor pieces (parse_ansi_code piece k).1 valid

  pub print_ansi_text-coloured :
      (s : List ℕ) (k : Color)
      → IsColor k
      → (print_ansi_text convert s k
          ≡ ok (
            xml_escape convert (split s).0 ++ (coloured (split s).1 k).0,
            (coloured (split s).1 k).1,
          ))
        × IsColor (coloured (split s).1 k).1
  unfolding print_ansi_text
  print_ansi_text-coloured s k v = (
    ansi_loop-rendered (length s + 1) false [] s k v (omega arith),
    coloured-IsColor (split s).1 k v,
  )
