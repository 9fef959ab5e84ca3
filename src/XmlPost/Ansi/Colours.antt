-- ===== src/XmlPost/Ansi/Colours.antt =====
-- Colour codes: what is taken, which colours are left, and the elements that are printed.
use fbbs.Common.{
  length-append, not, append-nil, All-append, ℕ, zero, suc, ◌+◌, ◌/◌, ◌%◌, ◌≤◌, ◌<◌, ◌≡◌, refl, ap,
  ◌∙◌, subst, append_assoc, Bool, true, false, ◌&&◌, ◌||◌, Option, none, some, List, [], ◌∷◌, ◌++◌,
  arith, leb, ltb, ◌==◌, if◌then◌else◌, length, inl, inr, Bool-cases,
}
use fbbs.Common.Run.{Run, ok}
use fbbs.XmlPost.{xml_escape}
use fbbs.XmlPost.Ansi.{
  Color, Codes, plain_color, no_codes, number, set_code, or_else, merge, code_loop, parse_ansi_code,
  decimal, open_color, close_color, ansi_loop, print_ansi_text,
}
use fbbs.XmlPost.Content.{
  nothing, is_text, IsContent, IsValue, start_tag, end_tag, attributes, Closes, IsContent-Closes,
  IsContent-append, Closes-append, Closes-end, escape-IsContent,
}

-- The colours of a terminal.
pub record IsColor (k : Color) : Type 0 where
  pub hl : k.hl ≤ 1
  pub fg_low : 30 ≤ k.fg
  pub fg_high : k.fg ≤ 37
  pub bg_low : 40 ≤ k.bg
  pub bg_high : k.bg ≤ 47

-- What a code that was read sets.
abbrev Within : ℕ → ℕ → Option ℕ → Type 0
Within low high none = Unit
Within low high (some n) = (low ≤ n) × (n ≤ high)

record AreCodes (a : Codes) : Type 0 where
  hl : Within 0 1 a.hl
  fg : Within 30 37 a.fg
  bg : Within 40 47 a.bg

set_code-AreCodes : (a : Codes) (num : ℕ) → AreCodes a → AreCodes (set_code a num)
unfolding set_code
set_code-AreCodes a num v = elim (Bool-cases (num == 0 || num == 1)) [
  | inl h ↦ rw h (record { hl = (omega arith, ground (arith, h)); fg = v.fg; bg = v.bg })
  | inr x ↦ elim (Bool-cases (leb 30 num && leb num 37)) [
    | inl f ↦
        rw (x, f) (record { hl = v.hl; fg = (ground (arith, f), ground (arith, f)); bg = v.bg })
    | inr y ↦ elim (Bool-cases (leb 40 num && leb num 47)) [
      | inl b ↦
          rw (x, y, b)
            (record { hl = v.hl; fg = v.fg; bg = (ground (arith, b), ground (arith, b)) })
      | inr z ↦ rw (x, y, z) v
    ]
  ]
]

or_else-Within :
    (low high : ℕ) (o : Option ℕ) (n : ℕ)
    → Within low high o
    → low ≤ n
    → n ≤ high
    → (low ≤ or_else o n) × (or_else o n ≤ high)
or_else-Within low high none n w l h = (l, h)
or_else-Within low high (some m) n w l h = w

merge-IsColor : (a : Codes) (k : Color) → AreCodes a → IsColor k → IsColor (merge a k)
unfolding merge
merge-IsColor a k v c =
    let (h0, h1) = or_else-Within 0 1 a.hl k.hl v.hl (omega arith) c.hl in
    let (f0, f1) = or_else-Within 30 37 a.fg k.fg v.fg c.fg_low c.fg_high in
    let (b0, b1) = or_else-Within 40 47 a.bg k.bg v.bg c.bg_low c.bg_high in
    record { hl = h1; fg_low = f0; fg_high = f1; bg_low = b0; bg_high = b1 }

pub plain-IsColor : IsColor plain_color
plain-IsColor = record {
  hl = omega arith;
  fg_low = omega arith;
  fg_high = omega arith;
  bg_low = omega arith;
  bg_high = omega arith;
}

-- A part of the text behind the code, and colours of a terminal.
abbrev Read : List ℕ → List ℕ × Color → Type 0
Read s r = (taken : List ℕ) × (s ≡ taken ++ r.0) × IsColor r.1

Read-cons : (c : ℕ) (s : List ℕ) (r : List ℕ × Color) → Read s r → Read (c ∷ s) r
Read-cons c s r (taken, e, k) = (c ∷ taken, ap (λ (t : List ℕ). c ∷ t) e, k)

code_loop-Read :
    (first : Bool) (a : Codes) (digits s : List ℕ) (k : Color)
    → AreCodes a
    → IsColor k
    → Read s (code_loop first a digits s k)
unfolding code_loop
code_loop-Read first a digits [] k v c = ([], refl, c)
code_loop-Read first a digits (x ∷ s) k v c =
    let read : AreCodes (set_code a (number 0 digits)) = set_code-AreCodes a (number 0 digits) v in
    elim (Bool-cases (x == 109)) [
      | inl m ↦ rw m (x ∷ [], refl, ended first read)
      | inr n ↦ elim (Bool-cases (x == 59)) [
        | inl semicolon ↦
            rw (n, semicolon)
              (Read-cons x s (code_loop false (set_code a (number 0 digits)) [] s k)
                (code_loop-Read false (set_code a (number 0 digits)) [] s k read c))
        | inr other ↦ elim (Bool-cases (leb 48 x && leb x 57)) [
          | inl digit ↦
              rw (n, other, digit)
                (Read-cons x s (code_loop false a (digits ++ x ∷ []) s k)
                  (code_loop-Read false a (digits ++ x ∷ []) s k v c))
          | inr bad ↦ rw (n, other, bad) ([], refl, c)
        ]
      ]
    ]
  where
    ended :
        (b : Bool)
        → AreCodes (set_code a (number 0 digits))
        → IsColor (if b then plain_color else merge (set_code a (number 0 digits)) k)
    ended true r = plain-IsColor
    ended false r = merge-IsColor (set_code a (number 0 digits)) k r c

-- A colour code ends within the text, at most where this ends, and leaves a colour that a terminal has,
-- whatever stands in it.
pub parse_ansi_code_lem :
    (s : List ℕ) (k : Color)
    → IsColor k
    → (taken : List ℕ) × (s ≡ taken ++ (parse_ansi_code s k).0) × IsColor (parse_ansi_code s k).1
unfolding parse_ansi_code
parse_ansi_code_lem [] k c = ([], refl, c)
parse_ansi_code_lem (x ∷ s) k c = elim (Bool-cases (x == 91)) [
  | inl bracket ↦ rw bracket (
      Read-cons x s (code_loop true no_codes [] s k)
        (code_loop-Read true no_codes [] s k (record { hl = tt; fg = tt; bg = tt }) c))
  | inr other ↦ rw other ([], refl, c)
]

decimal-IsValue : (fuel n : ℕ) → IsValue (decimal fuel n)
unfolding decimal
decimal-IsValue zero n = tt
decimal-IsValue (suc fuel) n = elim (Bool-cases (ltb n 10)) [
  | inl small ↦ rw small (ground arith, tt)
  | inr large ↦ rw large (
      All-append (λ c. (is_text c && not (c == 39)) ≡ true) (decimal fuel (n / 10))
        ((48 + n % 10) ∷ []) (decimal-IsValue fuel (n / 10)) (ground arith, tt))
]

pub open_color-start_tag :
    (k : Color) (s : List ℕ)
    → open_color k ++ s
      ≡ start_tag (99 ∷ []) (
          (104 ∷ [], decimal (k.hl + 1) k.hl)
          ∷ (102 ∷ [], decimal (k.fg + 1) k.fg)
          ∷ (98 ∷ [], decimal (k.bg + 1) k.bg)
          ∷ [])
        ++ s
unfolding attributes
open_color-start_tag k s = simp append_assoc

-- The element of a colour.
color-IsContent : (k : Color) (s : List ℕ) → Closes (99 ∷ []) s → IsContent (open_color k ++ s)
color-IsContent k s c = rw (open_color-start_tag k s) (
    IsContent-Closes (99 ∷ []) _ s (refl, tt)
      (
        ((refl, tt), decimal-IsValue (k.hl + 1) k.hl),
        (
          ((refl, tt), decimal-IsValue (k.fg + 1) k.fg),
          (((refl, tt), decimal-IsValue (k.bg + 1) k.bg), tt),
        ),
      )
      c)

-- What the loop prints: content, or the end of an element that is open.
abbrev Prints : Bool → List ℕ → Type 0
Prints false s = IsContent s
Prints true s = Closes (99 ∷ []) s

Prints-text :
    (opened : Bool) (s t : List ℕ)
    → IsContent s
    → IsContent t
    → Prints opened (s ++ (close_color opened ++ t))
Prints-text false s t x y = IsContent-append x y
Prints-text true s t x y =
    Closes-append (99 ∷ []) s (end_tag (99 ∷ []) ++ t) x (Closes-end (99 ∷ []) t y)

-- A run that prints content and leaves colours of a terminal.
abbrev Printed : (List ℕ → Type 0) → Run (List ℕ × Color) → Type 0
Printed P m = (out : List ℕ) × (k : Color) × (m ≡ ok (out, k)) × P out × IsColor k

module _ (convert : List ℕ → List ℕ) where
  ansi_loop-Prints :
      (fuel : ℕ) (opened : Bool) (pending s : List ℕ) (k : Color)
      → length s < fuel
      → IsColor k
      → Printed (Prints opened) (ansi_loop convert fuel opened pending s k)
  unfolding ansi_loop
  ansi_loop-Prints zero opened pending s k f c = absurd (omega arith)
  ansi_loop-Prints (suc fuel) opened pending [] k f c = (
    xml_escape convert pending ++ close_color opened,
    k,
    refl,
    subst (λ (t : List ℕ). Prints opened (xml_escape convert pending ++ t))
        (append-nil (close_color opened))
        (Prints-text opened (xml_escape convert pending) [] (escape-IsContent (convert pending))
          nothing),
    c,
  )
  ansi_loop-Prints (suc fuel) opened pending (x ∷ s) k f c = elim (Bool-cases (x == 27)) [
    | inl code ↦
        let (taken, e, valid) = parse_ansi_code_lem s k c in
        let size : length s ≡ length taken + length (parse_ansi_code s k).0 =
          ap length e ∙ length-append taken (parse_ansi_code s k).0 in
        let (out, last, run, content, color) =
          ansi_loop-Prints fuel true [] (parse_ansi_code s k).0 (parse_ansi_code s k).1
            (omega (arith, size)) valid in
        rw (code, run)
          (
            xml_escape convert pending
                ++ (close_color opened ++ (open_color (parse_ansi_code s k).1 ++ out)),
            last,
            refl,
            Prints-text opened (xml_escape convert pending)
                (open_color (parse_ansi_code s k).1 ++ out) (escape-IsContent (convert pending))
                (color-IsContent (parse_ansi_code s k).1 out content),
            color,
          )
    | inr other ↦ rw other (ansi_loop-Prints fuel opened (pending ++ x ∷ []) s k (omega arith) c)
  ]

  -- Any text is printed, as text and elements, each closed by its tag, and the colours left are those of a
  -- terminal.
  pub print_ansi_text-IsContent :
      (s : List ℕ) (k : Color)
      → IsColor k
      → (out : List ℕ) × (last : Color) × (print_ansi_text convert s k ≡ ok (out, last))
        × IsContent out
        × IsColor last
  unfolding print_ansi_text
  print_ansi_text-IsContent s k c = ansi_loop-Prints (length s + 1) false [] s k (omega arith) c
