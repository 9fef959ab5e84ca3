-- ===== src/XmlPost/Body/Lines.antt =====
-- The lines of a body, and what stands for them in what `_print_body` prints.
use mathlib.Core.Path.{ap₂}
use mathlib.Core.Path.{ap₂}
use fbbs.Text.Case.{to_lower}
use fbbs.Common.{
  ◌||◌, ltb, All, ltb, All, ◌||◌, ℕ, ◌≡◌, ◌≢◌, refl, sym, ap, ◌∙◌, subst, Bool, true, false, ◌&&◌,
  not, List, [], ◌∷◌, ◌++◌, arith, ◌==◌, if◌then◌else◌, inl, inr, Bool-cases,
}
use fbbs.Common.Run.{ok}
use fbbs.Common.CString.{begins_with}
use fbbs.XmlPost.{begins_with_case, to_lower, get_line_end}
use fbbs.XmlPost.Paragraph.{Options, print_paragraph}
use fbbs.XmlPost.Body.{
  is_quote, is_signature, close_part, open_part, open_line, close_line, line_break, is_blank,
}

-- The lines of a text, each with its newline.
abbrev longer : ℕ → List (List ℕ) → List (List ℕ)
longer c [] = (c ∷ []) ∷ []
longer c (l ∷ ls) = (c ∷ l) ∷ ls

unfoldable pub lines : List ℕ → List (List ℕ)
lines [] = []
lines (c ∷ s) = let more = lines s in if c == 10 then (c ∷ []) ∷ more else longer c more

pub lines-get_line_end :
    (c : ℕ) (s : List ℕ) → lines (c ∷ s) ≡ (get_line_end (c ∷ s)).0 ∷ lines (get_line_end (c ∷ s)).1
unfolding lines get_line_end
lines-get_line_end c [] = elim (Bool-cases (c == 10)) [
  | inl newline ↦ rw newline refl
  | inr other ↦ rw other refl
]
lines-get_line_end c (d ∷ s) = elim (Bool-cases (c == 10)) [
  | inl newline ↦ rw newline refl
  | inr other ↦ rw other (ap (longer c) (lines-get_line_end d s))
]

-- "--\n"
abbrev pub signature_line : List ℕ
signature_line = 45 ∷ 45 ∷ 10 ∷ []

-- The end of a part, and the one for a signature, with its line "--".
abbrev pub signature_part : (more : List ℕ) → List ℕ
signature_part more =
    close_part ++ (open_part 115 ++ (open_line ++ (45 ∷ 45 ∷ (close_line ++ more))))

pub is_signature-eq : (l : List ℕ) → is_signature l ≡ true → l ≡ signature_line
unfolding is_signature begins_with
is_signature-eq [] h = absurd (ground (arith, h))
is_signature-eq (a ∷ []) h = absurd (ground (arith, h))
is_signature-eq (a ∷ b ∷ []) h = absurd (ground (arith, h))
is_signature-eq (a ∷ b ∷ c ∷ []) h =
    let first : a ≡ 45 = ground (arith, h) in
    let second : b ≡ 45 = ground (arith, h) in
    let third : c ≡ 10 = ground (arith, h) in rw (first, second, third) refl
is_signature-eq (a ∷ b ∷ c ∷ d ∷ s) h = absurd (ground (arith, h))

pub is_signature-ne : (l : List ℕ) → is_signature l ≡ false → l ≢ signature_line
unfolding is_signature begins_with
is_signature-ne l h e = absurd (ground (arith, sym h ∙ ap is_signature e))

-- Whether a line begins with ": " or with the bytes of "【 在 " without its first space.
abbrev pub quotes : List ℕ → Bool
quotes l =
    begins_with (58 ∷ 32 ∷ []) l
    || begins_with (0xe3 ∷ 0x80 ∷ 0x90 ∷ 0x20 ∷ 0xe5 ∷ 0x9c ∷ 0xa8 ∷ 0x20 ∷ []) l

same_letter : (p c : ℕ) → (ltb p 65 || ltb 122 p) ≡ true → (to_lower p == to_lower c) ≡ (p == c)
unfolding to_lower
same_letter p c h = ground (arith, h)

begins_with_case-begins_with :
    (ps l : List ℕ)
    → All (λ p. (ltb p 65 || ltb 122 p) ≡ true) ps
    → begins_with_case ps l ≡ begins_with ps l
unfolding begins_with_case begins_with
begins_with_case-begins_with [] l h = refl
begins_with_case-begins_with (p ∷ ps) [] h = refl
begins_with_case-begins_with (p ∷ ps) (c ∷ l) h =
    ap₂ (λ a b. a && b) (same_letter p c h.0) (begins_with_case-begins_with ps l h.1)

pub is_quote-quotes : (l : List ℕ) → is_quote l ≡ quotes l
unfolding is_quote
is_quote-quotes l =
    ap₂ (λ a b. a || b) (begins_with_case-begins_with (58 ∷ 32 ∷ []) l (refl, (refl, tt)))
      (begins_with_case-begins_with (0xe3 ∷ 0x80 ∷ 0x90 ∷ 0x20 ∷ 0xe5 ∷ 0x9c ∷ 0xa8 ∷ 0x20 ∷ []) l
        (refl, (refl, (refl, (refl, (refl, (refl, (refl, (refl, tt)))))))))

module _ (convert : List ℕ → List ℕ) (o : Options) where
  -- A line of a quote or of the signature, and what is printed for it: a line break for one of one byte or
  -- of a carriage return and one, and else its paragraph, in which images are links where the options ask for it.
  pub data Shown : (quote sig : Bool) → (line out : List ℕ) → Type 0 where
    blank :
        (quote sig : Bool) (c : ℕ)
        → Shown quote sig (c ∷ []) (open_line ++ (line_break ++ close_line))
    blank_return :
        (quote sig : Bool) (c : ℕ)
        → Shown quote sig (13 ∷ c ∷ []) (open_line ++ (line_break ++ close_line))
    text :
        (quote sig : Bool) (line shown : List ℕ)
        → ((c : ℕ) → line ≢ c ∷ [])
        → ((c : ℕ) → line ≢ 13 ∷ c ∷ [])
        → print_paragraph convert
            (record o { no_quote_img = quote && o.no_quote_img; no_sig_img = sig && o.no_sig_img })
            line
          ≡ ok shown
        → Shown quote sig line (open_line ++ (shown ++ close_line))

  pub is_blank-Shown :
      (quote sig : Bool) (line : List ℕ)
      → is_blank line ≡ true
      → Shown quote sig line (open_line ++ (line_break ++ close_line))
  unfolding is_blank
  is_blank-Shown quote sig [] h = absurd (ground (arith, h))
  is_blank-Shown quote sig (c ∷ []) h = blank quote sig c
  is_blank-Shown quote sig (c ∷ d ∷ []) h =
      let return : 13 ≡ c = ground (arith, h) in
      subst (λ x. Shown quote sig (x ∷ d ∷ []) (open_line ++ (line_break ++ close_line))) return
        (blank_return quote sig d)
  is_blank-Shown quote sig (c ∷ d ∷ e ∷ s) h = absurd (ground (arith, h))

  pub is_blank-ne : (line : List ℕ) → is_blank line ≡ false → (c : ℕ) → line ≢ c ∷ []
  unfolding is_blank
  is_blank-ne line h c e = absurd (ground (arith, sym h ∙ ap is_blank e))

  pub is_blank-ne_return : (line : List ℕ) → is_blank line ≡ false → (c : ℕ) → line ≢ 13 ∷ c ∷ []
  unfolding is_blank
  is_blank-ne_return line h c e = absurd (ground (arith, sym h ∙ ap is_blank e))

  -- The lines of a signature, up to the end of its part.
  pub data Signed : List (List ℕ) → (out : List ℕ) → Type 0 where
    signed_end : Signed [] close_part
    signed_line :
        (l : List ℕ) (ls : List (List ℕ)) (out more : List ℕ)
        → Shown false true l out
        → Signed ls more
        → Signed (l ∷ ls) (out ++ more)

  abbrev pub kind : (quote : Bool) → ℕ
  kind true = 113
  kind false = 116

  -- The lines from within a part, of a quote or not, up to the end of the last part.
  pub data InPart : (quote : Bool) → List (List ℕ) → (out : List ℕ) → Type 0 where
    part_end : (q : Bool) → InPart q [] close_part
    same_part :
        (q : Bool) (l : List ℕ) (ls : List (List ℕ)) (out more : List ℕ)
        → l ≢ signature_line
        → quotes l ≡ q
        → Shown q false l out
        → InPart q ls more
        → InPart q (l ∷ ls) (out ++ more)
    new_part :
        (q : Bool) (l : List ℕ) (ls : List (List ℕ)) (out more : List ℕ)
        → l ≢ signature_line
        → quotes l ≡ not q
        → Shown (not q) false l out
        → InPart (not q) ls more
        → InPart q (l ∷ ls) (close_part ++ (open_part (kind (not q)) ++ (out ++ more)))
    signature_hidden :
        (q : Bool) (ls : List (List ℕ))
        → o.no_sig ≡ true
        → InPart q (signature_line ∷ ls) close_part
    signature_shown :
        (q : Bool) (ls : List (List ℕ)) (more : List ℕ)
        → o.no_sig ≡ false
        → Signed ls more
        → InPart q (signature_line ∷ ls) (signature_part more)
