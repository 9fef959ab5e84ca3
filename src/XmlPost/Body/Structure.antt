-- ===== src/XmlPost/Body/Structure.antt =====
-- What `_print_body` prints for the lines of a body.
use fbbs.Common.{
  ℕ, zero, suc, ◌+◌, ◌<◌, ◌≡◌, ◌≢◌, refl, sym, ap, ◌∙◌, subst, Bool, true, false, ◌&&◌, List, [],
  ◌∷◌, ◌++◌, arith, length, inl, inr, Bool-cases,
}
use fbbs.Common.Run.{Run, ok}
use fbbs.XmlPost.{get_line_end}
use fbbs.XmlPost.Paragraph.{Options}
use fbbs.XmlPost.Paragraph.Links.{KeepsAscii, print_paragraph-IsContent}
use fbbs.XmlPost.Body.{
  is_quote, is_signature, close_part, open_part, open_line, close_line, line_break, is_blank, turn,
  print_line, body_loop, print_body,
}
use fbbs.XmlPost.Body.Parts.{line-shorter}
use fbbs.XmlPost.Body.Lines.{
  lines, lines-get_line_end, signature_line, signature_part, is_signature-eq, is_signature-ne,
  is_quote-quotes, Shown, text, is_blank-Shown, is_blank-ne, is_blank-ne_return, Signed, signed_end,
  signed_line, InPart, part_end, same_part, new_part, signature_hidden, signature_shown,
}

module _ (convert : List ℕ → List ℕ) (o : Options) where
  abbrev Prints : (List ℕ → Type 0) → Run (List ℕ) → Type 0
  Prints P m = (out : List ℕ) × (m ≡ ok out) × P out

  module _ (ascii : KeepsAscii convert) where
    print_line-Shown :
        (sig quote : Bool) (line : List ℕ)
        → Prints (Shown convert o quote sig line) (print_line convert sig quote o line)
    unfolding print_line
    print_line-Shown sig quote line = elim (Bool-cases (is_blank line)) [
      | inl b ↦
          rw b (
            open_line ++ (line_break ++ close_line),
            refl,
            is_blank-Shown convert o quote sig line b,
          )
      | inr b ↦
          let (out, run, content) =
            print_paragraph-IsContent convert ascii
              (record o {
                no_quote_img = quote && o.no_quote_img;
                no_sig_img = sig && o.no_sig_img;
              })
              line in
          rw (b, run)
            (
              open_line ++ (out ++ close_line),
              refl,
              text quote sig line out (is_blank-ne convert o line b)
                  (is_blank-ne_return convert o line b) run,
            )
    ]

    -- A round of the loop within the signature, and outside.
    signed-round :
        (fuel : ℕ) (c : ℕ) (s shown more : List ℕ)
        → print_line convert true false o (get_line_end (c ∷ s)).0 ≡ ok shown
        → body_loop convert fuel true false o (get_line_end (c ∷ s)).1 ≡ ok more
        → body_loop convert (suc fuel) true false o (c ∷ s) ≡ ok (shown ++ more)
    unfolding body_loop
    signed-round fuel c s shown more e r = rw (e, r) refl

    body_loop-Signed :
        (fuel : ℕ) (s : List ℕ)
        → length s < fuel
        → Prints (Signed convert o (lines s)) (body_loop convert fuel true false o s)
    body_loop-Signed zero s f = absurd (omega (arith, f))
    body_loop-Signed (suc fuel) [] f =
        unfold body_loop in unfold lines in (close_part, refl, signed_end)
    body_loop-Signed (suc fuel) (c ∷ s) f =
        let line = (get_line_end (c ∷ s)).0 in
        let rest = (get_line_end (c ∷ s)).1 in
        let (shown, run, seen) = print_line-Shown true false line in
        let (more, later, signed) =
          body_loop-Signed fuel rest (omega (arith, line-shorter c s, f)) in
        (
          shown ++ more,
          signed-round fuel c s shown more run later,
          subst (λ ls. Signed convert o ls (shown ++ more)) (sym (lines-get_line_end c s))
              (signed_line line (lines rest) shown more seen signed),
        )

    turn-InPart :
        (now q : Bool) (l : List ℕ) (ls : List (List ℕ)) (out more : List ℕ)
        → l ≢ signature_line
        → is_quote l ≡ now
        → Shown convert o now false l out
        → InPart convert o now ls more
        → InPart convert o q (l ∷ ls) (turn now q ++ (out ++ more))
    turn-InPart true true l ls out more n e x y =
        same_part true l ls out more n (sym (is_quote-quotes l) ∙ e) x y
    turn-InPart true false l ls out more n e x y =
        new_part false l ls out more n (sym (is_quote-quotes l) ∙ e) x y
    turn-InPart false true l ls out more n e x y =
        new_part true l ls out more n (sym (is_quote-quotes l) ∙ e) x y
    turn-InPart false false l ls out more n e x y =
        same_part false l ls out more n (sym (is_quote-quotes l) ∙ e) x y

    module _ (fuel : ℕ) (q : Bool) (c : ℕ) (s : List ℕ) where
      abbrev line : List ℕ
      line = (get_line_end (c ∷ s)).0

      abbrev rest : List ℕ
      rest = (get_line_end (c ∷ s)).1

      text-round :
          (shown more : List ℕ)
          → is_signature line ≡ false
          → print_line convert false (is_quote line) o line ≡ ok shown
          → body_loop convert fuel false (is_quote line) o rest ≡ ok more
          → body_loop convert (suc fuel) false q o (c ∷ s)
            ≡ ok (turn (is_quote line) q ++ (shown ++ more))
      unfolding body_loop
      text-round shown more h e r = rw (h, e, r) refl

      hidden-round :
          is_signature line ≡ true
          → o.no_sig ≡ true
          → body_loop convert (suc fuel) false q o (c ∷ s) ≡ ok close_part
      unfolding body_loop
      hidden-round h n = rw (h, n) refl

      signature-round :
          (more : List ℕ)
          → is_signature line ≡ true
          → o.no_sig ≡ false
          → body_loop convert fuel true false o rest ≡ ok more
          → body_loop convert (suc fuel) false q o (c ∷ s) ≡ ok (signature_part more)
      unfolding body_loop
      signature-round more h n r = rw (h, r, n) refl

      -- The lines, where the first is that of the signature.
      signature-lines : is_signature line ≡ true → lines (c ∷ s) ≡ signature_line ∷ lines rest
      signature-lines h = lines-get_line_end c s ∙ ap (λ l. l ∷ lines rest) (is_signature-eq line h)

    body_loop-InPart :
        (fuel : ℕ) (q : Bool) (s : List ℕ)
        → length s < fuel
        → Prints (InPart convert o q (lines s)) (body_loop convert fuel false q o s)
    body_loop-InPart zero q s f = absurd (omega (arith, f))
    body_loop-InPart (suc fuel) q [] f =
        unfold body_loop in unfold lines in (close_part, refl, part_end q)
    body_loop-InPart (suc fuel) q (c ∷ s) f =
        let l = (get_line_end (c ∷ s)).0 in
        let behind = (get_line_end (c ∷ s)).1 in
        let below : length behind < fuel = omega (arith, line-shorter c s, f) in
        elim (Bool-cases (is_signature l)) [
          | inl begins ↦ elim (Bool-cases o.no_sig) [
            | inl no_sig ↦ (
              close_part,
              hidden-round fuel q c s begins no_sig,
              subst (λ ls. InPart convert o q ls close_part)
                  (sym (signature-lines fuel q c s begins))
                  (signature_hidden q (lines behind) no_sig),
            )
            | inr sig ↦
                let (more, later, signed) = body_loop-Signed fuel behind below in
                (
                  signature_part more,
                  signature-round fuel q c s more begins sig later,
                  subst (λ ls. InPart convert o q ls (signature_part more))
                      (sym (signature-lines fuel q c s begins))
                      (signature_shown q (lines behind) more sig signed),
                )
          ]
          | inr other ↦
              let (shown, run, seen) = print_line-Shown false (is_quote l) l in
              let (more, later, parts) = body_loop-InPart fuel (is_quote l) behind below in
              (
                turn (is_quote l) q ++ (shown ++ more),
                text-round fuel q c s shown more other run later,
                subst (λ ls. InPart convert o q ls (turn (is_quote l) q ++ (shown ++ more)))
                    (sym (lines-get_line_end c s))
                    (turn-InPart (is_quote l) q l (lines behind) shown more
                      (is_signature-ne l other) refl seen parts),
              )
        ]

    -- Where ASCII text is converted to itself, any body is printed: a part for text is opened, and each
    -- line stands, as a line break or as its paragraph, in a part for quotes or for text as it begins like a
    -- quote or not, up to the first line "--"; the lines from there on stand in a part of their own or, where
    -- the options ask for it, are left out. Each part is closed before the next is opened and at the end.
    pub print_body_lem :
        (s : List ℕ)
        → (out : List ℕ) × (print_body convert o s ≡ ok (open_part 116 ++ out))
          × InPart convert o false (lines s) out
    unfolding print_body
    print_body_lem s =
        let (out, run, parts) = body_loop-InPart (length s + 1) false s (omega arith) in
        (out, rw run refl, parts)
