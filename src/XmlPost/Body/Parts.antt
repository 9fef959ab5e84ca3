-- ===== src/XmlPost/Body/Parts.antt =====
-- The elements of a body: its parts and their lines.
use fbbs.Common.{
  length-append, ℕ, zero, suc, ◌+◌, ◌≤◌, ◌<◌, ◌≡◌, refl, ap, ◌∙◌, Bool, true, false, ◌&&◌, not,
  List, [], ◌∷◌, ◌++◌, arith, ◌==◌, if◌then◌else◌, length, inl, inr, Bool-cases,
}
use fbbs.Common.Run.{Run, ok}
use fbbs.XmlPost.{get_line_end}
use fbbs.XmlPost.Content.{
  attributes, IsValue, IsContent, Closes, IsContent-Closes, Closes-append, Closes-end, nothing,
  char, element, empty,
}
use fbbs.XmlPost.Paragraph.{Options}
use fbbs.XmlPost.Paragraph.Links.{KeepsAscii, PrintsContent, print_paragraph-IsContent}
use fbbs.XmlPost.Body.{
  is_quote, is_signature, close_part, open_part, open_line, close_line, line_break, is_blank, turn,
  print_line, body_loop, print_body,
}

get_line_end-whole : (s : List ℕ) → s ≡ (get_line_end s).0 ++ (get_line_end s).1
unfolding get_line_end
get_line_end-whole [] = refl
get_line_end-whole (c ∷ s) = elim (Bool-cases (c == 10)) [
  | inl newline ↦ rw newline refl
  | inr other ↦ rw other (ap (λ (t : List ℕ). c ∷ t) (get_line_end-whole s))
]

-- A line has a byte, its newline if nothing else.
pub line-shorter : (c : ℕ) (s : List ℕ) → length (get_line_end (c ∷ s)).1 ≤ length s
unfolding get_line_end
line-shorter c s = elim (Bool-cases (c == 10)) [
  | inl newline ↦ rw newline (omega arith)
  | inr other ↦
      let size : length s ≡ length (get_line_end s).0 + length (get_line_end s).1 =
        ap length (get_line_end-whole s) ∙ length-append (get_line_end s).0 (get_line_end s).1 in
      rw other (omega (arith, size))
]

abbrev pa : List ℕ
pa = 112 ∷ 97 ∷ []

-- A part of a kind, which is a letter, up to where it is closed.
part-IsContent :
    (kind : ℕ) (s : List ℕ) → IsValue (kind ∷ []) → Closes pa s → IsContent (open_part kind ++ s)
unfolding attributes
part-IsContent kind s v c =
    IsContent-Closes pa ((109 ∷ [], kind ∷ []) ∷ []) s (refl, (refl, tt)) (((refl, tt), v), tt) c

line-IsContent :
    (s t : List ℕ) → IsContent s → IsContent t → IsContent (open_line ++ (s ++ (close_line ++ t)))
unfolding attributes
line-IsContent s t x y = element (112 ∷ []) [] (refl, tt) tt x y

break-IsContent : IsContent line_break
unfolding attributes
break-IsContent = empty (98 ∷ 114 ∷ []) [] (refl, (refl, tt)) tt nothing

turn-Closes : (now before : Bool) (s : List ℕ) → Closes pa s → Closes pa (turn now before ++ s)
turn-Closes true true s c = c
turn-Closes true false s c = Closes-end pa (open_part 113 ++ s) (part-IsContent 113 s (refl, tt) c)
turn-Closes false true s c = Closes-end pa (open_part 116 ++ s) (part-IsContent 116 s (refl, tt) c)
turn-Closes false false s c = c

-- The part of the signature, behind the part before it.
signature-Closes :
    (s : List ℕ)
    → Closes pa s
    → Closes pa (close_part ++ (open_part 115 ++ (open_line ++ (45 ∷ 45 ∷ (close_line ++ s)))))
signature-Closes s c =
    Closes-end pa (open_part 115 ++ (open_line ++ (45 ∷ 45 ∷ (close_line ++ s)))) (
      part-IsContent 115 (open_line ++ (45 ∷ 45 ∷ (close_line ++ s))) (refl, tt)
        (Closes-append pa (open_line ++ (45 ∷ 45 ∷ close_line)) s
          (line-IsContent (45 ∷ 45 ∷ []) [] (char 45 refl (char 45 refl nothing)) nothing) c))

module _ (convert : List ℕ → List ℕ) (ascii : KeepsAscii convert) where
  print_line-IsContent :
      (sig quote : Bool) (o : Options) (line : List ℕ)
      → PrintsContent convert ascii (print_line convert sig quote o line)
  unfolding print_line
  print_line-IsContent sig quote o line = elim (Bool-cases (is_blank line)) [
    | inl blank ↦ rw blank (
      open_line ++ (line_break ++ close_line),
      refl,
      line-IsContent line_break [] break-IsContent nothing,
    )
    | inr shown ↦
        let (out, run, content) =
          print_paragraph-IsContent convert ascii
            (record o { no_quote_img = quote && o.no_quote_img; no_sig_img = sig && o.no_sig_img })
            line in
        rw (shown, run)
          (open_line ++ (out ++ close_line), refl, line-IsContent out [] content nothing)
  ]

  -- What the loop prints closes the part that is open.
  abbrev Ends : Run (List ℕ) → Type 0
  Ends m = (out : List ℕ) × (m ≡ ok out) × Closes pa out

  either : (b : Bool) {x y : Run (List ℕ)} → Ends x → Ends y → Ends (if b then x else y)
  either true h k = h
  either false h k = k

  body_loop-Closes :
      (fuel : ℕ) (sig quote : Bool) (o : Options) (s : List ℕ)
      → length s < fuel
      → Ends (body_loop convert fuel sig quote o s)
  unfolding body_loop
  body_loop-Closes zero sig quote o s f = absurd (omega arith)
  body_loop-Closes (suc fuel) sig quote o [] f = (close_part, refl, Closes-end pa [] nothing)
  body_loop-Closes (suc fuel) sig quote o (c ∷ s) f =
      let below : length (get_line_end (c ∷ s)).1 < fuel = omega (arith, line-shorter c s, f) in
      let line = (get_line_end (c ∷ s)).0 in
      let rest = (get_line_end (c ∷ s)).1 in
      elim (Bool-cases (not sig && is_signature line)) [
        | inl begins ↦
            let (more, run, closes) = body_loop-Closes fuel true false o rest below in
            rw (begins, run)
              (either o.no_sig (close_part, refl, Closes-end pa [] nothing)
                (_, refl, signature-Closes more closes))
        | inr text ↦
            let now = if sig then quote else is_quote line in
            let (shown, run, content) = print_line-IsContent sig now o line in
            let (more, rest_run, closes) = body_loop-Closes fuel sig now o rest below in
            rw (text, run, rest_run)
              (
                turn now quote ++ (shown ++ more),
                refl,
                turn-Closes now quote (shown ++ more) (Closes-append pa shown more content closes),
              )
      ]

  -- Any body is printed, as text and elements, each closed by its tag: parts that follow one
  -- another, each line an element of its part.
  pub print_body-IsContent :
      (o : Options) (s : List ℕ)
      → (out : List ℕ) × (print_body convert o s ≡ ok out) × IsContent out
  unfolding print_body
  print_body-IsContent o s =
      let (more, run, closes) = body_loop-Closes (length s + 1) false false o s (omega arith) in
      rw run (open_part 116 ++ more, refl, part-IsContent 116 more (refl, tt) closes)
