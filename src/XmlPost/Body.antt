-- ===== src/XmlPost/Body.antt =====
-- The body of a post: `_is_quote` and `_print_body`.
pub mod Parts
pub mod Lines
pub mod Structure
use fbbs.Common.{
  ℕ, zero, suc, ◌+◌, Bool, true, false, ◌&&◌, ◌||◌, not, Option, none, some, List, [], ◌∷◌, ◌++◌,
  leb, ltb, ◌==◌, if◌then◌else◌, length,
}
use fbbs.Common.Run.{Run, ok, fault, endless, ◌>>=◌}
use fbbs.Common.CString.{begins_with}
use fbbs.XmlPost.{begins_with_case, get_line_end}
use fbbs.XmlPost.Paragraph.{Options, print_paragraph}

-- ": ", and QUOTE_STRING
unfoldable pub is_quote : List ℕ → Bool
is_quote s =
    begins_with_case (58 ∷ 32 ∷ []) s
    || begins_with_case (0xe3 ∷ 0x80 ∷ 0x90 ∷ 0x20 ∷ 0xe5 ∷ 0x9c ∷ 0xa8 ∷ 0x20 ∷ []) s

-- "--\n"
unfoldable pub is_signature : List ℕ → Bool
is_signature line = length line == 3 && begins_with (45 ∷ 45 ∷ 10 ∷ []) line

-- "</pa>", "<pa m='t'>", "<pa m='q'>" and "<pa m='s'>"
abbrev pub close_part : List ℕ
close_part = 60 ∷ 47 ∷ 112 ∷ 97 ∷ 62 ∷ []

abbrev pub open_part : (kind : ℕ) → List ℕ
open_part kind = 60 ∷ 112 ∷ 97 ∷ 32 ∷ 109 ∷ 61 ∷ 39 ∷ kind ∷ 39 ∷ 62 ∷ []

-- "<p>", "</p>" and "<br/>"
abbrev pub open_line : List ℕ
open_line = 60 ∷ 112 ∷ 62 ∷ []

abbrev pub close_line : List ℕ
close_line = 60 ∷ 47 ∷ 112 ∷ 62 ∷ []

abbrev pub line_break : List ℕ
line_break = 60 ∷ 98 ∷ 114 ∷ 47 ∷ 62 ∷ []

-- What `_print_body` takes for an empty line.
unfoldable pub is_blank : List ℕ → Bool
is_blank [] = false
is_blank (c ∷ []) = true
is_blank (c ∷ d ∷ []) = c == 13
is_blank (c ∷ d ∷ e ∷ s) = false

-- The quote that opens or ends before a line.
abbrev pub turn : (now before : Bool) → List ℕ
turn true true = []
turn true false = close_part ++ open_part 113
turn false true = close_part ++ open_part 116
turn false false = []

module _ (convert : List ℕ → List ℕ) where
  unfoldable pub print_line : (in_signature in_quote : Bool) → Options → List ℕ → Run (List ℕ)
  print_line in_signature in_quote o line =
      if is_blank line then ok (open_line ++ (line_break ++ close_line)) else (do
        text ←
            print_paragraph convert
              (record o {
                no_quote_img = in_quote && o.no_quote_img;
                no_sig_img = in_signature && o.no_sig_img;
              })
              line
        ok (open_line ++ (text ++ close_line)))

  -- The loop of `_print_body`, with what it prints behind it.
  unfoldable pub body_loop :
      (fuel : ℕ) → (in_signature in_quote : Bool) → Options → List ℕ → Run (List ℕ)
  body_loop zero in_signature in_quote o s = fault endless
  body_loop (suc fuel) in_signature in_quote o [] = ok close_part
  body_loop (suc fuel) in_signature in_quote o (c ∷ s) =
      let (line, rest) = get_line_end (c ∷ s) in
      let quote = if in_signature then in_quote else is_quote line in
      if not in_signature && is_signature line
      then (if o.no_sig then ok close_part else (do
        more ← body_loop fuel true false o rest
        ok (close_part ++ (open_part 115 ++ (open_line ++ (45 ∷ 45 ∷ (close_line ++ more)))))))
      else (do
        text ← print_line in_signature quote o line
        more ← body_loop fuel in_signature quote o rest
        ok (turn quote in_quote ++ (text ++ more)))

  -- `_print_body`. Each round takes a line.
  unfoldable pub print_body : Options → List ℕ → Run (List ℕ)
  print_body o s = do more ← body_loop (length s + 1) false false o s; ok (open_part 116 ++ more)
