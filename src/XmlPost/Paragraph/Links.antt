-- ===== src/XmlPost/Paragraph/Links.antt =====
-- Links: where they are found, that they end, and the elements that are printed.
use fbbs.Common.{
  length-append, ℕ, zero, suc, ◌+◌, ◌≤◌, ◌<◌, ◌≡◌, refl, ap, ◌∙◌, append_assoc, Bool, true, false,
  ◌&&◌, ◌||◌, not, Option, none, some, List, [], ◌∷◌, ◌++◌, arith, ltb, ◌==◌, length, All, inl, inr,
  Bool-cases,
}
use fbbs.Common.Run.{Run, ok, ◌>>=◌}
use fbbs.Common.CString.{begins_with}
use fbbs.XmlPost.{xml_escape, memstr}
use fbbs.XmlPost.Content.{
  AreAttributes, IsValue, is_text, IsText, IsContent, IsContent-text, IsContent-append,
  escape-IsValue, nothing, empty, attributes, empty_tag,
}
use fbbs.XmlPost.Ansi.{Color, plain_color, print_ansi_text}
use fbbs.XmlPost.Ansi.Colours.{IsColor, plain-IsColor, print_ansi_text-IsContent}
use fbbs.XmlPost.Paragraph.{
  Options, strchr, is_url, get_url, is_image, http, https, find_url, print_link, print_url,
  paragraph_loop, print_paragraph,
}

-- A place of the pattern: the text is what is before it and what is from there on.
pub record FoundAt (pattern s : List ℕ) (r : List ℕ × List ℕ) : Type 0 where
  pub whole : s ≡ r.0 ++ r.1
  pub matches : begins_with pattern r.1 ≡ true

abbrev pub Found : List ℕ → List ℕ → Option (List ℕ × List ℕ) → Type 0
Found pattern s none = Unit
Found pattern s (some r) = FoundAt pattern s r

Found-cons :
    (pattern s : List ℕ) (c : ℕ) (o : Option (List ℕ × List ℕ))
    → Found pattern s o
    → Found pattern (c ∷ s) (elim o [ none ↦ none | some r ↦ some (c ∷ r.0, r.1) ])
Found-cons pattern s c none f = tt
Found-cons pattern s c (some r) f = record {
  whole = ap (λ (t : List ℕ). c ∷ t) f.whole;
  matches = f.matches;
}

-- What `_memstr` returns is a place of the pattern.
memstr-Found : (pattern s : List ℕ) → Found pattern s (memstr pattern s)
unfolding memstr
memstr-Found pattern [] = tt
memstr-Found pattern (c ∷ s) = elim (Bool-cases (begins_with pattern (c ∷ s))) [
  | inl here ↦ rw here (record { whole = refl; matches = here })
  | inr later ↦ rw later (Found-cons pattern s c (memstr pattern s) (memstr-Found pattern s))
]

-- A link is the longest run of the characters of links.
pub get_url-whole : (s : List ℕ) → s ≡ (get_url s).0 ++ (get_url s).1
unfolding get_url
get_url-whole [] = refl
get_url-whole (c ∷ s) = elim (Bool-cases (not (is_url c))) [
  | inl other ↦ rw other refl
  | inr link ↦ rw link (ap (λ (t : List ℕ). c ∷ t) (get_url-whole s))
]

get_url-All : (s : List ℕ) → All (λ c. is_url c ≡ true) (get_url s).0
unfolding get_url
get_url-All [] = tt
get_url-All (c ∷ s) = elim (Bool-cases (not (is_url c))) [
  | inl other ↦ rw other tt
  | inr link ↦ rw link (ground (arith, link), get_url-All s)
]

-- A link has at least the bytes that were looked for.
get_url-longer :
    (pattern s : List ℕ)
    → All (λ c. is_url c ≡ true) pattern
    → begins_with pattern s ≡ true
    → length pattern ≤ length (get_url s).0
unfolding get_url begins_with
get_url-longer [] s h b = omega arith
get_url-longer (p ∷ ps) [] h b = absurd (ground (arith, b))
get_url-longer (p ∷ ps) (c ∷ s) h b =
    let same : c ≡ p = ground (arith, b) in
    let link : not (is_url c) ≡ false = rw (same, h.0) refl in
    let rest : begins_with ps s ≡ true = ground (arith, b) in
    let below : length ps ≤ length (get_url s).0 = get_url-longer ps s h.1 rest in
    rw link (omega (arith, below))

http-All : All (λ c. is_url c ≡ true) http
unfolding is_url strchr
http-All = (refl, (refl, (refl, (refl, (refl, (refl, (refl, tt)))))))

https-All : All (λ c. is_url c ≡ true) https
unfolding is_url strchr
https-All = (refl, (refl, (refl, (refl, (refl, (refl, (refl, (refl, tt))))))))

-- What stands before a link, and the link, of at least seven bytes.
abbrev Splits : List ℕ → Option (List ℕ × List ℕ) → Type 0
Splits s none = Unit
Splits s (some r) = (s ≡ r.0 ++ r.1) × (7 ≤ length (get_url r.1).0)

Found-Splits :
    (pattern s : List ℕ) (o : Option (List ℕ × List ℕ))
    → All (λ c. is_url c ≡ true) pattern
    → 7 ≤ length pattern
    → Found pattern s o
    → Splits s o
Found-Splits pattern s none h n f = tt
Found-Splits pattern s (some r) h n f =
    (f.whole, omega (arith, get_url-longer pattern r.1 h f.matches))

find_url-Splits : (s : List ℕ) → Splits s (find_url s)
unfolding find_url
find_url-Splits s =
    go (memstr http s)
      (Found-Splits http s (memstr http s) http-All (omega arith) (memstr-Found http s))
  where
    go :
        (o : Option (List ℕ × List ℕ))
        → Splits s o
        → Splits s (elim o [ none ↦ memstr https s | some r ↦ some r ])
    go none h = Found-Splits https s (memstr https s) https-All (omega arith) (memstr-Found https s)
    go (some r) h = h

is_url-text :
    (c : ℕ) → is_url c ≡ true → (is_text c ≡ true) × ((c == 39) ≡ false) × (ltb c 128 ≡ true)
unfolding is_url strchr
is_url-text c h = (ground (arith, h), ground (arith, h), ground (arith, h))

url-IsText :
    (s : List ℕ)
    → All (λ c. is_url c ≡ true) s
    → IsText s × All (λ c. (c == 39) ≡ false) s × All (λ c. ltb c 128 ≡ true) s
url-IsText [] h = (tt, tt, tt)
url-IsText (c ∷ s) h =
    let (text, quote, ascii) = is_url-text c h.0 in
    let (texts, quotes, asciis) = url-IsText s h.1 in
    ((text, texts), (quote, quotes), (ascii, asciis))

-- A conversion that leaves ASCII as it is.
abbrev pub KeepsAscii : (List ℕ → List ℕ) → Type 0
KeepsAscii convert = (s : List ℕ) → All (λ c. ltb c 128 ≡ true) s → convert s ≡ s

-- The attributes of a link.
abbrev link_attributes : Bool → List ℕ → List (List ℕ × List ℕ)
link_attributes true value = (105 ∷ [], 105 ∷ []) ∷ (104 ∷ 114 ∷ 101 ∷ 102 ∷ [], value) ∷ []
link_attributes false value = (104 ∷ 114 ∷ 101 ∷ 102 ∷ [], value) ∷ []

print_link-empty_tag :
    (convert : List ℕ → List ℕ) (o : Options) (url s : List ℕ)
    → print_link convert o url ++ s
      ≡ empty_tag (97 ∷ []) (
          link_attributes
            (not (o.no_quote_img || o.no_sig_img) && is_image url)
            (xml_escape convert url))
        ++ s
unfolding print_link attributes
print_link-empty_tag convert o url s =
    elim (Bool-cases (not (o.no_quote_img || o.no_sig_img) && is_image url)) [
      | inl image ↦ rw image (simp append_assoc)
      | inr other ↦ rw other (simp append_assoc)
    ]

AreAttributes-link :
    (image : Bool) (value : List ℕ) → IsValue value → AreAttributes (link_attributes image value)
AreAttributes-link true value v =
    (((refl, tt), (refl, tt)), (((refl, (refl, (refl, (refl, tt)))), v), tt))
AreAttributes-link false value v = (((refl, (refl, (refl, (refl, tt)))), v), tt)

module _ (convert : List ℕ → List ℕ) (ascii : KeepsAscii convert) where
  -- The element of a link.
  link-IsContent :
      (o : Options) (url s : List ℕ)
      → All (λ c. is_url c ≡ true) url
      → IsContent s
      → IsContent (print_link convert o url ++ s)
  link-IsContent o url s h x =
      let (text, quote, low) = url-IsText url h in
      let value : IsValue (xml_escape convert url) =
        rw (ascii url low) (escape-IsValue url quote) in
      let image = not (o.no_quote_img || o.no_sig_img) && is_image url in
      rw (print_link-empty_tag convert o url s) (
        empty (97 ∷ []) (link_attributes image (xml_escape convert url)) (refl, tt)
          (AreAttributes-link image (xml_escape convert url) value) x)

  print_url-IsContent :
      (o : Options) (s t : List ℕ)
      → IsContent t
      → IsContent ((print_url convert o s).0 ++ t) × ((print_url convert o s).1 ≡ (get_url s).1)
  unfolding print_url
  print_url-IsContent o s t x = elim (Bool-cases (ltb (length (get_url s).0) 11)) [
    | inl short ↦ rw short (
      IsContent-append (IsContent-text (get_url s).0 (url-IsText (get_url s).0 (get_url-All s)).0)
          x,
      refl,
    )
    | inr long ↦ rw long (link-IsContent o (get_url s).0 t (get_url-All s) x, refl)
  ]

  -- A run that prints content.
  abbrev pub PrintsContent : Run (List ℕ) → Type 0
  PrintsContent m = (out : List ℕ) × (m ≡ ok out) × IsContent out

  paragraph_loop-IsContent :
      (fuel : ℕ) (o : Options) (s : List ℕ) (k : Color)
      → length s < fuel
      → IsColor k
      → PrintsContent (paragraph_loop convert fuel o s k)
  unfolding paragraph_loop
  paragraph_loop-IsContent zero o s k f c = absurd (omega arith)
  paragraph_loop-IsContent (suc fuel) o [] k f c = ([], refl, nothing)
  paragraph_loop-IsContent (suc fuel) o (x ∷ s) k f c =
      go (find_url (x ∷ s)) (find_url-Splits (x ∷ s))
        (λ t last h color. paragraph_loop-IsContent fuel o t last h color)
    where
      go :
          (r : Option (List ℕ × List ℕ))
          → Splits (x ∷ s) r
          → ((t : List ℕ) (last : Color)
              → length t < fuel
              → IsColor last
              → PrintsContent (paragraph_loop convert fuel o t last))
          → PrintsContent (elim r [
            | none ↦ do text ← print_ansi_text convert (x ∷ s) k; ok text.0
            | some found ↦ do
              text ← print_ansi_text convert found.0 k
              let link = print_url convert o found.1
              more ← paragraph_loop convert fuel o link.1 text.1
              ok (text.0 ++ (link.0 ++ more))
          ])
      go none h next =
          let (out, last, run, content, color) = print_ansi_text-IsContent convert (x ∷ s) k c in
          rw run (out, refl, content)
      go (some (before, from)) (whole, long) next =
          let (out, last, run, content, color) = print_ansi_text-IsContent convert before k c in
          let size : suc (length s) ≡ length before + length from =
            ap length whole ∙ length-append before from in
          let split : length from ≡ length (get_url from).0 + length (get_url from).1 =
            ap length (get_url-whole from) ∙ length-append (get_url from).0 (get_url from).1 in
          let behind : (print_url convert o from).1 ≡ (get_url from).1 =
            (print_url-IsContent o from [] nothing).1 in
          let (more, rest, inside) =
            next (get_url from).1 last (omega (arith, f, size, split, long)) color in
          rw (run, behind, rest)
            (
              out ++ ((print_url convert o from).0 ++ more),
              refl,
              IsContent-append content (print_url-IsContent o from more inside).0,
            )

  -- Any paragraph is printed, as text and elements, each closed by its tag.
  pub print_paragraph-IsContent :
      (o : Options) (s : List ℕ)
      → (out : List ℕ) × (print_paragraph convert o s ≡ ok out) × IsContent out
  unfolding print_paragraph
  print_paragraph-IsContent o s =
      paragraph_loop-IsContent (length s + 1) o s plain_color (omega arith) plain-IsColor
