-- ===== src/XmlPost/Content.antt =====
-- Text and nested elements, each closed by the tag of its name. What follows an "&" is not looked at.
use fbbs.Common.{
  All-append, not, ℕ, ◌≡◌, refl, sym, ap, ◌∙◌, subst, append_assoc, Bool, true, false, ◌&&◌, ◌||◌,
  List, [], ◌∷◌, ◌++◌, arith, leb, ◌==◌, All, inl, inr, Bool-cases,
}
use fbbs.XmlPost.{escape_char, escape}

-- Neither "<" nor ">".
abbrev pub is_text : ℕ → Bool
is_text c = not (c == 60 || c == 62)

abbrev pub IsText : List ℕ → Type 0
IsText s = All (λ c. is_text c ≡ true) s

abbrev pub IsName : List ℕ → Type 0
IsName s = All (λ c. (leb 97 c && leb c 122) ≡ true) s

-- What stands between quotes.
abbrev pub IsValue : List ℕ → Type 0
IsValue s = All (λ c. (is_text c && not (c == 39)) ≡ true) s

-- " name='value'", for each attribute.
unfoldable pub attributes : List (List ℕ × List ℕ) → List ℕ
attributes [] = []
attributes ((name, value) ∷ more) = 32 ∷ (name ++ 61 ∷ 39 ∷ (value ++ 39 ∷ attributes more))

abbrev pub AreAttributes : List (List ℕ × List ℕ) → Type 0
AreAttributes atts = All (λ (a : List ℕ × List ℕ). IsName a.0 × IsValue a.1) atts

-- "<name attributes>" and "</name>"
abbrev pub start_tag : List ℕ → List (List ℕ × List ℕ) → List ℕ
start_tag name atts = 60 ∷ (name ++ (attributes atts ++ 62 ∷ []))

abbrev pub end_tag : List ℕ → List ℕ
end_tag name = 60 ∷ 47 ∷ (name ++ 62 ∷ [])

abbrev pub empty_tag : List ℕ → List (List ℕ × List ℕ) → List ℕ
empty_tag name atts = 60 ∷ (name ++ (attributes atts ++ 47 ∷ 62 ∷ []))

pub data IsContent : List ℕ → Type 0 where
  nothing : IsContent []
  char : {s : List ℕ} (c : ℕ) → is_text c ≡ true → IsContent s → IsContent (c ∷ s)
  empty :
      {s : List ℕ} (name : List ℕ) (atts : List (List ℕ × List ℕ))
      → IsName name
      → AreAttributes atts
      → IsContent s
      → IsContent (empty_tag name atts ++ s)
  element :
      {inner s : List ℕ} (name : List ℕ) (atts : List (List ℕ × List ℕ))
      → IsName name
      → AreAttributes atts
      → IsContent inner
      → IsContent s
      → IsContent (start_tag name atts ++ (inner ++ (end_tag name ++ s)))

pub IsContent-append : {s t : List ℕ} → IsContent s → IsContent t → IsContent (s ++ t)
IsContent-append nothing y = y
IsContent-append (char c h x) y = char c h (IsContent-append x y)
IsContent-append {t = t} (empty {s = s} name atts n a x) y =
    subst IsContent (sym (append_assoc (empty_tag name atts) s t))
      (empty name atts n a (IsContent-append x y))
IsContent-append {t = t} (element {inner = inner} {s = s} name atts n a i x) y =
    subst IsContent
      (ap (λ (r : List ℕ). start_tag name atts ++ (inner ++ r))
          (sym (append_assoc (end_tag name) s t))
        ∙ ap (λ (r : List ℕ). start_tag name atts ++ r)
            (sym (append_assoc inner (end_tag name ++ s) t))
        ∙ sym (append_assoc (start_tag name atts) (inner ++ (end_tag name ++ s)) t))
      (element name atts n a i (IsContent-append x y))

pub IsContent-text : (s : List ℕ) → IsText s → IsContent s
IsContent-text [] h = nothing
IsContent-text (c ∷ s) h = char c h.0 (IsContent-text s h.1)

-- The end of an open element: content, the tag that closes it, and content behind it.
pub record Closes (name s : List ℕ) : Type 0 where
  pub inner : List ℕ
  pub behind : List ℕ
  pub whole : s ≡ inner ++ (end_tag name ++ behind)
  pub inside : IsContent inner
  pub outside : IsContent behind

pub IsContent-Closes :
    (name : List ℕ) (atts : List (List ℕ × List ℕ)) (s : List ℕ)
    → IsName name
    → AreAttributes atts
    → Closes name s
    → IsContent (start_tag name atts ++ s)
IsContent-Closes name atts s n a c =
    subst (λ (t : List ℕ). IsContent (start_tag name atts ++ t)) (sym c.whole)
      (element name atts n a c.inside c.outside)

-- Content before the end of an open element.
pub Closes-append : (name s t : List ℕ) → IsContent s → Closes name t → Closes name (s ++ t)
Closes-append name s t x c = record {
  inner = s ++ c.inner;
  behind = c.behind;
  whole =
      ap (λ (r : List ℕ). s ++ r) c.whole ∙ sym (append_assoc s c.inner (end_tag name ++ c.behind));
  inside = IsContent-append x c.inside;
  outside = c.outside;
}

pub Closes-end : (name s : List ℕ) → IsContent s → Closes name (end_tag name ++ s)
Closes-end name s x = record { inner = []; behind = s; whole = refl; inside = nothing; outside = x }

-- The bytes of the references that `escape` prints: "&#160;gtamp".
abbrev reference_bytes : List ℕ
reference_bytes = 38 ∷ 35 ∷ 49 ∷ 54 ∷ 48 ∷ 59 ∷ 103 ∷ 116 ∷ 97 ∷ 109 ∷ 112 ∷ 108 ∷ []

module _ (P : ℕ → Bool) where
  escape_char-All :
      (c : ℕ)
      → All (λ x. P x ≡ true) reference_bytes
      → (is_text c ≡ true → P c ≡ true)
      → All (λ x. P x ≡ true) (escape_char c)
  unfolding escape_char
  escape_char-All c (amp, (hash, (one, (six, (nil, (semi, (g, (t, (a, (m, (p, (l, last))))))))))))
        own =
      elim (Bool-cases (c == 60)) [
        | inl lt ↦ rw lt (amp, (l, (t, (semi, tt))))
        | inr x ↦ elim (Bool-cases (c == 62)) [
          | inl gt ↦ rw (x, gt) (amp, (g, (t, (semi, tt))))
          | inr y ↦ elim (Bool-cases (c == 38)) [
            | inl and ↦ rw (x, y, and) (amp, (a, (m, (p, (semi, tt)))))
            | inr z ↦ elim (Bool-cases (c == 32)) [
              | inl space ↦ rw (x, y, z, space) (amp, (hash, (one, (six, (nil, (semi, tt))))))
              | inr v ↦ elim (Bool-cases (leb 1 c && leb c 8 || leb 10 c && leb c 31)) [
                | inl control ↦ rw (x, y, z, v, control) tt
                | inr shown ↦ rw (x, y, z, v, shown) (own (ground (arith, x, y)), tt)
              ]
            ]
          ]
        ]
      ]

  pub escape-All :
      (s : List ℕ)
      → All (λ x. P x ≡ true) reference_bytes
      → All (λ c. is_text c ≡ true → P c ≡ true) s
      → All (λ x. P x ≡ true) (escape s)
  unfolding escape
  escape-All [] r h = tt
  escape-All (c ∷ s) r h =
      All-append (λ x. P x ≡ true) (escape_char c) (escape s) (escape_char-All c r h.0)
        (escape-All s r h.1)

All-any : (P : ℕ → Type 0) → ((c : ℕ) → P c) → (s : List ℕ) → All P s
All-any P h [] = tt
All-any P h (c ∷ s) = (h c, All-any P h s)

pub escape-IsText : (s : List ℕ) → IsText (escape s)
escape-IsText s =
    escape-All is_text s
      (
        refl,
        (refl, (refl, (refl, (refl, (refl, (refl, (refl, (refl, (refl, (refl, (refl, tt))))))))))),
      )
      (All-any (λ c. is_text c ≡ true → is_text c ≡ true) (λ c h. h) s)

-- Without an apostrophe in the text there is none in what is printed.
pub escape-IsValue : (s : List ℕ) → All (λ c. (c == 39) ≡ false) s → IsValue (escape s)
escape-IsValue s h =
    escape-All (λ c. is_text c && not (c == 39)) s
      (
        refl,
        (refl, (refl, (refl, (refl, (refl, (refl, (refl, (refl, (refl, (refl, (refl, tt))))))))))),
      )
      (no_quotes s h)
  where
    no_quotes :
        (s : List ℕ)
        → All (λ c. (c == 39) ≡ false) s
        → All (λ c. is_text c ≡ true → (is_text c && not (c == 39)) ≡ true) s
    no_quotes [] h = tt
    no_quotes (c ∷ s) h = ((λ e. ground (arith, h.0, e)), no_quotes s h.1)

pub escape-IsContent : (s : List ℕ) → IsContent (escape s)
escape-IsContent s = IsContent-text (escape s) (escape-IsText s)
