-- ===== src/XmlPost/Escape.antt =====
-- `_xml_escape_internal` against a reader of XML.
use fbbs.Common.{
  ℕ, ◌≡◌, refl, ap, ◌∙◌, Bool, true, false, ◌&&◌, ◌||◌, Option, none, some, List, [], ◌∷◌, ◌++◌,
  arith, leb, ◌==◌, if◌then◌else◌, length, inl, inr, Bool-cases,
}
use fbbs.Common.CString.{begins_with}
use fbbs.XmlPost.{escape_char, escape}

-- What a reference stands for, in UTF-8; none is an unknown one.
pub referred : List ℕ → Option (List ℕ)
referred name =
    if length name == 2 && begins_with (108 ∷ 116 ∷ []) name
    then some (60 ∷ [])
    else if length name == 2 && begins_with (103 ∷ 116 ∷ []) name
    then some (62 ∷ [])
    else if length name == 3 && begins_with (97 ∷ 109 ∷ 112 ∷ []) name
    then some (38 ∷ [])
    else if length name == 4 && begins_with (35 ∷ 49 ∷ 54 ∷ 48 ∷ []) name
    then some (0xc2 ∷ 0xa0 ∷ [])
    else none

abbrev pub prepend : Option (List ℕ) → Option (List ℕ) → Option (List ℕ)
prepend none t = none
prepend (some s) none = none
prepend (some s) (some t) = some (s ++ t)

-- A reader of text: none outside a reference, or what was read of its name. It refuses markup, which
-- "<" and ">" belong to, unknown references and one that does not end.
unfoldable pub read_text : Option (List ℕ) → List ℕ → Option (List ℕ)
read_text none [] = some []
read_text (some name) [] = none
read_text none (c ∷ s) = elim (c == 60 || c == 62) [
  | true ↦ none
  | false ↦ elim (c == 38) [
    | true ↦ read_text (some []) s
    | false ↦ prepend (some (c ∷ [])) (read_text none s)
  ]
]
read_text (some name) (c ∷ s) = elim (c == 59) [
  | true ↦ prepend (referred name) (read_text none s)
  | false ↦ read_text (some (name ++ c ∷ [])) s
]

-- A control character other than NUL and the tabulator.
abbrev pub is_control : ℕ → Bool
is_control c = leb 1 c && leb c 8 || leb 10 c && leb c 31

-- The text of a post as it is to be shown: without control characters, and with U+00A0 for a space.
abbrev pub shown_char : ℕ → List ℕ
shown_char c = if is_control c then [] else if c == 32 then 0xc2 ∷ 0xa0 ∷ [] else c ∷ []

unfoldable pub shown : List ℕ → List ℕ
shown [] = []
shown (c ∷ s) = shown_char c ++ shown s

prepend-nil : (t : Option (List ℕ)) → t ≡ prepend (some []) t
prepend-nil none = refl
prepend-nil (some t) = refl

read-own :
    (c : ℕ) (s : List ℕ)
    → (c == 60) ≡ false
    → (c == 62) ≡ false
    → (c == 38) ≡ false
    → read_text none (c ∷ s) ≡ prepend (some (c ∷ [])) (read_text none s)
unfolding read_text
read-own c s lt gt amp =
    let markup : (c == 60 || c == 62) ≡ false = ground (arith, lt, gt) in
    rw (read_text, markup, amp) refl

-- One byte, before what follows it.
read-escape_char :
    (c : ℕ) (s : List ℕ)
    → read_text none (escape_char c ++ s) ≡ prepend (some (shown_char c)) (read_text none s)
unfolding escape_char read_text referred begins_with
read-escape_char c s = elim (Bool-cases (c == 60)) [
  | inl lt ↦ let same : c ≡ 60 = ground (arith, lt) in rw same refl
  | inr x ↦ elim (Bool-cases (c == 62)) [
    | inl gt ↦ let same : c ≡ 62 = ground (arith, gt) in rw same refl
    | inr y ↦ elim (Bool-cases (c == 38)) [
      | inl amp ↦ let same : c ≡ 38 = ground (arith, amp) in rw same refl
      | inr z ↦ elim (Bool-cases (c == 32)) [
        | inl space ↦ let same : c ≡ 32 = ground (arith, space) in rw same refl
        | inr v ↦ elim (Bool-cases (is_control c)) [
          | inl control ↦ rw (x, y, z, v, control) (prepend-nil (read_text none s))
          | inr seen ↦ rw (x, y, z, v, seen) (read-own c s x y z)
        ]
      ]
    ]
  ]
]

-- A reader of XML that refuses markup and unknown references reads, from what a text is escaped to, the
-- text without its control characters and with U+00A0 for each space.
pub escape_round_trip : (s : List ℕ) → read_text none (escape s) ≡ some (shown s)
unfolding escape shown
escape_round_trip [] = unfold read_text in refl
escape_round_trip (c ∷ s) =
    read-escape_char c (escape s) ∙ ap (prepend (some (shown_char c))) (escape_round_trip s)
