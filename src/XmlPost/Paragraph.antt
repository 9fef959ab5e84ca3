-- ===== src/XmlPost/Paragraph.antt =====
-- Links and paragraphs of a post: `_get_url`, `_print_url` and `_print_paragraph`.
pub mod Links
use fbbs.Common.{
  ℕ, zero, suc, ◌+◌, Bool, true, false, ◌&&◌, ◌||◌, not, Option, none, some, List, [], ◌∷◌, ◌++◌,
  leb, ltb, ◌==◌, if◌then◌else◌, length,
}
use fbbs.Common.Run.{Run, ok, fault, endless, ◌>>=◌}
use fbbs.XmlPost.{xml_escape, memstr, ends_with_case}
use fbbs.XmlPost.Ansi.{Color, plain_color, print_ansi_text}

-- PARSE_NOSIG, PARSE_NOQUOTEIMG and PARSE_NOSIGIMG
pub record Options : Type 0 where
  pub no_sig : Bool
  pub no_quote_img : Bool
  pub no_sig_img : Bool

-- "~$-_.+!*)(,/:;=?@%#[]&"
abbrev pub url_signs : List ℕ
url_signs =
    126 ∷ 36 ∷ 45 ∷ 95 ∷ 46 ∷ 43 ∷ 33 ∷ 42 ∷ 41 ∷ 40 ∷ 44 ∷ 47 ∷ 58 ∷ 59 ∷ 61 ∷ 63 ∷ 64 ∷ 37 ∷ 35
    ∷ 91 ∷ 93 ∷ 38 ∷ []

-- `strchr`, which finds the NUL behind the string as well.
unfoldable pub strchr : List ℕ → ℕ → Bool
strchr [] c = c == 0
strchr (x ∷ xs) c = x == c || strchr xs c

unfoldable pub is_url : ℕ → Bool
is_url c =
    leb 48 c && leb c 57 || leb 97 c && leb c 122 || leb 65 c && leb c 90 || strchr url_signs c

-- `_get_url`: the bytes of the link, and what is behind it.
unfoldable pub get_url : List ℕ → List ℕ × List ℕ
get_url [] = ([], [])
get_url (c ∷ s) =
    let rest = get_url s in if not (is_url c) then ([], c ∷ s) else (c ∷ rest.0, rest.1)

-- ".jpg", ".gif", ".png" and "jpeg"
unfoldable pub is_image : List ℕ → Bool
is_image url =
    ends_with_case (46 ∷ 106 ∷ 112 ∷ 103 ∷ []) url
    || ends_with_case (46 ∷ 103 ∷ 105 ∷ 102 ∷ []) url
    || ends_with_case (46 ∷ 112 ∷ 110 ∷ 103 ∷ []) url
    || ends_with_case (106 ∷ 112 ∷ 101 ∷ 103 ∷ []) url

-- "http://" and "https://"
abbrev pub http : List ℕ
http = 104 ∷ 116 ∷ 116 ∷ 112 ∷ 58 ∷ 47 ∷ 47 ∷ []

abbrev pub https : List ℕ
https = 104 ∷ 116 ∷ 116 ∷ 112 ∷ 115 ∷ 58 ∷ 47 ∷ 47 ∷ []

-- The first link that `_print_paragraph` looks for.
unfoldable pub find_url : List ℕ → Option (List ℕ × List ℕ)
find_url s = elim (memstr http s) [ none ↦ memstr https s | some r ↦ some r ]

module _ (convert : List ℕ → List ℕ) where
  -- "<a href='…'/>", with "i='i' " for an image.
  unfoldable pub print_link : Options → List ℕ → List ℕ
  print_link o url =
      (60 ∷ 97 ∷ 32 ∷ [])
      ++ (if not (o.no_quote_img || o.no_sig_img) && is_image url
          then 105 ∷ 61 ∷ 39 ∷ 105 ∷ 39 ∷ 32 ∷ []
          else [])
      ++ (104 ∷ 114 ∷ 101 ∷ 102 ∷ 61 ∷ 39 ∷ [])
      ++ xml_escape convert url
      ++ 39 ∷ 47 ∷ 62 ∷ []

  -- `_print_url`: what is printed, and what is behind the link.
  unfoldable pub print_url : Options → List ℕ → List ℕ × List ℕ
  unfolding print_link
  print_url o s =
      let (url, rest) = get_url s in
      (if ltb (length url) 11 then (url, rest) else (print_link o url, rest))

  unfoldable pub paragraph_loop : (fuel : ℕ) → Options → List ℕ → Color → Run (List ℕ)
  paragraph_loop zero o s ansi = fault endless
  paragraph_loop (suc fuel) o [] ansi = ok []
  paragraph_loop (suc fuel) o (c ∷ s) ansi = elim (find_url (c ∷ s)) [
    | none ↦ do text ← print_ansi_text convert (c ∷ s) ansi; ok text.0
    | some found ↦ do
      text ← print_ansi_text convert found.0 ansi
      let link = print_url o found.1
      more ← paragraph_loop fuel o link.1 text.1
      ok (text.0 ++ (link.0 ++ more))
  ]

  -- `_print_paragraph`. Each round takes a link, which has at least the bytes that were looked for.
  unfoldable pub print_paragraph : Options → List ℕ → Run (List ℕ)
  print_paragraph o s = paragraph_loop (length s + 1) o s plain_color
