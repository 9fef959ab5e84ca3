-- ===== src/Text/Trim/Url.antt =====
-- `strtourl` against a reader of URLs.
use fbbs.Common.{
  ℕ, ◌+◌, ◌-◌, ◌*◌, ◌/◌, ◌%◌, ◌<◌, ◌≡◌, refl, ap, ◌∙◌, true, false, not, ◌&&◌, List, [], ◌∷◌, ◌++◌,
  arith, ltb, leb, ◌==◌, if◌then◌else◌, All, inl, inr, Bool-cases,
}
use fbbs.Text.Trim.{hex_digit, url_char, strtourl}

-- Where the reader is: at a character, behind "%", or behind its first digit.
pub data UrlState : Type 0 where
  plain percent : UrlState
  digit : ℕ → UrlState

unfoldable pub from_hex : ℕ → ℕ
from_hex c = if leb c 57 then c - 48 else c - 55

unfoldable pub url_decode : UrlState → List ℕ → List ℕ
url_decode state [] = []
url_decode plain (c ∷ s) = elim (c == 37) [
  | true ↦ url_decode percent s
  | false ↦ c ∷ url_decode plain s
]
url_decode percent (c ∷ s) = url_decode (digit (from_hex c)) s
url_decode (digit h) (c ∷ s) = (16 * h + from_hex c) ∷ url_decode plain s

from_hex-digit : (h : ℕ) → h < 16 → from_hex (hex_digit h) ≡ h
unfolding from_hex
from_hex-digit h l = ground (arith, l)

url_decode-char :
    (c : ℕ) (s : List ℕ) → c < 128 → url_decode plain (url_char c ++ s) ≡ c ∷ url_decode plain s
unfolding url_char url_decode
url_decode-char c s low = elim (Bool-cases (leb 0x21 c && leb c 0x7e && not (c == 37))) [
  | inl shown ↦
      let other : (c == 37) ≡ false = ground (arith, shown) in rw (shown, url_decode, other) refl
  | inr escaped ↦
      let ascii : ltb c 0x80 ≡ true = ground (arith, low) in
      let value : 16 * from_hex (hex_digit (c / 16)) + from_hex (hex_digit (c % 16)) ≡ c = omega (
        arith,
        from_hex-digit (c / 16) (omega (arith, low)),
        from_hex-digit (c % 16) (omega arith),
      ) in
      rw (escaped, ascii) (ap (λ n. n ∷ url_decode plain s) value)
]

-- A string in ASCII is got back from its URL form.
pub strtourl_round_trip : (s : List ℕ) → All (λ c. c < 128) s → url_decode plain (strtourl s) ≡ s
unfolding strtourl
strtourl_round_trip [] h = unfold url_decode in refl
strtourl_round_trip (c ∷ s) h =
    url_decode-char c (strtourl s) h.0 ∙ ap (λ t. c ∷ t) (strtourl_round_trip s h.1)
