-- ===== src/Text/Trim/Blanks.antt =====
-- `rtrim` and `trim`: what is left, and where they read before the string.
use fbbs.Common.{
  length-append, ℕ, zero, suc, ◌+◌, ◌≡◌, refl, sym, ap, ◌∙◌, append_assoc, Bool, true, false, not,
  ◌&&◌, List, [], ◌∷◌, ◌++◌, arith, ltb, leb, ◌==◌, length, take, All,
}
use fbbs.Common.Run.{ok, fault, bad_access}
use fbbs.Text.{char_at}
use fbbs.Text.Trim.{right_loop, rtrim, skip_left, trim}

-- A blank or a control character, but not NUL.
abbrev pub is_blank : ℕ → Bool
is_blank c = leb 1 c && leb c 0x20

abbrev pub AreBlanks : List ℕ → Type 0
AreBlanks s = All (λ c. is_blank c ≡ true) s

char_at-blank : (s : List ℕ) (i : ℕ) → AreBlanks s → leb (char_at s i) 0x20 ≡ true
char_at-blank [] i h = refl
char_at-blank (c ∷ s) zero h = ground (arith, h.0)
char_at-blank (c ∷ s) (suc i) h = char_at-blank s i h.1

char_at-append : (xs s : List ℕ) (i : ℕ) → char_at (xs ++ s) (length xs + i) ≡ char_at s i
char_at-append [] s i = let none_before : 0 + i ≡ i = omega arith in ap (char_at s) none_before
char_at-append (x ∷ xs) s i =
    let next : suc (length xs) + i ≡ suc (length xs + i) = omega arith in
    ap (char_at (x ∷ (xs ++ s))) next ∙ char_at-append xs s i

right_loop-blanks :
    (s : List ℕ) (k m : ℕ)
    → leb (char_at s m) 0x20 ≡ false
    → ((j : ℕ) → leb (char_at s (suc (m + j))) 0x20 ≡ true)
    → right_loop s (m + k) ≡ ok m
unfolding right_loop
right_loop-blanks s zero zero h b = rw (right_loop, h) refl
right_loop-blanks s zero (suc m) h b =
    let here : suc m + 0 ≡ suc m = omega arith in ap (right_loop s) here ∙ rw (right_loop, h) refl
right_loop-blanks s (suc k) m h b =
    let before : m + suc k ≡ suc (m + k) = omega arith in
    ap (right_loop s) before ∙ (rw (right_loop, b k) refl ∙ right_loop-blanks s k m h b)

right_loop-all : (s : List ℕ) (p : ℕ) → AreBlanks s → right_loop s p ≡ fault bad_access
unfolding right_loop
right_loop-all s zero h = rw (right_loop, char_at-blank s 0 h) refl
right_loop-all s (suc p) h = rw (right_loop, char_at-blank s (suc p) h) (right_loop-all s p h)

kept : (c : ℕ) (blanks xs : List ℕ) → take (length xs + 1) (xs ++ c ∷ blanks) ≡ xs ++ c ∷ []
kept c blanks [] = refl
kept c blanks (x ∷ xs) =
    let next : suc (length xs) + 1 ≡ suc (length xs + 1) = omega arith in
    ap (λ n. take n (x ∷ (xs ++ c ∷ blanks))) next ∙ ap (λ t. x ∷ t) (kept c blanks xs)

-- The blanks behind the last other character are removed; where there is none, `rtrim` reads the byte
-- before the string, also for the empty one.
pub rtrim_lem :
    (s blanks : List ℕ) (c : ℕ)
    → ltb 0x20 c ≡ true
    → AreBlanks blanks
    → (rtrim (s ++ c ∷ blanks) ≡ ok (s ++ c ∷ [])) × (rtrim blanks ≡ fault bad_access)
unfolding rtrim
rtrim_lem s blanks c h b =
    let none_behind : length s ≡ length s + 0 = omega arith in
    let last : leb (char_at (s ++ c ∷ blanks) (length s)) 0x20 ≡ false =
      ap (λ n. leb (char_at (s ++ c ∷ blanks) n) 0x20) none_behind
      ∙ (ap (λ x. leb x 0x20) (char_at-append s (c ∷ blanks) 0) ∙ ground (arith, h)) in
    let behind : (j : ℕ) → leb (char_at (s ++ c ∷ blanks) (suc (length s + j))) 0x20 ≡ true = λ j.
      let next : suc (length s + j) ≡ length s + suc j = omega arith in
      ap (λ n. leb (char_at (s ++ c ∷ blanks) n) 0x20) next
      ∙ (ap (λ x. leb x 0x20) (char_at-append s (c ∷ blanks) (suc j)) ∙ char_at-blank blanks j b) in
    let size : length (s ++ c ∷ blanks) ≡ length s + suc (length blanks) =
      length-append s (c ∷ blanks) in
    let found : right_loop (s ++ c ∷ blanks) (length (s ++ c ∷ blanks)) ≡ ok (length s) =
      ap (right_loop (s ++ c ∷ blanks)) size
      ∙ right_loop-blanks (s ++ c ∷ blanks) (suc (length blanks)) (length s) last behind in
    (rw found (ap ok (kept c blanks s)), rw (right_loop-all blanks (length blanks) b) refl)

skip_left-blanks :
    (blanks s : List ℕ) (c : ℕ)
    → ltb 0x20 c ≡ true
    → AreBlanks blanks
    → skip_left (blanks ++ c ∷ s) ≡ c ∷ s
unfolding skip_left
skip_left-blanks [] s c h b =
    let other : (leb c 0x20 && not (c == 0)) ≡ false = ground (arith, h) in rw other refl
skip_left-blanks (x ∷ blanks) s c h b =
    let blank : (leb x 0x20 && not (x == 0)) ≡ true = ground (arith, b.0) in
    rw blank (skip_left-blanks blanks s c h b.1)

-- A text between blanks that begins and ends with other characters.
pub record IsTrimmed (s : List ℕ) : Type 0 where
  pub first : ℕ
  pub rest : List ℕ
  pub init : List ℕ
  pub last : ℕ
  pub front : s ≡ first ∷ rest
  pub back : s ≡ init ++ last ∷ []
  pub first_shown : ltb 0x20 first ≡ true
  pub last_shown : ltb 0x20 last ≡ true

-- `trim` leaves the text between the blanks.
pub trim_lem :
    (left s right : List ℕ)
    → AreBlanks left
    → IsTrimmed s
    → AreBlanks right
    → trim (left ++ (s ++ right)) ≡ ok s
unfolding trim
trim_lem left s right l t r =
    let shape : left ++ (s ++ right) ≡ (left ++ t.init) ++ t.last ∷ right =
      ap (λ u. left ++ (u ++ right)) t.back
      ∙ (ap (λ u. left ++ u) (append_assoc t.init (t.last ∷ []) right)
          ∙ sym (append_assoc left t.init (t.last ∷ right))) in
    let short : (left ++ t.init) ++ t.last ∷ [] ≡ left ++ (t.first ∷ t.rest) =
      append_assoc left t.init (t.last ∷ []) ∙ ap (λ u. left ++ u) (sym t.back ∙ t.front) in
    let right_done : rtrim (left ++ (s ++ right)) ≡ ok (left ++ (t.first ∷ t.rest)) =
      ap rtrim shape ∙ ((rtrim_lem (left ++ t.init) right t.last t.last_shown r).0 ∙ ap ok short) in
    rw right_done (ap ok (skip_left-blanks left t.rest t.first t.first_shown l ∙ sym t.front))
