-- ===== src/Text/Filter/Escapes.antt =====
-- What `string_remove_ansi_control_code` leaves.
use fbbs.Common.{ℕ, ◌≡◌, refl, Bool, true, false, List, [], ◌∷◌, ◌==◌, All, Bool-cases, inl, inr}
use fbbs.Text.Filter.{escape_loop, is_alpha, remove_ansi_control_code}

abbrev pub NoEscape : List ℕ → Type 0
NoEscape s = All (λ c. (c == 27) ≡ false) s

escape_loop-NoEscape : (flag : Bool) (s : List ℕ) → NoEscape (escape_loop flag s)
unfolding escape_loop
escape_loop-NoEscape flag [] = tt
escape_loop-NoEscape false (c ∷ s) = elim (Bool-cases (c == 27)) [
  | inl escape ↦ rw escape (escape_loop-NoEscape true s)
  | inr other ↦ rw other (other, escape_loop-NoEscape false s)
]
escape_loop-NoEscape true (c ∷ s) = elim (Bool-cases (c == 27)) [
  | inl escape ↦ rw escape (escape_loop-NoEscape true s)
  | inr other ↦ elim (Bool-cases (is_alpha c)) [
    | inl last ↦ rw (other, last) (escape_loop-NoEscape false s)
    | inr more ↦ rw (other, more) (escape_loop-NoEscape true s)
  ]
]

escape_loop-plain : (s : List ℕ) → NoEscape s → escape_loop false s ≡ s
unfolding escape_loop
escape_loop-plain [] h = refl
escape_loop-plain (c ∷ s) h = rw (h.0, escape_loop-plain s h.1) refl

-- `string_remove_ansi_control_code` leaves no escape character, and a second call changes nothing.
pub remove_ansi_lem :
    (s : List ℕ)
    → NoEscape (remove_ansi_control_code s)
      × (remove_ansi_control_code (remove_ansi_control_code s) ≡ remove_ansi_control_code s)
unfolding remove_ansi_control_code
remove_ansi_lem s = (
  escape_loop-NoEscape false s,
  escape_loop-plain (escape_loop false s) (escape_loop-NoEscape false s),
)
