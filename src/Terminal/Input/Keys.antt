-- ===== src/Terminal/Input/Keys.antt =====
-- Cursor and editing keys.
use fbbs.Common.{ℕ, ◌≡◌, refl, none, some, List, [], ◌∷◌, ◌++◌}
use fbbs.Terminal.Input.{esc_beg, esc_step, handle_esc}

pub data Key : Type 0 where
  up down right left home insert delete finish page_up page_down : Key

-- KEY_UP and the others
abbrev pub code : Key → ℕ
code up = 0x101
code down = 0x102
code right = 0x103
code left = 0x104
code home = 0x201
code insert = 0x202
code delete = 0x203
code finish = 0x204
code page_up = 0x205
code page_down = 0x206

-- What a terminal sends behind ESC, in its normal mode.
abbrev pub sequence : Key → List ℕ
sequence up = 91 ∷ 65 ∷ []
sequence down = 91 ∷ 66 ∷ []
sequence right = 91 ∷ 67 ∷ []
sequence left = 91 ∷ 68 ∷ []
sequence home = 91 ∷ 49 ∷ 126 ∷ []
sequence insert = 91 ∷ 50 ∷ 126 ∷ []
sequence delete = 91 ∷ 51 ∷ 126 ∷ []
sequence finish = 91 ∷ 52 ∷ 126 ∷ []
sequence page_up = 91 ∷ 53 ∷ 126 ∷ []
sequence page_down = 91 ∷ 54 ∷ 126 ∷ []

-- Each sequence of a key is read as the code of this key, and nothing behind it is taken.
pub handle_esc-sequence :
    (k : Key) (rest : List ℕ)
    → handle_esc esc_beg 0 (sequence k ++ rest) ≡ some (code k, none, rest)
unfolding handle_esc esc_step
handle_esc-sequence up rest = refl
handle_esc-sequence down rest = refl
handle_esc-sequence right rest = refl
handle_esc-sequence left rest = refl
handle_esc-sequence home rest = refl
handle_esc-sequence insert rest = refl
handle_esc-sequence delete rest = refl
handle_esc-sequence finish rest = refl
handle_esc-sequence page_up rest = refl
handle_esc-sequence page_down rest = refl
