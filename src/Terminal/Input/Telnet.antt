-- ===== src/Terminal/Input/Telnet.antt =====
-- Telnet commands: the size of the window.
use fbbs.Common.{ℕ, ◌≢◌, ◌≡◌, none, some, List, ◌∷◌, arith}
use fbbs.Terminal.Input.{as_int, iac_start, iac_step, sub_step, handle_iac}

-- A byte that stands for itself in a sub-option.
pub record IsData (c : ℕ) : Type 0 where
  pub not_naws : c ≢ 31
  pub not_se : c ≢ 240

-- The bytes of a client that tells its size, from behind IAC.
abbrev pub naws : (width_high width_low height_high height_low : ℕ) → List ℕ → List ℕ
naws wh wl hh hl rest = 250 ∷ 31 ∷ wh ∷ wl ∷ hh ∷ hl ∷ 255 ∷ 240 ∷ rest

module _ (wh wl hh hl : ℕ) (rest : List ℕ) (a : IsData wh) (b : IsData wl) (c : IsData hh) where
  -- A window size none of whose bytes is 31 or 240 sets the height to its last byte, as a char.
  pub naws_resizes :
      IsData hl → handle_iac iac_start (naws wh wl hh hl rest) ≡ some (some (as_int hl), rest)
  unfolding handle_iac iac_step sub_step
  naws_resizes d = ground (
    arith, a.not_naws, a.not_se, b.not_naws, b.not_se, c.not_naws, c.not_se, d.not_naws, d.not_se,
  )

  -- A window of 31 lines is ignored: the height is taken for the start of a new option.
  pub naws_of_31 : handle_iac iac_start (naws wh wl hh 31 rest) ≡ some (none, rest)
  unfolding handle_iac iac_step sub_step
  naws_of_31 = ground (arith, a.not_naws, a.not_se, b.not_naws, b.not_se, c.not_naws, c.not_se)
