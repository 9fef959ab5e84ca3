-- ===== src/ReadMark/Record/Bytes.antt =====
-- The items of a record as bytes, and back.
use mathlib.Core.Path.{ap₂}
use fbbs.Common.{ℕ, ◌*◌, ◌^◌, ◌<◌, ◌≡◌, refl, List, [], ◌∷◌, arith, length, All}
use fbbs.Common.Endian.{of_little_endian_lem}
use fbbs.ReadMark.Record.{pack, unpack}

pub length-pack : (xs : List ℕ) → length (pack xs) ≡ length xs * 4
unfolding pack
length-pack [] = refl
length-pack (x ∷ xs) = omega (arith, length-pack xs)

pub unpack-pack : (xs : List ℕ) → All (λ x. x < 2 ^ 32) xs → unpack (length xs) (pack xs) ≡ xs
unfolding pack unpack
unpack-pack [] h = refl
unpack-pack (x ∷ xs) h = ap₂ (λ y ys. y ∷ ys) (of_little_endian_lem 4 x h.0) (unpack-pack xs h.1)
