-- ===== src/Common/CString.antt =====
-- Strings of C: a block of bytes that is read up to its first NUL.
use fbbs.Common.{
  ◌&&◌, true, Bool, ℕ, ◌≡◌, refl, false, List, [], ◌∷◌, ◌++◌, arith, ◌==◌, if◌then◌else◌, length,
}
use fbbs.Common.Run.{Run, ok, fault, bad_access, ◌>>=◌}

-- The bytes before the first NUL; a block without one is read past its end.
unfoldable pub contents : List ℕ → Run (List ℕ)
contents [] = fault bad_access
contents (c ∷ s) = let rest = contents s in if c == 0 then ok [] else do r ← rest; ok (c ∷ r)

unfoldable pub strlen : List ℕ → Run ℕ
unfolding contents
strlen s = do c ← contents s; ok (length c)

-- No byte of a text is NUL.
abbrev pub IsText : List ℕ → Type 0
IsText [] = Unit
IsText (c ∷ s) = ((c == 0) ≡ false) × IsText s

pub contents-text : (s rest : List ℕ) → IsText s → contents (s ++ 0 ∷ rest) ≡ ok s
unfolding contents
contents-text [] rest t = refl
contents-text (c ∷ s) rest t = ground (arith, contents-text s rest t.1)

pub strlen-text : (s rest : List ℕ) → IsText s → strlen (s ++ 0 ∷ rest) ≡ ok (length s)
unfolding strlen
strlen-text s rest t = rw (contents-text s rest t)

-- Whether the text begins with the bytes, as `memcmp` tells.
unfoldable pub begins_with : (pattern s : List ℕ) → Bool
begins_with [] s = true
begins_with (p ∷ ps) [] = false
begins_with (p ∷ ps) (c ∷ s) = p == c && begins_with ps s
