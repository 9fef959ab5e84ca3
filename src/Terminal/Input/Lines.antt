-- ===== src/Terminal/Input/Lines.antt =====
-- `igetch` on text and line ends.
use fbbs.Common.{
  All-append, ◌∙◌, ap, ℕ, zero, suc, ◌+◌, ◌<◌, ◌≡◌, refl, Bool, true, false, ◌||◌, none, some, List,
  [], ◌∷◌, ◌++◌, arith, ◌==◌, length, All,
}
use fbbs.Common.Run.{Run, ok, fault, endless, ◌>>=◌}
use fbbs.Terminal.Input.{Plain, returns, goes_on, plain_step, igetch_loop, igetch}

-- The keys that calls of `igetch` return until the session ends.
unfoldable pub keys : (fuel : ℕ) → (cr : Bool) → List ℕ → Run (List ℕ)
keys zero cr s = fault endless
keys (suc fuel) cr s = do
  got ← igetch cr s
  elim got [ none ↦ ok [] | some g ↦ do rest ← keys fuel g.cr g.rest; ok (g.key ∷ rest) ]

-- No telnet command, escape or request to redraw.
abbrev pub IsPlain : List ℕ → Type 0
IsPlain s = All (λ c. (c == 255 || c == 27 || c == 12) ≡ false) s

-- The keys of a plain text: one newline for a carriage return and what follows it.
unfoldable pub plain_keys : (cr : Bool) → List ℕ → List ℕ
plain_keys cr [] = []
plain_keys cr (c ∷ s) = elim (plain_step cr c) [
  | returns key now ↦ key ∷ plain_keys now s
  | goes_on now ↦ plain_keys now s
]

igetch-nil : (cr : Bool) → igetch cr [] ≡ ok none
unfolding igetch igetch_loop
igetch-nil cr = refl

module _ (cr : Bool) (c : ℕ) (s : List ℕ) (plain : (c == 255 || c == 27 || c == 12) ≡ false) where
  round : igetch cr (c ∷ s) ≡ elim (plain_step cr c) [
    | returns key now ↦ ok (some (record { key = key; cr = now; arg = none; calls = []; rest = s }))
    | goes_on now ↦ igetch now s
  ]
  unfolding igetch igetch_loop
  round =
      let fuel : suc (length s) + 1 ≡ suc (length s + 1) = omega arith in
      let command : (c == 255) ≡ false = ground (arith, plain) in
      let escape : (c == 27) ≡ false = ground (arith, plain) in
      let clear : (c == 12) ≡ false = ground (arith, plain) in
      rw (fuel, command, escape, clear) refl

  keys-returns :
      (fuel key : ℕ) (now : Bool) (ks : List ℕ)
      → plain_step cr c ≡ returns key now
      → keys fuel now s ≡ ok ks
      → keys (suc fuel) cr (c ∷ s) ≡ ok (key ∷ ks)
  unfolding keys
  keys-returns fuel key now ks e h = rw (round, e, h) refl

  keys-goes_on :
      (fuel : ℕ) (now : Bool)
      → plain_step cr c ≡ goes_on now
      → keys (suc fuel) cr (c ∷ s) ≡ keys (suc fuel) now s
  unfolding keys
  keys-goes_on fuel now e = rw (round, e) refl

abbrev Steps : (Plain → Type 0) → Bool → ℕ → Type 0
Steps P cr c = (p : Plain) × (plain_step cr c ≡ p) × P p

-- Calls of `igetch` on a plain text end, and return its bytes with each carriage return as a newline,
-- without the newline or NUL that follows it.
pub keys_lem :
    (fuel : ℕ) (cr : Bool) (s : List ℕ)
    → IsPlain s
    → length s < fuel
    → keys fuel cr s ≡ ok (plain_keys cr s)
unfolding plain_keys
keys_lem zero cr s p f = absurd (omega arith)
keys_lem (suc fuel) cr [] p f = unfold keys in rw (igetch-nil cr) refl
keys_lem (suc fuel) cr (c ∷ s) p f =
    go (plain_step cr c) refl (λ now. keys_lem fuel now s p.1 (omega arith))
      (λ now. keys_lem (suc fuel) now s p.1 (omega arith))
  where
    go :
        (q : Plain)
        → plain_step cr c ≡ q
        → ((now : Bool) → keys fuel now s ≡ ok (plain_keys now s))
        → ((now : Bool) → keys (suc fuel) now s ≡ ok (plain_keys now s))
        → keys (suc fuel) cr (c ∷ s)
          ≡ ok
              (elim q [ returns key now ↦ key ∷ plain_keys now s | goes_on now ↦ plain_keys now s ])
    go (returns key now) e less same =
        keys-returns cr c s p.0 fuel key now (plain_keys now s) e (less now)
    go (goes_on now) e less same = keys-goes_on cr c s p.0 fuel now e ∙ same now

-- The ways in which a terminal ends a line.
pub data Ending : Type 0 where
  cr cr_lf cr_nul : Ending

abbrev pub ending_bytes : Ending → List ℕ
ending_bytes cr = 13 ∷ []
ending_bytes cr_lf = 13 ∷ 10 ∷ []
ending_bytes cr_nul = 13 ∷ 0 ∷ []

-- Bytes that stand for themselves.
abbrev pub IsLine : List ℕ → Type 0
IsLine s = All (λ c. (c == 255 || c == 27 || c == 12 || c == 13 || c == 10 || c == 0) ≡ false) s

unfoldable pub text : List (List ℕ × Ending) → List ℕ
text [] = []
text ((line, e) ∷ lines) = line ++ (ending_bytes e ++ text lines)

unfoldable pub text_keys : List (List ℕ × Ending) → List ℕ
text_keys [] = []
text_keys ((line, e) ∷ lines) = line ++ 10 ∷ text_keys lines

abbrev pub AllLines : List (List ℕ × Ending) → Type 0
AllLines lines = All (λ (l : List ℕ × Ending). IsLine l.0) lines

plain_step-line :
    (flag : Bool) (c : ℕ)
    → (c == 255 || c == 27 || c == 12 || c == 13 || c == 10 || c == 0) ≡ false
    → plain_step flag c ≡ returns c false
unfolding plain_step
plain_step-line flag c h =
    let return : (c == 13) ≡ false = ground (arith, h) in
    let newline : (c == 10) ≡ false = ground (arith, h) in
    let nul : (c == 0) ≡ false = ground (arith, h) in rw (return, newline, nul) refl

plain_keys-cons :
    (flag : Bool) (c : ℕ) (s : List ℕ)
    → plain_step flag c ≡ returns c false
    → plain_keys flag (c ∷ s) ≡ c ∷ plain_keys false s
unfolding plain_keys
plain_keys-cons flag c s e =
    ap
      (λ (p : Plain). elim p [
        | returns key now ↦ key ∷ plain_keys now s
        | goes_on now ↦ plain_keys now s
      ])
      e

plain_keys-line :
    (flag : Bool) (line s : List ℕ)
    → IsLine line
    → (k : Bool) × (plain_keys flag (line ++ s) ≡ line ++ plain_keys k s)
plain_keys-line flag [] s h = (flag, refl)
plain_keys-line flag (c ∷ line) s h =
    let (k, e) = plain_keys-line false line s h.1 in
    (
      k,
      plain_keys-cons flag c (line ++ s) (plain_step-line flag c h.0)
          ∙ ap (λ (t : List ℕ). c ∷ t) e,
    )

-- A line end gives one newline.
plain_keys-ending :
    (flag : Bool) (e : Ending) (s : List ℕ)
    → (k : Bool) × (plain_keys flag (ending_bytes e ++ s) ≡ 10 ∷ plain_keys k s)
unfolding plain_keys plain_step
plain_keys-ending flag cr s = (true, refl)
plain_keys-ending flag cr_lf s = (false, refl)
plain_keys-ending flag cr_nul s = (false, refl)

plain_keys-text :
    (flag : Bool) (lines : List (List ℕ × Ending))
    → AllLines lines
    → plain_keys flag (text lines) ≡ text_keys lines
unfolding text text_keys
plain_keys-text flag [] h = unfold plain_keys in refl
plain_keys-text flag ((line, e) ∷ lines) h =
    let (k, whole) = plain_keys-line flag line (ending_bytes e ++ text lines) h.0 in
    let (k2, ending) = plain_keys-ending k e (text lines) in
    whole
    ∙ ap (λ (t : List ℕ). line ++ t)
        (ending ∙ ap (λ (t : List ℕ). 10 ∷ t) (plain_keys-text k2 lines h.1))

IsLine-IsPlain : (xs : List ℕ) → IsLine xs → IsPlain xs
IsLine-IsPlain [] h = tt
IsLine-IsPlain (x ∷ xs) h = (ground (arith, h.0), IsLine-IsPlain xs h.1)

IsPlain-ending : (e : Ending) (s : List ℕ) → IsPlain s → IsPlain (ending_bytes e ++ s)
IsPlain-ending cr s h = (refl, h)
IsPlain-ending cr_lf s h = (refl, (refl, h))
IsPlain-ending cr_nul s h = (refl, (refl, h))

text-IsPlain : (lines : List (List ℕ × Ending)) → AllLines lines → IsPlain (text lines)
unfolding text
text-IsPlain [] h = tt
text-IsPlain ((line, e) ∷ lines) h =
    All-append (λ c. (c == 255 || c == 27 || c == 12) ≡ false) line (ending_bytes e ++ text lines)
      (IsLine-IsPlain line h.0) (IsPlain-ending e (text lines) (text-IsPlain lines h.1))

-- Lines that end in CR, CR LF or CR NUL are returned with one newline each, to the end of the session.
pub keys-text :
    (flag : Bool) (lines : List (List ℕ × Ending))
    → AllLines lines
    → keys (length (text lines) + 1) flag (text lines) ≡ ok (text_keys lines)
keys-text flag lines h =
    keys_lem (length (text lines) + 1) flag (text lines) (text-IsPlain lines h) (omega arith)
    ∙ ap ok (plain_keys-text flag lines h)
