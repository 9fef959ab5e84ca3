-- ===== src/Common/Run.antt =====
-- The result of running C code: a value, or a fault where the behaviour of the code is undefined
-- or a loop does not end.
use fbbs.Common.{◌≡◌, refl}

pub data Fault : Type 0 where
  bad_access null_pointer bad_shift overflow overlap endless : Fault

pub data Run {ℓ} (A : Type ℓ) : Type ℓ where
  fault : Fault → Run A
  ok : A → Run A

-- What follows a fault does not run.
infixl 5 ◌>>=◌
abbrev pub ◌>>=◌ {ℓ κ} : {A : Type ℓ} {B : Type κ} → Run A → (A → Run B) → Run B
fault why >>= next = fault why
ok result >>= next = next result

pub bind_assoc {ℓ κ μ} :
    {A : Type ℓ} {B : Type κ} {C : Type μ} (m : Run A) (f : A → Run B) (g : B → Run C)
    → (m >>= f >>= g) ≡ (m >>= λ a. f a >>= g)
bind_assoc (fault why) f g = refl
bind_assoc (ok result) f g = refl
