-- ===== src/Time.antt =====
-- lib/time.c: the check of a date.
mod Tests
use fbbs.Common.{
  ℕ, zero, suc, ◌+◌, ◌%◌, ◌≡◌, refl, ap, ◌∙◌, Bool, true, false, not, ◌&&◌, ◌||◌, ltb, leb, ◌==◌,
  if◌then◌else◌, Bool-cases, inl, inr,
}

abbrev pub is_leap : ℕ → Bool
is_leap year = year % 4 == 0 && not (year % 100 == 0 && not (year % 400 == 0))

-- The variable `days`.
unfoldable pub days_of : (leap : Bool) → (month : ℕ) → ℕ
days_of leap month =
    if month == 2
    then (if leap then 29 else 28)
    else if month == 4 || month == 6 || month == 9 || month == 11
    then 30
    else 31

unfoldable pub valid_date : (year month day : ℕ) → Bool
unfolding days_of
valid_date year month day =
    if ltb month 1 || ltb 12 month
    then false
    else if ltb day 1 || ltb (days_of (is_leap year) month) day
    then false
    else true

-- How many of the numbers below a bound pass a test.
unfoldable pub count : (bound : ℕ) → (ℕ → Bool) → ℕ
count zero test = 0
count (suc n) test = (if test n then 1 else 0) + count n test

-- How many valid dates a year has, of the months and days below two bounds.
unfoldable pub dates : (months days : ℕ) → (year : ℕ) → ℕ
unfolding count
dates zero days year = 0
dates (suc m) days year = count days (λ d. valid_date year m d) + dates m days year

-- A year has 366 valid dates if 4 divides it, but 100 does not or 400 does, and 365 otherwise.
pub dates_lem : (year : ℕ) → dates 14 33 year ≡ (if is_leap year then 366 else 365)
unfolding dates valid_date count
dates_lem year = go (is_leap year) refl
  where
    go : (b : Bool) → is_leap year ≡ b → dates 14 33 year ≡ (if b then 366 else 365)
    go true e = rw e refl
    go false e = rw e refl
