-- ===== src/Time/Tests.antt =====
-- Dates, and the theorem for a year.
use fbbs.Common.{◌≡◌, refl, true, false}
use fbbs.Time.{valid_date, days_of}

leap_days :
    (valid_date 1996 2 29 ≡ true) × (valid_date 1900 2 29 ≡ false) × (valid_date 2000 13 1 ≡ false)
unfolding valid_date days_of
leap_days = (refl, refl, refl)
