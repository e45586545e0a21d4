-- ===== src/Calendar.antt =====
-- `strftime("%Y-%m")` of a UTC `datetime`, counted in microseconds since 1970-01-01 (a `datetime`
-- ends with the year 9999, so four digits are enough).
pub mod Start
use Prim.Native.Char.{Char}
use hosted_agents_saa_s_plat.Prelude.{
  nat_eq, ℕ, zero, suc, ◌+◌, ◌-◌, ◌/◌, ◌%◌, String, Bool, ◌&&◌, ◌||◌, not, List, [], ◌∷◌, ltb, ◌==◌,
  ◌≡◌, refl, if◌then◌else◌,
}
use hosted_agents_saa_s_plat.Domain.Models.{Datetime}

abbrev pub is_leap : ℕ → Bool
is_leap y = (y % 4 == 0 && not (y % 100 == 0)) || y % 400 == 0

abbrev pub year_days : ℕ → ℕ
year_days y = if is_leap y then 366 else 365

-- the lengths of the months
abbrev pub month_days : ℕ → List ℕ
month_days y =
    31 ∷ (if is_leap y then 29 else 28) ∷ 31 ∷ 30 ∷ 31 ∷ 30 ∷ 31 ∷ 31 ∷ 30 ∷ 31 ∷ 30 ∷ 31 ∷ []

-- the year, and the days before it; a day for fuel is enough, since a year has more than one
unfoldable pub year_from : ℕ → ℕ → ℕ → ℕ × ℕ
year_from zero y d = (y, d)
year_from (suc fuel) y d =
    let rest = year_from fuel (y + 1) (d - year_days y) in
    if ltb d (year_days y) then (y, d) else rest

unfoldable pub month_from : ℕ → List ℕ → ℕ → ℕ
month_from m [] d = m
month_from m (n ∷ ns) d = let rest = month_from (m + 1) ns (d - n) in if ltb d n then m else rest

unfoldable pub year_month : Datetime → ℕ × ℕ
unfolding year_from month_from
year_month t =
    let day = t / 86400000000 in
    let (y, d) = year_from day 1970 day in (y, month_from 1 (month_days y) d)

abbrev pub digit : ℕ → Char
digit n =
    if n == 0
    then "0"
    else if n == 1
    then "1"
    else if n == 2
    then "2"
    else if n == 3
    then "3"
    else if n == 4
    then "4"
    else if n == 5
    then "5"
    else if n == 6
    then "6"
    else if n == 7
    then "7"
    else if n == 8
    then "8"
    else "9"

infixr 67 ◌::◌
abbrev ◌::◌ : Char → String → String
c :: s = String.◌∷◌ c s

unfoldable pub month_text : Datetime → String
unfolding year_month
month_text t =
    let (y, m) = year_month t in
    digit (y / 1000 % 10)
    :: digit (y / 100 % 10)
    :: digit (y / 10 % 10)
    :: digit (y % 10)
    :: "-"
    :: digit (m / 10 % 10)
    :: digit (m % 10)
    :: ""

-- 2024-02-29 and 2026-12-31, a microsecond before midnight
leap_day : month_text 1709251199999999 ≡ "2024-02"
unfolding month_text
leap_day = refl

new_year : month_text 1798761599999999 ≡ "2026-12"
unfolding month_text
new_year = refl
