-- ===== src/Calendar/Start.antt =====
-- `datetime.strptime(text, "%Y-%m")` and the instant at which a month starts. A month before 1970 gets
-- the instant 0, at which no instant lies before its end.
use Prim.Native.Char.{Char}
use hosted_agents_saa_s_plat.Prelude.{
  ℕ, zero, suc, ◌+◌, ◌*◌, ◌-◌, String, Bool, ◌&&◌, Option, none, some, List, [], ◌∷◌, leb, ltb,
  if◌then◌else◌,
}
use hosted_agents_saa_s_plat.Domain.Models.{Datetime}
use hosted_agents_saa_s_plat.Calendar.{year_days, month_days}
use hosted_agents_saa_s_plat.Api.Month.{is_digit, is_dash, digit_value}

abbrev checked : Bool → ℕ → ℕ → Option (ℕ × ℕ)
checked shape year month =
    if shape && (leb 1 year && (leb 1 month && leb month 12)) then some (year, month) else none

abbrev four : Char → Char → Char → Char → ℕ
four a b c d = digit_value a * 1000 + digit_value b * 100 + digit_value c * 10 + digit_value d

abbrev four_digits : Char → Char → Char → Char → Bool
four_digits a b c d = is_digit a && (is_digit b && (is_digit c && is_digit d))

-- the year and the month; a month may be written with one digit
unfoldable pub parse_month : String → Option (ℕ × ℕ)
parse_month
      (String.◌∷◌ a (
        String.◌∷◌ b (
          String.◌∷◌ c (String.◌∷◌ d (String.◌∷◌ dash (String.◌∷◌ m (String.◌∷◌ n String.[]))))))) =
    checked (four_digits a b c d && (is_dash dash && (is_digit m && is_digit n))) (four a b c d)
      (digit_value m * 10 + digit_value n)
parse_month
      (String.◌∷◌ a
        (String.◌∷◌ b (String.◌∷◌ c (String.◌∷◌ d (String.◌∷◌ dash (String.◌∷◌ n String.[])))))) =
    checked (four_digits a b c d && (is_dash dash && is_digit n)) (four a b c d) (digit_value n)
parse_month _ = none

-- the days of so many years from this one on
unfoldable pub days_of_years : ℕ → ℕ → ℕ
days_of_years zero year = 0
days_of_years (suc n) year = year_days year + days_of_years n (year + 1)

-- the days of so many of these months
unfoldable pub days_of_months : ℕ → List ℕ → ℕ
days_of_months zero months = 0
days_of_months (suc n) [] = 0
days_of_months (suc n) (d ∷ months) = d + days_of_months n months

unfoldable pub month_start : ℕ → ℕ → Datetime
unfolding days_of_years days_of_months
month_start year month =
    if ltb year 1970
    then 0
    else 86400000000
      * (days_of_years (year - 1970) 1970 + days_of_months (month - 1) (month_days year))
