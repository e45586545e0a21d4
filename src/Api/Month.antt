-- ===== src/Api/Month.antt =====
-- `_normalize_month` of main.py. `\d` is read as a digit of ASCII.
use Prim.Native.Char.{Char, code}
use hosted_agents_saa_s_plat.Prelude.{
  ℕ, ◌+◌, ◌*◌, ◌-◌, String, Bool, false, ◌&&◌, Option, none, some, leb, if◌then◌else◌,
}
use hosted_agents_saa_s_plat.Text.{strip}
use hosted_agents_saa_s_plat.Domain.Action.{Outcome, ok, err, http}

abbrev pub is_digit : Char → Bool
is_digit c = leb b'0' (code c) && leb (code c) b'9'

abbrev pub is_dash : Char → Bool
is_dash c = leb b'-' (code c) && leb (code c) b'-'

abbrev pub digit_value : Char → ℕ
digit_value c = code c - b'0'

-- the pattern `^\d{4}-\d{2}$`, and then `strptime(text, "%Y-%m")`: a year from 1, a month from 1 to 12
abbrev valid_parts : Char → Char → Char → Char → Char → Char → Char → Bool
valid_parts y1 y2 y3 y4 dash m1 m2 =
    (is_digit y1
      && is_digit y2
      && is_digit y3
      && is_digit y4
      && is_dash dash
      && is_digit m1
      && is_digit m2)
    && (leb 1 (digit_value y1 * 1000 + digit_value y2 * 100 + digit_value y3 * 10 + digit_value y4)
        && leb 1 (digit_value m1 * 10 + digit_value m2)
        && leb (digit_value m1 * 10 + digit_value m2) 12)

unfoldable pub is_month : String → Bool
is_month
      (String.◌∷◌ y1 (
        String.◌∷◌ y2 (
          String.◌∷◌ y3
            (String.◌∷◌ y4 (String.◌∷◌ dash (String.◌∷◌ m1 (String.◌∷◌ m2 String.[]))))))) =
    valid_parts y1 y2 y3 y4 dash m1 m2
is_month _ = false

unfoldable pub normalize_month : Option String → String → Outcome String
unfolding is_month
normalize_month none current_month = ok current_month
normalize_month (some month) current_month =
    let text = strip month in
    if is_month text then ok text else err (http 400 "month must be YYYY-MM")
