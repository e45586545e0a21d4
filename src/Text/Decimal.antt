-- ===== src/Text/Decimal.antt =====
-- `str` of a number.
use Prim.Native.Char.{Char, code}
use Prim.Native.String.{◌++◌}
use text.Mathlib.TextLemmas.{nil-append, cons-append, tail-eq_of_cons-eq}
use hosted_agents_saa_s_plat.Prelude.{
  ℕ, zero, suc, ◌+◌, ◌-◌, ◌*◌, ◌/◌, ◌%◌, ◌≤◌, String, Bool, ◌&&◌, ltb, leb, true, false, ◌≡◌, refl,
  ap, sym, ◌∙◌, arith, Bool-cases, inl, inr, if◌then◌else◌,
}
use hosted_agents_saa_s_plat.Calendar.{digit}

-- the digits before the text; as much fuel as the number is enough, since a quotient by 10 is less
unfoldable pub decimal_from : ℕ → ℕ → String → String
decimal_from zero n text = String.◌∷◌ (digit n) text
decimal_from (suc fuel) n text = elim (ltb n 10) [
  | true ↦ String.◌∷◌ (digit n) text
  | false ↦ decimal_from fuel (n / 10) (String.◌∷◌ (digit (n % 10)) text)
]

unfoldable pub decimal : ℕ → String
unfolding decimal_from
decimal n = decimal_from n n ""

decimal_203 : decimal 203 ≡ "203"
unfolding decimal
decimal_203 = refl

is_digit : Char → Bool
is_digit c = leb 48 (code c) && leb (code c) 57

-- the number that the digits at the front say, after a number already read, and the rest
number : ℕ → String → ℕ × String
number n String.[] = (n, "")
number n (String.◌∷◌ c s) =
    let read = number (10 * n + (code c - 48)) s in if is_digit c then read else (n, String.◌∷◌ c s)

code-digit : (n : ℕ) → n ≤ 9 → code (digit n) ≡ 48 + n
code-digit zero h = refl
code-digit (suc zero) h = refl
code-digit (suc (suc zero)) h = refl
code-digit (suc (suc (suc zero))) h = refl
code-digit (suc (suc (suc (suc zero)))) h = refl
code-digit (suc (suc (suc (suc (suc zero))))) h = refl
code-digit (suc (suc (suc (suc (suc (suc zero)))))) h = refl
code-digit (suc (suc (suc (suc (suc (suc (suc zero))))))) h = refl
code-digit (suc (suc (suc (suc (suc (suc (suc (suc zero)))))))) h = refl
code-digit (suc (suc (suc (suc (suc (suc (suc (suc (suc zero))))))))) h = refl
code-digit (suc (suc (suc (suc (suc (suc (suc (suc (suc (suc n)))))))))) h = omega arith

number-digit :
    (n d : ℕ) (s : String) → d ≤ 9 → number n (String.◌∷◌ (digit d) s) ≡ number (10 * n + d) s
unfolding number is_digit
number-digit n d s h = ground (arith, code-digit d h)

number-decimal_from :
    (fuel n : ℕ) (s : String) → n ≤ fuel → number 0 (decimal_from fuel n s) ≡ number n s
unfolding decimal_from
number-decimal_from zero n s h =
    let none_left : n ≡ 0 = omega arith in rw none_left (number-digit 0 0 s (omega arith))
number-decimal_from (suc fuel) n s h = elim (Bool-cases (ltb n 10)) [
  | inl small ↦
      rw (small, decimal_from)
        (number-digit 0 n s (ground arith) ∙ ap (λ (k : ℕ). number k s) (omega arith))
  | inr large ↦
      rw (large, decimal_from)
        (number-decimal_from fuel (n / 10) (String.◌∷◌ (digit (n % 10)) s) (ground arith)
          ∙ number-digit (n / 10) (n % 10) s (omega arith)
          ∙ ap (λ (k : ℕ). number k s) (omega arith))
]

decimal_from-append :
    (fuel n : ℕ) (s t : String) → decimal_from fuel n s ++ t ≡ decimal_from fuel n (s ++ t)
unfolding decimal_from
decimal_from-append zero n s t = cons-append (digit n) s t
decimal_from-append (suc fuel) n s t = elim (Bool-cases (ltb n 10)) [
  | inl small ↦ rw (small, decimal_from) (cons-append (digit n) s t)
  | inr large ↦
      rw (large, decimal_from)
        (decimal_from-append fuel (n / 10) (String.◌∷◌ (digit (n % 10)) s) t
          ∙ ap (decimal_from fuel (n / 10)) (cons-append (digit (n % 10)) s t))
]

-- the text of a number is told from what follows it by a colon
number-decimal : (n : ℕ) (t : String) → number 0 (decimal n ++ (":" ++ t)) ≡ (n, String.◌∷◌ ":" t)
unfolding decimal number is_digit
number-decimal n t =
    ap (number 0)
      (decimal_from-append n n "" (":" ++ t) ∙ ap (decimal_from n n) (nil-append (":" ++ t)))
    ∙ number-decimal_from n n (":" ++ t) (omega arith)
    ∙ ap (number n) (cons-append ":" "" t ∙ ap (String.◌∷◌ ":") (nil-append t))

pub decimal_inj :
    (m n : ℕ) (s t : String) → decimal m ++ (":" ++ s) ≡ decimal n ++ (":" ++ t) → (m ≡ n) × (s ≡ t)
decimal_inj m n s t e =
    let same : (m, String.◌∷◌ ":" s) ≡ (n, String.◌∷◌ ":" t) =
      sym (number-decimal m s) ∙ ap (number 0) e ∙ number-decimal n t in
    (ap (λ (p : ℕ × String). p.0) same, tail-eq_of_cons-eq (ap (λ (p : ℕ × String). p.1) same))
