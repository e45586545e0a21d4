-- ===== src/Text.antt =====
-- What the source uses of Python's `str`: `strip`, `lower`, `split`, slices and the order of texts.
-- `lower` maps the letters of ASCII: every text that the source lowers is only compared with words
-- in ASCII letters that no other letter is lowered to.
pub mod Order
pub mod Split
pub mod Decimal
use Prim.Native.Char.{Char, code}
use Prim.Native.String
use hosted_agents_saa_s_plat.Prelude.{
  ℕ, zero, suc, ◌+◌, ◌≤◌, ◌≡◌, refl, String, Bool, true, false, ◌&&◌, ◌||◌, nat_beq, leb, arith,
  List, [], ◌∷◌, if◌then◌else◌,
}

-- the number of characters: `len(s)`
unfoldable pub len : String → ℕ
len String.[] = 0
len (String.◌∷◌ c s) = suc (len s)

-- `str.isspace` of one character
unfoldable pub is_space : Char → Bool
is_space c =
    let n = code c in
    leb 9 n && leb n 13
    || leb 28 n && leb n 32
    || nat_beq n 0x85
    || nat_beq n 0xa0
    || nat_beq n 0x1680
    || leb 0x2000 n && leb n 0x200a
    || nat_beq n 0x2028
    || nat_beq n 0x2029
    || nat_beq n 0x202f
    || nat_beq n 0x205f
    || nat_beq n 0x3000

-- `s.lstrip()`
unfoldable pub lstrip : String → String
unfolding is_space
lstrip String.[] = ""
lstrip (String.◌∷◌ c s) = let rest = lstrip s in if is_space c then rest else String.◌∷◌ c s

abbrev is_empty : String → Bool
is_empty String.[] = true
is_empty (String.◌∷◌ c s) = false

-- `s.rstrip()`: a character stays if it is no space or if something after it stays
unfoldable pub rstrip : String → String
unfolding is_space
rstrip String.[] = ""
rstrip (String.◌∷◌ c s) =
    let rest = rstrip s in if is_empty rest && is_space c then "" else String.◌∷◌ c rest

-- `s.strip()`
unfoldable pub strip : String → String
unfolding lstrip rstrip
strip s = rstrip (lstrip s)

-- `s[:n]`
unfoldable pub prefix : ℕ → String → String
prefix zero s = ""
prefix (suc n) String.[] = ""
prefix (suc n) (String.◌∷◌ c s) = String.◌∷◌ c (prefix n s)

-- A slice is at most as long as its bound.
pub len-prefix-le : (n : ℕ) (s : String) → len (prefix n s) ≤ n
unfolding len prefix
len-prefix-le zero s = omega arith
len-prefix-le (suc n) String.[] = omega arith
len-prefix-le (suc n) (String.◌∷◌ c s) = omega (arith, len-prefix-le n s)

-- the character of `to` that stands where `c` stands in `from`
unfoldable pub translate : String → String → Char → Char
translate (String.◌∷◌ a from) (String.◌∷◌ b to) c =
    let rest = translate from to c in if nat_beq (code c) (code a) then b else rest
translate _ _ c = c

-- `s.lower()` on the letters of ASCII
unfoldable pub lower : String → String
unfolding translate
lower String.[] = ""
lower (String.◌∷◌ c s) =
    String.◌∷◌ (translate "ABCDEFGHIJKLMNOPQRSTUVWXYZ" "abcdefghijklmnopqrstuvwxyz" c) (lower s)

-- `s.split(" ", 1)[1]`, of a text with a space in it
unfoldable pub after_first_space : String → String
after_first_space String.[] = ""
after_first_space (String.◌∷◌ c s) =
    let rest = after_first_space s in if nat_beq (code c) 32 then s else rest
