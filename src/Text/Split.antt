-- ===== src/Text/Split.antt =====
-- `s.split(" ")` and `s.replace(",", " ")`.
use Prim.Native.Char.{Char, code}
use hosted_agents_saa_s_plat.Prelude.{String, nat_beq, List, [], ◌∷◌, if◌then◌else◌}

abbrev push_front : Char → List String → List String
push_front c [] = String.◌∷◌ c "" ∷ []
push_front c (w ∷ ws) = String.◌∷◌ c w ∷ ws

-- the parts between the occurrences of one character
unfoldable pub split : Char → String → List String
split sep String.[] = "" ∷ []
split sep (String.◌∷◌ c s) =
    let rest = split sep s in if nat_beq (code c) (code sep) then "" ∷ rest else push_front c rest

-- each occurrence of one character replaced by another
unfoldable pub replace : Char → Char → String → String
replace old new String.[] = ""
replace old new (String.◌∷◌ c s) =
    let rest = replace old new s in
    if nat_beq (code c) (code old) then String.◌∷◌ new rest else String.◌∷◌ c rest
