-- ===== src/Policies/Auth/Claims.antt =====
-- The claims of a token, and what `_extract_string_set`, `_extract_scopes` and
-- `_extract_tenant_ids` read from them. A Python set is a list of which only membership counts.
use Prim.Native.Char.{Char}
use hosted_agents_saa_s_plat.Prelude.{
  string_eq, String, Bool, true, false, not, Option, none, some, List, [], ◌∷◌, ◌++◌, ◌==◌, filter,
  map, if◌then◌else◌,
}
use hosted_agents_saa_s_plat.Collections.Dict.{Dict, get}
use hosted_agents_saa_s_plat.Text.{strip}
use hosted_agents_saa_s_plat.Text.Split.{split, replace}

-- A value of a decoded JSON document, by what the code asks of it. An `array` has its own `str` and
-- those of its items; any other value (null, a bool, a number, an object) its truth and its `str`.
pub data Value : Type 0 where
  text : String → Value
  array : String → List String → Value
  other : Bool → String → Value

abbrev pub Claims : Type 0
Claims = Dict String Value

abbrev pub null : Value
null = other false "None"

abbrev or_null : Option Value → Value
or_null none = null
or_null (some v) = v

-- `claims.get(key)`
unfoldable pub claim : Claims → String → Value
claim claims key = or_null (get claims key)

abbrev pub is_nil : List String → Bool
is_nil [] = true
is_nil _ = false

-- `bool(v)`
abbrev pub truthy : Value → Bool
truthy (text s) = not (s == "")
truthy (array s items) = not (is_nil items)
truthy (other b s) = b

-- `str(v)`
abbrev pub str : Value → String
str (text s) = s
str (array s items) = s
str (other b s) = s

-- `a or b`
abbrev pub or_else : Value → Value → Value
or_else a b = if truthy a then a else b

abbrev pub non_empty : String → Bool
non_empty s = not (s == "")

-- `{part.strip() for part in parts if part.strip()}`
unfoldable pub stripped_parts : List String → List String
stripped_parts parts = filter non_empty (map strip parts)

abbrev pub space : Char
space = " "

abbrev pub comma : Char
comma = ","

unfoldable pub extract_string_set : Value → List String
unfolding stripped_parts
extract_string_set (text s) = stripped_parts (split space (replace comma space s))
extract_string_set (array s items) = stripped_parts items
extract_string_set (other b s) = []

-- the scopes of one claim
unfoldable pub extract_scope_claim : Value → List String
unfolding stripped_parts
extract_scope_claim (text s) = stripped_parts (split space s)
extract_scope_claim (array s items) = stripped_parts items
extract_scope_claim (other b s) = []

unfoldable pub extract_scopes : Claims → List String
unfolding extract_scope_claim
extract_scopes claims =
    extract_scope_claim (claim claims "scp") ++ extract_scope_claim (claim claims "scope")

-- `str(claims.get("tenant_id") or claims.get("tid") or "")`
unfoldable pub claim_tenant : Claims → String
claim_tenant claims =
    str (or_else (or_else (claim claims "tenant_id") (claim claims "tid")) (text ""))

unfoldable pub extract_tenant_ids : Claims → List String
unfolding extract_string_set claim_tenant
extract_tenant_ids claims =
    let direct = strip (claim_tenant claims) in
    extract_string_set (claim claims "tenant_ids") ++ (if non_empty direct then direct ∷ [] else [])
