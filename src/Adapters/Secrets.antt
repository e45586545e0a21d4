-- ===== src/Adapters/Secrets.antt =====
-- `_secret_name` and `SecretReferenceStore` of src/saas_platform/adapters/secrets.py. `isalnum` is
-- that of ASCII.
use Prim.Native.Char.{Char, code}
use Prim.Native.String.{◌++◌ as text_append}
use hosted_agents_saa_s_plat.Prelude.{
  string_eq, nat_beq, ◌≤◌, ◌≡◌, refl, String, Bool, ◌&&◌, ◌||◌, Option, some, [], leb,
  if◌then◌else◌, ◌==◌,
}
use hosted_agents_saa_s_plat.Collections.Dict.{Dict, get, put}
use hosted_agents_saa_s_plat.Text.{strip, lower, prefix, len, len-prefix-le}

abbrev is_alnum : Char → Bool
is_alnum c = let n = code c in leb 48 n && leb n 57 || leb 65 n && leb n 90 || leb 97 n && leb n 122

abbrev dash : Char
dash = "-"

-- the join over the characters
unfoldable pub safe_text : String → String
safe_text String.[] = ""
safe_text (String.◌∷◌ c s) =
    String.◌∷◌ (if is_alnum c || nat_beq (code c) (code dash) then c else dash) (safe_text s)

-- `strip("-")`
unfoldable pub lstrip_dash : String → String
lstrip_dash String.[] = ""
lstrip_dash (String.◌∷◌ c s) =
    let rest = lstrip_dash s in if nat_beq (code c) (code dash) then rest else String.◌∷◌ c s

unfoldable pub rstrip_dash : String → String
rstrip_dash String.[] = ""
rstrip_dash (String.◌∷◌ c s) =
    let rest = rstrip_dash s in
    if rest == "" && nat_beq (code c) (code dash) then "" else String.◌∷◌ c rest

unfoldable pub secret_name : String → String → String
unfolding safe_text lstrip_dash rstrip_dash
secret_name tenant_id key_name =
    let raw =
      strip (lower (text_append "tenant-" (text_append tenant_id (text_append "-" key_name)))) in
    prefix 120 (rstrip_dash (lstrip_dash (safe_text raw)))

secret_name-le : (tenant_id key_name : String) → len (secret_name tenant_id key_name) ≤ 120
unfolding secret_name
secret_name-le tenant_id key_name = len-prefix-le 120 _

-- the key of a reference
abbrev ref_key : String → String → String
ref_key tenant_id key_name = text_append tenant_id (text_append ":" key_name)

unfoldable pub set_reference : String → String → String → Dict String String → Dict String String
set_reference tenant_id key_name vault_uri refs = put refs (ref_key tenant_id key_name) vault_uri

unfoldable pub get_reference : String → String → Dict String String → Option String
get_reference tenant_id key_name refs = get refs (ref_key tenant_id key_name)

-- two names of tenants and keys that give one reference
one_reference : get_reference "a" "b:c" (set_reference "a:b" "c" "uri" []) ≡ some "uri"
unfolding get_reference set_reference get put
one_reference = refl
