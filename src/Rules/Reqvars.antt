-- ===== src/Rules/Reqvars.antt =====
-- internal/rules/reqvars.go: the variables that a request itself gives.
use authzmtls.Common.{
  not, List, [], ◌∷◌, ◌++◌, Option, none, some, Bytes, codes, bytes_eq, insert, if◌then◌else◌,
}
use authzmtls.DockerApi.{AuthzReq}

-- `map[string]string`, the variables taken from a request.
abbrev pub Vars : Type 0
Vars = List (Bytes × Bytes)

abbrev pub Extractor : Type 0
Extractor = AuthzReq → Option (Bytes × Bytes)

-- `Register`.
unfoldable pub register : Extractor → List Extractor → List Extractor
register e registry = registry ++ e ∷ []

abbrev pub identity_var : Bytes
identity_var = codes "IDENTITY"

-- `extractIdentity`.
unfoldable pub extract_identity : Extractor
unfolding bytes_eq
extract_identity req = if not (bytes_eq req.user []) then some (identity_var, req.user) else none

-- The registry once every `init` has run.
unfoldable pub registry : List Extractor
unfolding register extract_identity
registry = register extract_identity []

add_var : Vars → Option (Bytes × Bytes) → Vars
add_var vars none = vars
add_var vars (some (name, value)) = insert name value vars

extract_from : List Extractor → AuthzReq → Vars → Vars
extract_from [] req vars = vars
extract_from (e ∷ es) req vars = extract_from es req (add_var vars (e req))

-- `Extract`.
unfoldable pub extract : AuthzReq → Vars
unfolding extract_from add_var registry insert
extract req = extract_from registry req []
