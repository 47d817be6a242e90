-- ===== src/Rules/Matcher.antt =====
-- internal/rules/mounts.go: `Matcher`.
pub mod Laws
use authzmtls.Common.{
  ℕ, Bool, true, false, not, ◌||◌, List, [], ◌∷◌, ◌++◌, map, Bytes, bytes_eq, if◌then◌else◌,
}
use authzmtls.GoStd.Strings.{has_prefix, trim_suffix}
use authzmtls.GoStd.FilePath.{slash, clean}

pub record Matcher : Type 0 where
  pub prefixes : List Bytes

-- `normalizePrefix`.
unfoldable pub normalize_prefix : Bytes → Bytes
normalize_prefix p =
    let cleaned = clean p in
    if not (bytes_eq cleaned (slash ∷ [])) then trim_suffix slash cleaned else cleaned

-- `NewMatcher`.
unfoldable pub new_matcher : List Bytes → Matcher
new_matcher prefixes = record { prefixes = map normalize_prefix prefixes }

abbrev pub boundary : Bytes → Bytes
boundary prefix = if bytes_eq prefix (slash ∷ []) then slash ∷ [] else prefix ++ slash ∷ []

-- The loop of `Allowed`.
unfoldable pub allowed_by : List Bytes → Bytes → Bool
allowed_by [] path = false
allowed_by (prefix ∷ prefixes) path =
    if bytes_eq path prefix
    then true
    else if has_prefix path (boundary prefix)
    then true
    else allowed_by prefixes path

-- `Matcher.Allowed`.
unfoldable pub allowed : Matcher → Bytes → Bool
allowed m path = allowed_by m.prefixes path
