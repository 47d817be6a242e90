-- ===== src/Rules/Expand.antt =====
-- internal/rules/mounts.go: `$VAR` expansion. The regular expression `\$([A-Za-z_][A-Za-z0-9_]*)`
-- is a scanner of three modes: outside a placeholder, behind a `$`, and inside a name.
pub mod Scan
pub mod Product
mod Assignments
mod Placeholders
pub mod Laws
pub mod Slashes
use authzmtls.Common.{
  ℕ, Bool, true, false, not, ◌&&◌, ◌||◌, List, [], ◌∷◌, ◌++◌, map, Option, none, some, Bytes,
  bytes_in, lookup, insert, ◌==◌, any, if◌then◌else◌,
}
use authzmtls.GoStd.Runes.{within, runes, is_control}
use authzmtls.Rules.Expand.Scan.{Token, byte, var, tokens}
use authzmtls.Rules.Expand.Product.{cartesian_product}

-- `map[string][]string`, the resolved variables.
abbrev pub VarMap : Type 0
VarMap = List (Bytes × List Bytes)

-- `vars[name]`; a missing key reads as a nil slice.
abbrev pub values : Bytes → VarMap → List Bytes
values name vars = elim (lookup name vars) [ none ↦ [] | some vs ↦ vs ]

-- `isSafeVarValue`.
unfoldable pub is_safe_var_value : Bytes → Bool
unfolding runes
is_safe_var_value v = not (any (λ r. r == b'/' || is_control r) (runes v))

-- The loop of `placeholderNames`; `seen` holds the names that the map `seen` holds.
pub unique_names : List Bytes → List Token → List Bytes
unique_names seen [] = []
unique_names seen (byte b ∷ ts) = unique_names seen ts
unique_names seen (var name ∷ ts) =
    let rest = unique_names (name ∷ seen) ts in
    let old = unique_names seen ts in if not (bytes_in name seen) then name ∷ rest else old

-- `placeholderNames`.
unfoldable pub placeholder_names : Bytes → List Bytes
unfolding unique_names tokens
placeholder_names pattern = unique_names [] (tokens pattern)

-- `ReplaceAllStringFunc` with the value of each name.
unfoldable pub fill : (Bytes → Bytes) → List Token → Bytes
fill value [] = []
fill value (byte b ∷ ts) = b ∷ fill value ts
fill value (var name ∷ ts) = value name ++ fill value ts

-- The map that the loop of `substitute` builds, over the one built so far.
pub value_by_name : List Bytes → List Bytes → List (Bytes × Bytes) → List (Bytes × Bytes)
value_by_name (name ∷ names) (v ∷ combo) m = value_by_name names combo (insert name v m)
value_by_name _ _ m = m

abbrev pub get_value : List (Bytes × Bytes) → Bytes → Bytes
get_value m name = elim (lookup name m) [ none ↦ [] | some v ↦ v ]

-- `substitute`.
unfoldable pub substitute : Bytes → List Bytes → List Bytes → Bytes
unfolding value_by_name fill tokens
substitute pattern names combo = fill (get_value (value_by_name names combo [])) (tokens pattern)

filter_safe : List Bytes → List Bytes
filter_safe [] = []
filter_safe (v ∷ vs) = if is_safe_var_value v then v ∷ filter_safe vs else filter_safe vs

-- One name's safe values, in front of the lists of the names behind it.
collect : List Bytes → Option (List (List Bytes)) → Option (List (List Bytes))
collect [] rest = none
collect (v ∷ vs) none = none
collect (v ∷ vs) (some lists) = some ((v ∷ vs) ∷ lists)

-- The first loop of `Expand`; `none` is its early return.
values_by_name : List Bytes → VarMap → Option (List (List Bytes))
unfolding collect
values_by_name [] vars = some []
values_by_name (name ∷ names) vars =
    collect (filter_safe (values name vars)) (values_by_name names vars)

-- The second loop of `Expand`.
substitute_all : Bytes → List Bytes → Option (List (List Bytes)) → List Bytes
substitute_all pattern names none = []
substitute_all pattern names (some lists) = map (substitute pattern names) (cartesian_product lists)

expand_names : Bytes → VarMap → List Bytes → List Bytes
unfolding substitute_all
expand_names pattern vars [] = pattern ∷ []
expand_names pattern vars (name ∷ names) =
    substitute_all pattern (name ∷ names) (values_by_name (name ∷ names) vars)

-- `Expand`.
unfoldable pub expand : Bytes → VarMap → List Bytes
unfolding expand_names values_by_name filter_safe is_safe_var_value placeholder_names substitute
    cartesian_product
expand pattern vars = expand_names pattern vars (placeholder_names pattern)
