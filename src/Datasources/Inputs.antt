-- ===== src/Datasources/Inputs.antt =====
-- internal/datasources/provider.go: what `Set.Resolve` lets through to the providers, and how it
-- merges what they give. A provider is any state with a step that answers one call; the warnings
-- leave out the value and the request, which `warnRejected` renders for the log. A Go map is ranged
-- over in the order of its list.
pub mod Laws
pub mod Warning
use authzmtls.Common.{
  ℕ, ltb, Bool, true, false, List, [], ◌∷◌, ◌++◌, map, Option, none, some, Bytes, codes, bytes_eq,
  bytes_in, lookup, insert, length, any, Result, ok, fail, if◌then◌else◌,
}
use authzmtls.GoStd.Runes.{runes, is_control}
use authzmtls.Rules.Expand.{VarMap, values}
use authzmtls.Rules.Reqvars.{Vars}
use authzmtls.Rules.Sources.{Resolver}
use authzmtls.Datasources.Cache.{identity_of}

-- `maxVarValueLen`.
abbrev pub max_var_value_len : ℕ
max_var_value_len = 4096

abbrev pub identity_var : Bytes
identity_var = codes "IDENTITY"

-- `validVarValue`; `some` is the reason of a failure.
unfoldable pub valid_var_value : Bytes → Option Bytes
unfolding bytes_eq runes
valid_var_value v =
    if bytes_eq v []
    then some (codes "empty")
    else if ltb max_var_value_len (length v)
    then some (codes "too long")
    else if any is_control (runes v)
    then some (codes "contains control characters")
    else none

-- A variable's name and why it was rejected, of the warning that `warnRejected` writes.
abbrev pub Rejected : Type 0
Rejected = Bytes × Bytes

-- The loop of `sanitize` on one variable.
unfoldable pub clean_var :
    Bytes → Bytes → Option Bytes → Vars × List Rejected → Vars × List Rejected
clean_var name value none (clean, log) = (insert name value clean, log)
clean_var name value (some reason) (clean, log) = (clean, log ++ (name, reason) ∷ [])

unfoldable pub clean_vars : Vars → Vars × List Rejected → Vars × List Rejected
unfolding clean_var
clean_vars [] acc = acc
clean_vars ((name, value) ∷ vars) acc =
    let reason = if bytes_eq name identity_var then none else valid_var_value value in
    clean_vars vars (clean_var name value reason acc)

-- `sanitize`; `none` is `ok == false`.
unfoldable pub sanitize : Vars → Option Vars × List Rejected
unfolding clean_vars
sanitize vars = elim (valid_var_value (identity_of vars)) [
  | some reason ↦ (none, (identity_var, reason) ∷ [])
  | none ↦ let (clean, log) = clean_vars vars ([], []) in (some clean, log)
]

-- `merged` and `seen`; each set of `seen` is a list.
pub record Union : Type 0 where
  pub merged : VarMap
  pub seen : VarMap

-- The inner loop of `unionInto`.
unfoldable pub add_values : Bytes → List Bytes → Union → Union
add_values name [] u = u
add_values name (v ∷ vs) u =
    let grown : Union = record {
      merged = insert name (values name u.merged ++ v ∷ []) u.merged;
      seen = insert name (v ∷ values name u.seen) u.seen;
    } in
    add_values name vs (if bytes_in v (values name u.seen) then u else grown)

-- `seen[name]` exists once the inner loop starts.
abbrev pub ensure_set : Bytes → VarMap → VarMap
ensure_set name seen = elim (lookup name seen) [ none ↦ insert name [] seen | some set ↦ seen ]

-- `unionInto`.
unfoldable pub union_into : VarMap → Union → Union
unfolding add_values
union_into [] u = u
union_into ((name, vs) ∷ src) u =
    union_into src (add_values name vs (record u { seen = ensure_set name u.seen }))

-- The last loop of `Resolve`; a failed provider's result stays nil.
unfoldable pub merge_results : List (Result VarMap) → Union → Union
merge_results [] u = u
merge_results (fail e ∷ results) u = merge_results results u
merge_results (ok src ∷ results) u = merge_results results (union_into src u)

-- The state of a set: its providers, and the warnings written.
pub record SetState (P : Type 0) : Type 0 where
  pub providers : List P
  pub rejected : List Rejected

module _ {P : Type 0} (step : Vars → P → Result VarMap × P) where
  -- Every provider is asked; none sees another's state.
  abbrev pub ask_all : Vars → List P → List (Result VarMap)
  ask_all vars ps = map (λ p. (step vars p).0) ps

  -- `Set.Resolve`.
  unfoldable pub set_resolve : Vars → SetState P → VarMap × SetState P
  set_resolve vars s =
      let (cleaned, log) = sanitize vars in
      elim cleaned [
        | none ↦ ([], record s { rejected = s.rejected ++ log })
        | some clean ↦ (
          (merge_results (ask_all clean s.providers) (record { merged = []; seen = [] })).merged,
          record {
            providers = map (λ p. (step clean p).1) s.providers;
            rejected = s.rejected ++ log;
          },
        )
      ]

  -- The set, as the rules take it.
  abbrev pub set_resolver : Resolver (SetState P)
  set_resolver = record { resolve = set_resolve }
