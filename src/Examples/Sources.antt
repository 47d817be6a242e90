-- ===== src/Examples/Sources.antt =====
-- The cache in front of a provider, and a set of providers.
use authzmtls.Common.{
  ℕ, zero, suc, ℤ, pos, ◌≡◌, ◌↔◌, refl, Bool, true, false, List, [], ◌∷◌, some, Bytes, codes,
  bytes_eq, bytes_eq_refl, Elem, Result, ok, fail, lookup, insert, lookup-insert, if◌then◌else◌,
}
use authzmtls.Datasources.Cache.Laws.{value_entry}
use authzmtls.Datasources.Cache.{CacheEntry, Backend, Lru, IsLru, Cached}
use authzmtls.Datasources.Inputs.Laws.{GivenBy, set_resolve-GivenBy_iff}
use authzmtls.Datasources.Inputs.{valid_var_value, sanitize, SetState, ask_all, set_resolve}
use authzmtls.GoStd.Runes.{runes}
use authzmtls.Rules.Expand.{VarMap, values}
use authzmtls.Rules.Reqvars.{Vars}

-- An LRU that never evicts.
abbrev pub unbounded : Lru (List (Bytes × CacheEntry))
unbounded = record { get = λ k l. (lookup k l, l); add = λ k e l. insert k e l; purge = λ l. [] }

pub unbounded-IsLru : IsLru unbounded
unfolding lookup
unbounded-IsLru = record {
  get-add = λ k e l. rw (lookup-insert k k e l, bytes_eq_refl k);
  get-get = λ j k l. refl;
  get-purge = λ k l. refl;
}

abbrev pub directory_values : VarMap
directory_values = (codes "USER", codes "jdoe" ∷ []) ∷ []

-- The world is a clock of whole seconds; a live call takes one. The provider answers at second 0 only.
abbrev answer_at : ℕ → Result VarMap
answer_at zero = ok directory_values
answer_at (suc n) = fail (codes "down")

abbrev seconds : ℕ → ℤ
seconds n = pos n

abbrev pub directory : Backend ℕ
directory = record { now = λ w. (seconds w, w); resolve = λ vars w. (answer_at w, suc w) }

abbrev pub jdoe : Vars
jdoe = (codes "IDENTITY", codes "CN=jdoe") ∷ []

abbrev pub State : Type 0
State = Cached (List (Bytes × CacheEntry)) ℕ

abbrev pub at : List (Bytes × CacheEntry) → ℕ → State
at cache world = record { cache = cache; world = world; hits = 0; misses = 0; warnings = [] }

abbrev pub known : List (Bytes × CacheEntry)
known = (codes "CN=jdoe", value_entry directory_values (pos 0)) ∷ []

named : bytes_eq (codes "CN=jdoe") [] ≡ false
unfolding bytes_eq
named = refl

-- A provider that is up or down.
abbrev step : Vars → Bool → Result VarMap × Bool
step vars up = (if up then ok directory_values else fail (codes "down"), up)

abbrev providers : SetState Bool
providers = record { providers = false ∷ true ∷ []; rejected = [] }

jdoe-sanitize : (sanitize jdoe).0 ≡ some jdoe
unfolding sanitize valid_var_value runes bytes_eq lookup insert
jdoe-sanitize = refl

set_resolve-GivenBy_iff_example :
    Elem (codes "jdoe") (values (codes "USER") (set_resolve step jdoe providers).0)
    ↔ GivenBy (codes "USER") (codes "jdoe") (ask_all step jdoe providers.providers)
set_resolve-GivenBy_iff_example =
    set_resolve-GivenBy_iff step jdoe jdoe providers (codes "USER") (codes "jdoe") jdoe-sanitize
