-- ===== src/Datasources/Registry.antt =====
-- internal/datasources/provider.go: the registry of factories, `NewSet` and `Flush`. The factories'
-- results, the LRU and the meter are outside.
use authzmtls.Common.{
  ℤ, pos, List, [], ◌∷◌, ◌++◌, map, Option, none, some, Bytes, codes, lookup, insert, Result, ok,
  fail, wrapped, ◌>>=◌,
}
use authzmtls.Datasources.Cache.{Backend, Lru, Cached, effective_ttl, resolve, flush}
use authzmtls.Datasources.Inputs.{SetState, set_resolver}
use authzmtls.GoStd.Fmt.{Fmt}
use authzmtls.Rules.Expand.{VarMap}
use authzmtls.Rules.Reqvars.{Vars}
use authzmtls.Rules.Sources.{Resolver}

-- `Config`, and `Factory`, whose provider comes with the world that it lives in.
pub record SourceConfig (Node : Type 0) : Type 0 where
  pub name : Bytes
  pub kind : Bytes
  pub cache_ttl : ℤ
  pub raw : Node

abbrev pub Factory : Type 0 → Type 0 → Type 0
Factory Node W = Bytes → Node → Result W

-- `registry`.
abbrev pub Registry : Type 0 → Type 0 → Type 0
Registry Node W = List (Bytes × Factory Node W)

-- `Register`.
abbrev pub register : {Node W : Type 0} → Bytes → Factory Node W → Registry Node W → Registry Node W
register type_name factory registry = insert type_name factory registry

-- A provider of a set: `cachedProvider` with its name, its type and its refresh interval.
pub record Source (L W : Type 0) : Type 0 where
  pub name : Bytes
  pub kind : Bytes
  pub ttl : ℤ
  pub cached : Cached L W

-- What the sets of a process share: an empty LRU, the LRU's operations, the providers' calls, and the
-- error of creating the instruments, if there is one.
pub record Wiring (L W : Type 0) : Type 0 where
  pub lru : Lru L
  pub new_lru : L
  pub backend : Backend W
  pub instruments : Option Bytes

abbrev pub err_unknown_type : Fmt → Bytes → Bytes → Bytes
err_unknown_type fmt name type_name =
    codes "datasources: datasource "
    ++ (fmt.quote name
        ++ (codes ": unknown type " ++ (fmt.quote type_name ++ codes " (no Factory registered)")))

abbrev pub default_negative_cache_ttl : ℤ
default_negative_cache_ttl = pos 30000000000

module _ {L W : Type 0} (fmt : Fmt) (wiring : Wiring L W) where
  -- `newCachedProvider`.
  unfoldable pub new_cached_provider : Bytes → Bytes → ℤ → W → Result (Source L W)
  unfolding effective_ttl
  new_cached_provider name kind cache_ttl provider = elim wiring.instruments [
    | some e ↦ fail e
    | none ↦ ok (record {
      name = name;
      kind = kind;
      ttl = effective_ttl cache_ttl;
      cached = record {
        cache = wiring.new_lru;
        world = provider;
        hits = 0;
        misses = 0;
        warnings = [];
      };
    })
  ]

  -- The loop of `NewSet` on one entry.
  unfoldable pub new_source :
      {Node : Type 0} → Registry Node W → SourceConfig Node → Result (Source L W)
  unfolding new_cached_provider lookup
  new_source registry cfg = elim (lookup cfg.kind registry) [
    | none ↦ fail (err_unknown_type fmt cfg.name cfg.kind)
    | some factory ↦
        wrapped
          (codes "datasources: constructing datasource "
            ++ (fmt.quote cfg.name ++ (codes " (type " ++ (fmt.quote cfg.kind ++ codes "): "))))
          (factory cfg.name cfg.raw)
        >>= λ provider.
            wrapped
              (codes "datasources: wiring cache for datasource "
                ++ (fmt.quote cfg.name ++ codes ": "))
              (new_cached_provider cfg.name cfg.kind cfg.cache_ttl provider)
  ]

  unfoldable pub new_sources :
      {Node : Type 0} → Registry Node W → List (SourceConfig Node) → Result (List (Source L W))
  unfolding new_source
  new_sources registry [] = ok []
  new_sources registry (cfg ∷ cfgs) = new_source registry cfg >>= λ source.
      new_sources registry cfgs >>= λ sources. ok (source ∷ sources)

  -- `NewSet`.
  unfoldable pub new_set :
      {Node : Type 0} → Registry Node W → List (SourceConfig Node) → Result (SetState (Source L W))
  unfolding new_sources
  new_set registry cfgs =
      new_sources registry cfgs >>= λ sources. ok (record { providers = sources; rejected = [] })

  abbrev pub flush_source : Source L W → Source L W
  flush_source s = record s { cached = flush wiring.lru s.cached }

  -- `Set.Flush`.
  unfoldable pub flush_set : SetState (Source L W) → SetState (Source L W)
  unfolding flush
  flush_set s = record s { providers = map flush_source s.providers }

  -- `cachedProvider.Resolve`, as the set asks it.
  abbrev pub resolve_source : Vars → Source L W → Result VarMap × Source L W
  resolve_source vars s =
      let (result, cached) =
        resolve wiring.lru wiring.backend s.ttl default_negative_cache_ttl vars s.cached in
      (result, record s { cached = cached })

  -- The set, as the rules take it.
  abbrev pub source_resolver : Resolver (SetState (Source L W))
  source_resolver = set_resolver resolve_source
