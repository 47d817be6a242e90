-- ===== src/Datasources/Ldap/Outage.antt =====
-- The provider behind the cache, while the directory is failing.
use authzmtls.Common.{ℤ, ◌≡◌, refl, [], some, Bytes, Result, ok}
use authzmtls.Datasources.Cache.Laws.{Remembers, value_entry}
use authzmtls.Datasources.Cache.{Backend, Lru, IsLru, Cached, settle_refresh, refresh}
use authzmtls.Datasources.Ldap.Pool.{SearchError, get}
use authzmtls.Datasources.Ldap.Provider.{
  Directory, Provider, search_and_put, resolve_user, resolved_user, user_request, escaped_identity,
  resolve,
}
use authzmtls.Rules.Expand.{VarMap}
use authzmtls.Rules.Reqvars.{Vars}

module _ {L Conn W : Type 0} (lru : Lru L) (laws : IsLru lru) (dir : Directory Conn W)
    (clock : Provider Conn W → ℤ × Provider Conn W) (ttl neg_ttl : ℤ) where
  -- The provider, as the cache takes it.
  abbrev pub ldap_backend : Backend (Provider Conn W)
  ldap_backend = record { now = clock; resolve = resolve dir }

  -- The provider's live call has this result.
  refresh-live :
      (identity : Bytes) (vars : Vars) (c : Cached L (Provider Conn W)) (v : VarMap) (t : ℤ)
      (result : Result VarMap)
      → Remembers lru identity v t c
      → (resolve dir vars c.world).0 ≡ result
      → refresh lru ldap_backend ttl neg_ttl identity vars c
        ≡ settle_refresh lru ldap_backend ttl neg_ttl identity
            (some (value_entry v t))
            result
            (clock (resolve dir vars c.world).1).0
            (record c {
              cache = (lru.get identity c.cache).1;
              world = (clock (resolve dir vars c.world).1).1;
            })
  unfolding refresh
  refresh-live identity vars c v t result known live = rw (known, live) refl

  resolve-search_failed :
      (vars : Vars) (p : Provider Conn W) (conn : Conn) (e : SearchError)
      → (get dir.net p.pool).0 ≡ ok conn
      → (dir.search conn
          (user_request dir p.user_search (escaped_identity dir vars))
          (get dir.net p.pool).1.world).0.1
        ≡ some e
      → (resolve dir vars p).0 ≡ ok []
  unfolding resolve resolve_user resolved_user search_and_put
  resolve-search_failed vars p conn e got failed = rw (got, failed) refl

  -- If the user search fails on a connection that the pool gave, a refresh succeeds with the empty
  -- map, which replaces the last known-good value of the identity in the cache as a fresh one.
  pub refresh-search_failed :
      (identity : Bytes) (vars : Vars) (c : Cached L (Provider Conn W)) (v : VarMap) (t : ℤ)
      (conn : Conn) (e : SearchError)
      → Remembers lru identity v t c
      → (get dir.net c.world.pool).0 ≡ ok conn
      → (dir.search conn
          (user_request dir c.world.user_search (escaped_identity dir vars))
          (get dir.net c.world.pool).1.world).0.1
        ≡ some e
      → ((refresh lru ldap_backend ttl neg_ttl identity vars c).0 ≡ ok [])
        × Remembers lru identity []
            (clock (resolve dir vars c.world).1).0
            (refresh lru ldap_backend ttl neg_ttl identity vars c).1
  unfolding settle_refresh
  refresh-search_failed identity vars c v t conn e known got failed =
      let live = resolve-search_failed vars c.world conn e got failed in
      rw (refresh-live identity vars c v t (ok []) known live) (refl, laws.get-add identity _ _)
