-- ===== src/Datasources/Ldap/Provider.antt =====
-- internal/datasources/ldap/ldap.go: the provider that asks a directory for $USER and $GROUP. The
-- directory's answers and go-ldap's `EscapeFilter` are outside.
pub mod Slots
pub mod Answers
pub mod Entries
pub mod Reports
pub mod Filters
use authzmtls.Common.{
  ℕ, ℤ, pos, leb_ℤ, pos_part, Bool, true, false, not, ◌&&◌, ◌||◌, List, [], ◌∷◌, ◌++◌, Option, none,
  some, Bytes, codes, bytes_eq, append_new, map, Result, ok, fail, ◌>>=◌, if◌then◌else◌,
}
use authzmtls.Datasources.Cache.{identity_of}
use authzmtls.Datasources.Ldap.Filter.{substitute_filter_token}
use authzmtls.GoStd.Replace.{replace_all}
use authzmtls.Datasources.Ldap.Pool.{
  Network, Pool, SearchError, new_pool, get, put, conn_healthy_after_error,
}
use authzmtls.Datasources.Names.{normalize_subject_dn}
use authzmtls.Rules.Expand.{VarMap}
use authzmtls.Rules.Reqvars.{Vars}

-- `userSearchConfig` and `groupSearchConfig`, which have the same fields.
pub record SearchConfig : Type 0 where
  pub base_dn : Bytes
  pub filter : Bytes
  pub attribute : Bytes

-- `Config`.
pub record LdapConfig : Type 0 where
  pub url : Bytes
  pub bind_dn : Bytes
  pub bind_pw : Bytes
  pub pool_size : ℤ
  pub user_search : SearchConfig
  pub group_search : SearchConfig

-- The arguments of `goldap.NewSearchRequest` that differ between the searches.
pub record SearchRequest : Type 0 where
  pub base_dn : Bytes
  pub size_limit : ℕ
  pub filter : Bytes
  pub attribute : Bytes

-- `goldap.Entry`; `value` is `GetAttributeValue`.
pub record Entry : Type 0 where
  pub dn : Bytes
  pub value : Bytes → Bytes

-- `conn.Search`: the entries of the result and the error, both of which a search can have.
pub record Directory (Conn W : Type 0) : Type 0 where
  pub net : Network Conn W
  pub search : Conn → SearchRequest → W → (List Entry × Option SearchError) × W
  pub escape_filter : Bytes → Bytes

-- `userMatch`.
pub record UserMatch : Type 0 where
  pub username : Bytes
  pub dn : Bytes

-- `Provider`.
pub record Provider (Conn W : Type 0) : Type 0 where
  pub pool : Pool Conn W
  pub user_search : SearchConfig
  pub group_search : SearchConfig

abbrev pub user_search_size_limit : ℕ
user_search_size_limit = 200

abbrev pub group_search_size_limit : ℕ
group_search_size_limit = 500

abbrev pub default_pool_size : ℕ
default_pool_size = 8

abbrev pub size_or_default : ℤ → ℕ
size_or_default n = if leb_ℤ n (pos 0) then default_pool_size else pos_part n

abbrev pub lacks_search : SearchConfig → Bool
lacks_search cfg = bytes_eq cfg.base_dn [] || bytes_eq cfg.filter []

-- The error of `New`, at the datasource whose name is quoted as `quoted`.
abbrev pub new_error : Bytes → Bytes → Bytes
new_error quoted problem = codes "ldap: datasource " ++ (quoted ++ (codes ": " ++ problem))

-- `New`, with the result of `raw.Decode`; `quote` is `%q`.
unfoldable pub new_provider :
    {Conn W : Type 0} → (Bytes → Bytes) → Bytes → Result LdapConfig → W → Result (Provider Conn W)
unfolding bytes_eq new_pool
new_provider quote name (fail e) w = fail (new_error (quote name) (codes "decoding config: " ++ e))
new_provider quote name (ok cfg) w =
    if lacks_search cfg.user_search
    then fail (new_error (quote name) (codes "user_search is required"))
    else if lacks_search cfg.group_search
    then fail (new_error (quote name) (codes "group_search is required"))
    else ok (record {
      pool = new_pool (size_or_default cfg.pool_size) w;
      user_search = cfg.user_search;
      group_search =
          if bytes_eq cfg.group_search.attribute []
          then record (cfg.group_search) { attribute = codes "cn" }
          else cfg.group_search;
    })

-- The loop of `resolveUser`.
unfoldable pub user_matches : Bytes → List Entry → List UserMatch
unfolding bytes_eq
user_matches attribute [] = []
user_matches attribute (entry ∷ entries) =
    let name = entry.value attribute in
    let rest = user_matches attribute entries in
    if bytes_eq name [] then rest else record { username = name; dn = entry.dn } ∷ rest

-- The loop of `resolveGroups`.
unfoldable pub group_names : Bytes → List Entry → List Bytes
unfolding bytes_eq
group_names attribute [] = []
group_names attribute (entry ∷ entries) =
    let v = entry.value attribute in
    let rest = group_names attribute entries in if not (bytes_eq v []) then v ∷ rest else rest

-- What `resolveUser` makes of the result; no match is `ok == false`, a search error too.
abbrev pub user_result : Bytes → List Entry × Option SearchError → List UserMatch
user_result attribute (entries, some e) = []
user_result attribute (entries, none) = user_matches attribute entries

-- What `resolveGroups` makes of the result.
abbrev pub group_result : Bytes → List Entry × Option SearchError → Result (List Bytes)
group_result attribute (entries, none) = ok (group_names attribute entries)
group_result attribute (entries, some e) =
    if not e.size_limit
    then fail (codes "ldap: group search failed: " ++ e.text)
    else ok (group_names attribute entries)

-- The loop of `Resolve` over the groups of one account.
abbrev pub add_groups : List Bytes → List Bytes → List Bytes
add_groups groups gs = append_new groups gs

-- The map that `Resolve` returns.
abbrev pub user_and_group : List Bytes → List Bytes → VarMap
user_and_group users groups = (codes "USER", users) ∷ (codes "GROUP", groups) ∷ []

module _ {Conn W : Type 0} (dir : Directory Conn W) where
  -- A search between `get` and `put`.
  unfoldable pub search_and_put :
      SearchRequest → Conn → Pool Conn W → (List Entry × Option SearchError) × Pool Conn W
  unfolding put
  search_and_put req conn p =
      let (result, w) = dir.search conn req p.world in
      (result, put dir.net conn (conn_healthy_after_error result.1) (record p { world = w }))

  abbrev pub acquired_user :
      SearchRequest → Result Conn → Pool Conn W → Result (List UserMatch) × Pool Conn W
  acquired_user req (fail e) p = (fail (codes "ldap: user search: acquiring connection: " ++ e), p)
  acquired_user req (ok conn) p =
      let (result, q) = search_and_put req conn p in (ok (user_result req.attribute result), q)

  abbrev pub user_request : SearchConfig → Bytes → SearchRequest
  user_request cfg escaped_identity = record {
    base_dn = cfg.base_dn;
    size_limit = user_search_size_limit;
    filter = replace_all cfg.filter (codes "$IDENTITY") escaped_identity;
    attribute = cfg.attribute;
  }

  -- `resolveUser`.
  unfoldable pub resolve_user :
      Pool Conn W → SearchConfig → Bytes → Result (List UserMatch) × Pool Conn W
  unfolding get
  resolve_user p cfg escaped_identity =
      let (conn, q) = get dir.net p in acquired_user (user_request cfg escaped_identity) conn q

  abbrev pub acquired_groups :
      SearchRequest → Result Conn → Pool Conn W → Result (List Bytes) × Pool Conn W
  acquired_groups req (fail e) p =
      (fail (codes "ldap: group search: acquiring connection: " ++ e), p)
  acquired_groups req (ok conn) p =
      let (result, q) = search_and_put req conn p in (group_result req.attribute result, q)

  abbrev pub group_request : SearchConfig → Bytes → SearchRequest
  group_request cfg identity_dn = record {
    base_dn = cfg.base_dn;
    size_limit = group_search_size_limit;
    filter =
        substitute_filter_token dir.escape_filter cfg.filter (codes "$IDENTITY_DN") identity_dn;
    attribute = cfg.attribute;
  }

  -- `resolveGroups`.
  unfoldable pub resolve_groups :
      Pool Conn W → SearchConfig → Bytes → Result (List Bytes) × Pool Conn W
  unfolding get
  resolve_groups p cfg identity_dn =
      let (conn, q) = get dir.net p in acquired_groups (group_request cfg identity_dn) conn q

  -- The loop of `Resolve` over the accounts.
  unfoldable pub collect_groups :
      SearchConfig → List UserMatch → List Bytes → Pool Conn W → Result (List Bytes) × Pool Conn W
  unfolding resolve_groups
  collect_groups cfg [] groups p = (ok groups, p)
  collect_groups cfg (m ∷ matches) groups p =
      let (found, q) = resolve_groups p cfg m.dn in
      elim found [
        | fail e ↦ (fail (codes "ldap: resolving groups: " ++ e), q)
        | ok gs ↦ collect_groups cfg matches (add_groups groups gs) q
      ]

  -- The end of `Resolve`, once the user search has given the accounts.
  unfoldable pub resolved_user :
      SearchConfig → Result (List UserMatch) → Pool Conn W → Result VarMap × Pool Conn W
  unfolding collect_groups
  resolved_user cfg (fail e) p = (fail (codes "ldap: resolving user: " ++ e), p)
  resolved_user cfg (ok []) p = (ok [], p)
  resolved_user cfg (ok (m ∷ matches)) p =
      let (groups, q) = collect_groups cfg (m ∷ matches) [] p in
      (groups >>= λ gs. ok (user_and_group (map (λ a. a.username) (m ∷ matches)) gs), q)

  abbrev pub escaped_identity : Vars → Bytes
  escaped_identity vars = dir.escape_filter (normalize_subject_dn (identity_of vars))

  -- `Resolve`.
  unfoldable pub resolve : Vars → Provider Conn W → Result VarMap × Provider Conn W
  unfolding resolve_user resolved_user
  resolve vars p =
      let (matches, q) = resolve_user p.pool p.user_search (escaped_identity vars) in
      let (result, q') = resolved_user p.group_search matches q in (result, record p { pool = q' })
