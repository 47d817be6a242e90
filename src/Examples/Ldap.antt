-- ===== src/Examples/Ldap.antt =====
-- A directory, its pool of connections, and the cache in front of it.
use authzmtls.Common.{
  ℕ, suc, ◌≤◌, ◌<◌, ℤ, pos, ◌+◌, ◌≡◌, ◌≢◌, refl, true, false, List, [], ◌∷◌, Option, none, some,
  Bytes, codes, ◌==◌, length, arith, bytes_eq, lookup, Result, ok, if◌then◌else◌,
}
use authzmtls.Datasources.Cache.Laws.{Remembers, value_entry}
use authzmtls.Datasources.Cache.{CacheEntry, Cached, refresh}
use authzmtls.Datasources.Ldap.Dial.{Dialer, Counted, dial_and_bind, production}
use authzmtls.Datasources.Ldap.Pool.Leaks.{Trace, Trace-opened}
use authzmtls.Datasources.Ldap.Outage.{ldap_backend, refresh-search_failed}
use authzmtls.Datasources.Ldap.Pool.Steps.{
  Shared, idle, Reach, opened, next, begins, dials, Reach-bounds,
}
use authzmtls.Datasources.Ldap.Pool.{Network, Pool, SearchError, new_pool, redial, receive, get}
use authzmtls.Datasources.Ldap.Provider.Answers.{Serves}
use authzmtls.Datasources.Ldap.Provider.Reports.{Reports, resolve-Reports}
use authzmtls.Datasources.Ldap.Provider.Filters.{requests-structure}
use authzmtls.Datasources.Ldap.Provider.Slots.{Kept, resolve-Kept}
use authzmtls.Datasources.Ldap.Provider.{
  SearchRequest, Entry, Directory, Provider, user_request, group_request, escaped_identity, resolve,
}
use authzmtls.Examples.Sources.{unbounded, unbounded-IsLru, directory_values, jdoe}
use authzmtls.GoStd.Replace.Structure.{structure}
use authzmtls.Rules.Expand.{VarMap}

-- Connections are numbered; every dial succeeds.
abbrev network : Network ℕ ℕ
network = record {
  dial = λ w. (ok w, suc w);
  is_closing = λ c w. false;
  close = λ c w. w;
  ctx_done = λ w. none;
  ctx_err = λ w. codes "deadline exceeded";
}

abbrev two : Pool ℕ ℕ
two = new_pool 2 0

-- Both slots are received, and the first call has dialled.
abbrev both_out : Pool ℕ ℕ
both_out = (receive network (receive network two).1).1

abbrev busy_pool : Shared ℕ ℕ
busy_pool = record { pool = (redial network both_out).1; held = 0 ∷ []; dialling = 1 }

busy_pool-Reach : Reach network 2 busy_pool
unfolding receive new_pool
busy_pool-Reach = next (next (next (opened 0) (begins refl)) (begins refl)) (dials refl refl)

Reach-bounds_example :
    (idle busy_pool.pool.slots + length busy_pool.held + busy_pool.dialling ≤ 2)
    × (0 < length busy_pool.held + busy_pool.dialling
        → length busy_pool.pool.slots < busy_pool.pool.capacity)
    × (busy_pool.pool.slots ≡ [] → length busy_pool.held + busy_pool.dialling ≡ 2)
Reach-bounds_example = Reach-bounds network busy_pool-Reach

-- As go-ldap escapes, for the bytes below 128.
escape : Bytes → Bytes
escape [] = []
escape (b ∷ s) =
    let rest = escape s in
    if b == b'('
    then 92 ∷ b'2' ∷ b'8' ∷ rest
    else if b == b')'
    then 92 ∷ b'2' ∷ b'9' ∷ rest
    else if b == b'*'
    then 92 ∷ b'2' ∷ b'a' ∷ rest
    else if b == 0
    then 92 ∷ b'0' ∷ b'0' ∷ rest
    else if b == 92
    then 92 ∷ b'5' ∷ b'c' ∷ rest
    else b ∷ rest

structure-escape : (v : Bytes) → structure (escape v) ≡ []
unfolding escape
structure-escape [] = refl
structure-escape (b ∷ s) = ground (arith, structure-escape s)

abbrev account : Entry
account = record { dn = codes "CN=jdoe,DC=org"; value = λ a. codes "jdoe" }

abbrev group : Entry
group = record { dn = codes "CN=dev,DC=org"; value = λ a. codes "dev" }

-- One account, in one group.
abbrev found : SearchRequest → List Entry × Option SearchError
found req = ((if req.size_limit == 200 then account ∷ [] else group ∷ []), none)

abbrev healthy : Directory ℕ ℕ
healthy = record { net = network; search = λ c req w. (found req, w); escape_filter = escape }

abbrev provider : Provider ℕ ℕ
provider = record {
  pool = two;
  user_search = record {
    base_dn = codes "DC=org";
    filter = codes "(altSecurityIdentities=X509:$IDENTITY)";
    attribute = codes "sAMAccountName";
  };
  group_search = record {
    base_dn = codes "DC=org";
    filter = codes "(member=$IDENTITY_DN)";
    attribute = codes "cn";
  };
}

resolve-Kept_example : Kept provider.pool (resolve healthy jdoe provider).1.pool
resolve-Kept_example = resolve-Kept healthy jdoe provider

healthy-Serves : Serves healthy found
healthy-Serves = record { in_time = λ w. refl; dials = λ w. (w, refl); answers = λ c req w. refl }

two-free : provider.pool.slots ≢ []
unfolding new_pool
two-free = λ e. cc

resolve-Reports_example :
    Reports healthy found healthy-Serves jdoe provider (resolve healthy jdoe provider).0
resolve-Reports_example = resolve-Reports healthy found healthy-Serves jdoe provider two-free

requests-structure_example :
    (structure (user_request healthy provider.user_search (escaped_identity healthy jdoe)).filter
      ≡ structure provider.user_search.filter)
    × (structure (group_request healthy provider.group_search (codes "CN=*)(cn=*")).filter
        ≡ structure provider.group_search.filter)
requests-structure_example =
    requests-structure healthy structure-escape provider.user_search provider.group_search jdoe
      (codes "CN=*)(cn=*")

abbrev busy : SearchError
busy = record { text = codes "busy"; responded = true; size_limit = false }

-- Every search fails.
abbrev failing : Directory ℕ ℕ
failing = record { net = network; search = λ c req w. (([], some busy), w); escape_filter = escape }

abbrev clock : Provider ℕ ℕ → ℤ × Provider ℕ ℕ
clock p = (pos 100, p)

abbrev remembered : Cached (List (Bytes × CacheEntry)) (Provider ℕ ℕ)
remembered = record {
  cache = (codes "CN=jdoe", value_entry directory_values (pos 0)) ∷ [];
  world = provider;
  hits = 0;
  misses = 0;
  warnings = [];
}

jdoe-remembered : Remembers unbounded (codes "CN=jdoe") directory_values (pos 0) remembered
unfolding lookup bytes_eq
jdoe-remembered = refl

first_connection : (get network two).0 ≡ ok 0
unfolding get new_pool
first_connection = refl

abbrev after_refresh : Result VarMap × Cached (List (Bytes × CacheEntry)) (Provider ℕ ℕ)
after_refresh =
    refresh unbounded (ldap_backend unbounded unbounded-IsLru failing clock (pos 5) (pos 30))
      (pos 5) (pos 30) (codes "CN=jdoe") jdoe remembered

refresh-search_failed_example :
    (after_refresh.0 ≡ ok [])
    × Remembers unbounded
        (codes "CN=jdoe")
        []
        (clock (resolve failing jdoe provider).1).0
        after_refresh.1
refresh-search_failed_example =
    refresh-search_failed unbounded unbounded-IsLru failing clock (pos 5) (pos 30) (codes "CN=jdoe")
      jdoe remembered directory_values (pos 0) 0 busy jdoe-remembered first_connection refl

-- The first connection cannot be bound.
abbrev dialer : Dialer ℕ ℕ
dialer = record {
  default_timeout = pos 60;
  remaining = λ w. none;
  dial_url = λ timeout w. (ok w, suc w);
  bind = λ c w. (if c == 0 then some (codes "invalid credentials") else none, w);
  is_closing = λ c w. false;
  close = λ c w. w;
  ctx_done = λ w. none;
  ctx_err = λ w. codes "deadline exceeded";
}

abbrev at_first : Pool ℕ (Counted ℕ)
at_first = new_pool 2 (record { inner = 0; opened = 0; closed = 0 })

abbrev received_once : Pool ℕ (Counted ℕ)
received_once = (receive (production dialer) at_first).1

abbrev failed_once : Pool ℕ (Counted ℕ)
failed_once = (redial (production dialer) received_once).1

abbrev bound_late : Shared ℕ (Counted ℕ)
bound_late =
    let again = (receive (production dialer) failed_once).1 in
    record { pool = (redial (production dialer) again).1; held = 1 ∷ []; dialling = 0 }

bound_late-Trace : Trace dialer 2 bound_late
unfolding receive new_pool dial_and_bind
bound_late-Trace =
    let failed = Trace.dials_in_vain (Trace.begins (Trace.fresh 0) refl) refl refl in
    Trace.dials (Trace.begins failed refl) refl refl

two_opened : (bound_late.pool.world.opened ≡ 2) × (bound_late.pool.world.closed ≡ 1)
unfolding receive new_pool dial_and_bind
two_opened = (refl, refl)

Trace-opened_example :
    (bound_late.pool.world.opened
      ≡ bound_late.pool.world.closed + idle bound_late.pool.slots + length bound_late.held)
    × (bound_late.pool.world.opened ≤ bound_late.pool.world.closed + 2)
Trace-opened_example = Trace-opened dialer bound_late-Trace
