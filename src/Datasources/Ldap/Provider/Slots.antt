-- ===== src/Datasources/Ldap/Provider/Slots.antt =====
-- The slots of the pool over a call of the provider.
use authzmtls.Common.{
  ◌≡◌, refl, ◌∙◌, inl, inr, List, [], ◌∷◌, Bytes, Result, Result-cases, ok, fail, length,
}
use authzmtls.Datasources.Ldap.Pool.Laws.{Got, get-Got, put-slots, put-capacity}
use authzmtls.Datasources.Ldap.Pool.{Pool, conn_healthy_after_error}
use authzmtls.Datasources.Ldap.Provider.{
  SearchConfig, SearchRequest, Directory, UserMatch, Provider, search_and_put, acquired_user,
  acquired_groups, user_request, group_request, resolve_user, resolve_groups, add_groups,
  collect_groups, resolved_user, escaped_identity, resolve,
}
use authzmtls.Rules.Reqvars.{Vars}

-- As many slots as before, in the same channel.
pub record Kept {Conn W : Type 0} (p q : Pool Conn W) : Type 0 where
  pub slots : length q.slots ≡ length p.slots
  pub capacity : q.capacity ≡ p.capacity

Kept-refl : {Conn W : Type 0} (p : Pool Conn W) → Kept p p
Kept-refl p = record { slots = refl; capacity = refl }

Kept-trans : {Conn W : Type 0} {p q r : Pool Conn W} → Kept p q → Kept q r → Kept p r
Kept-trans h k = record { slots = k.slots ∙ h.slots; capacity = k.capacity ∙ h.capacity }

module _ {Conn W : Type 0} (dir : Directory Conn W) where
  search_and_put-Kept :
      (req : SearchRequest) (c : Conn) (p q : Pool Conn W)
      → Got p (ok c) q
      → Kept p (search_and_put dir req c q).1
  unfolding search_and_put
  search_and_put-Kept req c p q got =
      let healthy = conn_healthy_after_error (dir.search c req q.world).0.1 in
      let searched : Pool Conn W = record q { world = (dir.search c req q.world).1 } in
      record {
        slots = put-slots dir.net c healthy searched ∙ got.counted;
        capacity = put-capacity dir.net c healthy searched ∙ got.same_capacity;
      }

  pub acquired_user-Kept :
      (req : SearchRequest) (conn : Result Conn) (p q : Pool Conn W)
      → Got p conn q
      → Kept p (acquired_user dir req conn q).1
  acquired_user-Kept req (ok c) p q got = search_and_put-Kept req c p q got
  acquired_user-Kept req (fail e) p q got = record {
    slots = got.counted;
    capacity = got.same_capacity;
  }

  acquired_groups-Kept :
      (req : SearchRequest) (conn : Result Conn) (p q : Pool Conn W)
      → Got p conn q
      → Kept p (acquired_groups dir req conn q).1
  acquired_groups-Kept req (ok c) p q got = search_and_put-Kept req c p q got
  acquired_groups-Kept req (fail e) p q got = record {
    slots = got.counted;
    capacity = got.same_capacity;
  }

  pub resolve_groups-Kept :
      (p : Pool Conn W) (cfg : SearchConfig) (dn : Bytes) → Kept p (resolve_groups dir p cfg dn).1
  unfolding resolve_groups
  resolve_groups-Kept p cfg dn =
      acquired_groups-Kept (group_request dir cfg dn) _ p _ (get-Got dir.net p)

  collect_groups-Kept :
      (cfg : SearchConfig) (matches : List UserMatch) (groups : List Bytes) (p : Pool Conn W)
      → Kept p (collect_groups dir cfg matches groups p).1
  unfolding collect_groups
  collect_groups-Kept cfg [] groups p = Kept-refl p
  collect_groups-Kept cfg (m ∷ matches) groups p =
      let here = resolve_groups-Kept p cfg m.dn in
      let q = (resolve_groups dir p cfg m.dn).1 in
      elim (Result-cases (resolve_groups dir p cfg m.dn).0) [
        | inr (e, failed) ↦ rw (failed, collect_groups) here
        | inl (gs, found) ↦
            rw (found, collect_groups)
              (Kept-trans here (collect_groups-Kept cfg matches (add_groups groups gs) q))
      ]

  resolved_user-Kept :
      (cfg : SearchConfig) (matches : Result (List UserMatch)) (p : Pool Conn W)
      → Kept p (resolved_user dir cfg matches p).1
  unfolding resolved_user
  resolved_user-Kept cfg (fail e) p = Kept-refl p
  resolved_user-Kept cfg (ok []) p = Kept-refl p
  resolved_user-Kept cfg (ok (m ∷ matches)) p = collect_groups-Kept cfg (m ∷ matches) [] p

  -- Whatever the directory answers, whether searches and dials succeed or fail, a call leaves the pool
  -- with as many slots as it had: no connection is lost on any branch.
  pub resolve-Kept : (vars : Vars) (p : Provider Conn W) → Kept p.pool (resolve dir vars p).1.pool
  unfolding resolve resolve_user
  resolve-Kept vars p =
      let req = user_request dir p.user_search (escaped_identity dir vars) in
      Kept-trans (acquired_user-Kept req _ p.pool _ (get-Got dir.net p.pool))
        (resolved_user-Kept p.group_search _ _)
