-- ===== src/Datasources/Ldap/Provider/Answers.antt =====
-- What the provider answers when the directory answers every search in the same way each time.
use authzmtls.Common.{
  ◌≡◌, ◌≢◌, ◌↔◌, ◌⊎◌, refl, sym, ◌∙◌, inl, inr, Bool-cases, List, [], ◌∷◌, ◌++◌, map, Option, none,
  some, Bytes, bytes_eq, append_new-Elem_iff, codes, arith, Result, Result-cases, ok, fail, ◌>>=◌,
  lookup, length, subst, ok-injective, Any, Elem,
}
use authzmtls.Datasources.Ldap.Pool.Laws.{get-Got}
use authzmtls.Datasources.Ldap.Pool.{
  Pool, SearchError, redial, usable, receive_from, receive, handed_out, get,
}
use authzmtls.Datasources.Ldap.Provider.Slots.{resolve_groups-Kept, acquired_user-Kept}
use authzmtls.Datasources.Ldap.Provider.{
  SearchConfig, SearchRequest, Entry, Directory, UserMatch, Provider, search_and_put, user_request,
  group_request, user_result, group_result, resolve_user, resolve_groups, add_groups,
  collect_groups, user_and_group, resolved_user, escaped_identity, resolve,
}
use authzmtls.Rules.Expand.{VarMap, values}
use authzmtls.Rules.Reqvars.{Vars}

nonempty : {A : Type 0} (xs ys : List A) → length ys ≡ length xs → xs ≢ [] → ys ≢ []
nonempty [] ys e n = absurd (n refl)
nonempty (x ∷ xs) [] e n = λ k. omega (arith, e)
nonempty (x ∷ xs) (y ∷ ys) e n = λ k. cc

ok-ne-fail : {A : Type 0} {a : A} {e : Bytes} → ¬ (ok a ≡ fail e)
ok-ne-fail e = cc

module _ {Conn W : Type 0} (dir : Directory Conn W) where
  -- The directory is up: dials succeed, no deadline passes, and searches give `answer`.
  pub record Serves (answer : SearchRequest → List Entry × Option SearchError) : Type 0 where
    pub in_time : (w : W) → dir.net.ctx_done w ≡ none
    pub dials : (w : W) → (c : Conn) × ((dir.net.dial w).0 ≡ ok c)
    pub answers : (c : Conn) (req : SearchRequest) (w : W) → (dir.search c req w).0 ≡ answer req

module _ {Conn W : Type 0} (dir : Directory Conn W)
    (answer : SearchRequest → List Entry × Option SearchError) (up : Serves dir answer) where
  redial-ok : (p : Pool Conn W) → (c : Conn) × ((redial dir.net p).0 ≡ ok c)
  redial-ok p = let (c, e) = up.dials p.world in (c, rw e refl)

  usable-ok :
      (slot : Option Conn) (p : Pool Conn W)
      → (c : Conn) × ((handed_out dir.net (usable dir.net slot p).0 (usable dir.net slot p).1).0
          ≡ ok c)
  usable-ok none p = redial-ok p
  usable-ok (some c) p = elim (Bool-cases (dir.net.is_closing c p.world)) [
    | inl broken ↦ rw broken (redial-ok _)
    | inr working ↦ rw working (c, refl)
  ]

  receive_from-ok :
      (p : Pool Conn W) (slots : List (Option Conn))
      → slots ≢ []
      → (c : Conn) × ((handed_out dir.net
            (receive_from dir.net slots p).0
            (receive_from dir.net slots p).1).0
          ≡ ok c)
  unfolding receive_from
  receive_from-ok p [] n = absurd (n refl)
  receive_from-ok p (slot ∷ rest) n = rw (up.in_time p.world, receive_from) (usable-ok slot _)

  -- A free slot gives a connection.
  get-ok : (p : Pool Conn W) → p.slots ≢ [] → (c : Conn) × ((get dir.net p).0 ≡ ok c)
  unfolding get receive
  get-ok p n = receive_from-ok p p.slots n

  resolve_user-result :
      (p : Pool Conn W) (cfg : SearchConfig) (identity : Bytes)
      → p.slots ≢ []
      → (resolve_user dir p cfg identity).0
        ≡ ok (user_result cfg.attribute (answer (user_request dir cfg identity)))
  unfolding resolve_user search_and_put
  resolve_user-result p cfg identity n =
      let (c, e) = get-ok p n in rw (e, up.answers c (user_request dir cfg identity) _) refl

  -- What the group search of an account gives.
  abbrev pub groups_of : SearchConfig → UserMatch → Result (List Bytes)
  groups_of cfg m = group_result cfg.attribute (answer (group_request dir cfg m.dn))

  resolve_groups-result :
      (p : Pool Conn W) (cfg : SearchConfig) (m : UserMatch)
      → p.slots ≢ []
      → (resolve_groups dir p cfg m.dn).0 ≡ groups_of cfg m
  unfolding resolve_groups search_and_put
  resolve_groups-result p cfg m n =
      let (c, e) = get-ok p n in rw (e, up.answers c (group_request dir cfg m.dn) _) refl

  -- The group search of the account fails, by an error other than the size limit's.
  abbrev pub Refused : SearchConfig → UserMatch → Type 0
  Refused cfg m = (e : Bytes) × (groups_of cfg m ≡ fail e)

  -- The group search of the account finds the group.
  abbrev pub InGroup : SearchConfig → Bytes → UserMatch → Type 0
  InGroup cfg g m = (gs : List Bytes) × (groups_of cfg m ≡ ok gs) × Elem g gs

  abbrev Collected : SearchConfig → List UserMatch → List Bytes → Result (List Bytes) → Type 0
  Collected cfg matches groups result =
      ((e : Bytes) × (result ≡ fail e) × Any (Refused cfg) matches)
      ⊎ ((gs : List Bytes) × (result ≡ ok gs)
          × (¬ Any (Refused cfg) matches)
          × ((g : Bytes) → Elem g gs ↔ (Any (InGroup cfg g) matches ⊎ Elem g groups)))

  Collected-refused :
      (cfg : SearchConfig) (m : UserMatch) (matches : List UserMatch) (groups : List Bytes)
      (e : Bytes)
      → groups_of cfg m ≡ fail e
      → Collected cfg (m ∷ matches) groups (fail (codes "ldap: resolving groups: " ++ e))
  Collected-refused cfg m matches groups e h =
      inl (codes "ldap: resolving groups: " ++ e, refl, inl (e, h))

  Collected-cons :
      (cfg : SearchConfig) (m : UserMatch) (matches : List UserMatch) (groups gs : List Bytes)
      (result : Result (List Bytes))
      → groups_of cfg m ≡ ok gs
      → Collected cfg matches (add_groups groups gs) result
      → Collected cfg (m ∷ matches) groups result
  Collected-cons cfg m matches groups gs result found (inl (e, failed, k)) = inl (e, failed, inr k)
  Collected-cons cfg m matches groups gs result found (inr (all_gs, done, accepted, same)) =
      let only : (g : Bytes) → InGroup cfg g m → Elem g gs =
        λ g k. subst (Elem g) (ok-injective k.0 gs (sym k.1 ∙ found)) k.2 in
      let none_refused : ¬ Any (Refused cfg) (m ∷ matches) = λ k. elim k [
        | inl (e, failed) ↦ ok-ne-fail (sym found ∙ failed)
        | inr later ↦ accepted later
      ] in
      let here : (g : Bytes) → Elem g gs → InGroup cfg g m = λ g k. (gs, found, k) in
      inr (
        all_gs,
        done,
        none_refused,
        λ g. ground (arith, same g, append_new-Elem_iff g groups gs, only g, here g),
      )

  collect_groups-Collected :
      (cfg : SearchConfig) (matches : List UserMatch) (groups : List Bytes) (p : Pool Conn W)
      → p.slots ≢ []
      → Collected cfg matches groups (collect_groups dir cfg matches groups p).0
  unfolding collect_groups
  collect_groups-Collected cfg [] groups p n = inr (groups, refl, λ k. k, λ g. ground arith)
  collect_groups-Collected cfg (m ∷ matches) groups p n =
      let q = (resolve_groups dir p cfg m.dn).1 in
      let this = resolve_groups-result p cfg m n in
      elim (Result-cases (groups_of cfg m)) [
        | inr (e, failed) ↦
            rw (this ∙ failed, collect_groups) (Collected-refused cfg m matches groups e failed)
        | inl (gs, found) ↦
            rw (this ∙ found, collect_groups)
              (Collected-cons cfg m matches groups gs _ found (
                collect_groups-Collected cfg matches (add_groups groups gs) q
                  (nonempty p.slots q.slots (resolve_groups-Kept dir p cfg m.dn).slots n)))
      ]

  -- The accounts that the user search finds for a caller; none if it ends in an error.
  abbrev pub accounts : Vars → Provider Conn W → List UserMatch
  accounts vars p =
      user_result p.user_search.attribute
        (answer (user_request dir p.user_search (escaped_identity dir vars)))

  -- The map has the names of the accounts, and exactly their groups.
  abbrev pub Describes : SearchConfig → List UserMatch → VarMap → Type 0
  Describes cfg found vars =
      (values (codes "USER") vars ≡ map (λ m. m.username) found)
      × ((g : Bytes) → Elem g (values (codes "GROUP") vars) ↔ Any (InGroup cfg g) found)

  -- Either some account's group search is refused, and there is an error, or there is a map.
  abbrev pub Answered : SearchConfig → List UserMatch → Result VarMap → Type 0
  Answered cfg found result =
      ((e : Bytes) × (result ≡ fail e) × Any (Refused cfg) found)
      ⊎ ((vars : VarMap) × (result ≡ ok vars)
          × (¬ Any (Refused cfg) found)
          × Describes cfg found vars)

  group_values :
      (users groups : List Bytes)
      → (values (codes "USER") ((codes "USER", users) ∷ (codes "GROUP", groups) ∷ []) ≡ users)
        × (values (codes "GROUP") ((codes "USER", users) ∷ (codes "GROUP", groups) ∷ []) ≡ groups)
  unfolding lookup bytes_eq
  group_values users groups = (refl, refl)

  Answered-of_Collected :
      (cfg : SearchConfig) (found : List UserMatch) (result : Result (List Bytes))
      → Collected cfg found [] result
      → Answered cfg found (result >>= λ gs. ok (user_and_group (map (λ m. m.username) found) gs))
  Answered-of_Collected cfg found result (inl (e, failed, refused)) =
      rw failed (inl (e, refl, refused))
  Answered-of_Collected cfg found result (inr (gs, done, accepted, same)) =
      let (users, groups) = group_values (map (λ m. m.username) found) gs in
      rw done (inr (_, refl, accepted, (users, λ g. rw groups (ground (arith, same g)))))

  resolved_user-Answered :
      (cfg : SearchConfig) (found : List UserMatch) (p : Pool Conn W)
      → p.slots ≢ []
      → Answered cfg found (resolved_user dir cfg (ok found) p).0
  unfolding resolved_user lookup
  resolved_user-Answered cfg [] p n = inr ([], refl, λ k. k, (refl, λ g. ground arith))
  resolved_user-Answered cfg (m ∷ found) p n =
      Answered-of_Collected cfg (m ∷ found) _ (collect_groups-Collected cfg (m ∷ found) [] p n)

  -- With a free slot and a directory that is up, a call ends in an error exactly if some account's
  -- group search is refused for another reason than the size limit; else $USER has the name of every
  -- account that the user search finds, and $GROUP exactly the groups of these accounts.
  pub resolve-Answered :
      (vars : Vars) (p : Provider Conn W)
      → p.pool.slots ≢ []
      → Answered p.group_search (accounts vars p) (resolve dir vars p).0
  unfolding resolve resolve_user
  resolve-Answered vars p n =
      let q = (resolve_user dir p.pool p.user_search (escaped_identity dir vars)).1 in
      let kept =
        acquired_user-Kept dir (user_request dir p.user_search (escaped_identity dir vars)) _ p.pool
          _ (get-Got dir.net p.pool) in
      rw (resolve_user-result p.pool p.user_search (escaped_identity dir vars) n) (
        resolved_user-Answered p.group_search (accounts vars p) q
          (nonempty p.pool.slots q.slots kept.slots n))
