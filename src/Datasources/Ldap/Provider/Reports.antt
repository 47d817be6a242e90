-- ===== src/Datasources/Ldap/Provider/Reports.antt =====
-- What the provider answers, told by the directory's entries.
use authzmtls.Common.{
  ◌≡◌, ◌≢◌, ◌↔◌, ◌⊎◌, refl, sym, ◌∙◌, subst, inl, inr, false, List, [], Option, none, some, Bytes,
  codes, Result, ok, fail, Any, Elem, Elem-map, Elem-of_map,
}
use authzmtls.Datasources.Ldap.Pool.{SearchError}
use authzmtls.Datasources.Ldap.Provider.Answers.{
  Serves, Refused, InGroup, accounts, Answered, resolve-Answered,
}
use authzmtls.Datasources.Ldap.Provider.Entries.{
  Any-some, Any-of_Elem, group_result-fail, group_result-denied, group_result-names,
  group_result-accepted, user_result-Elem, Elem-user_result, group_names-Elem, Elem-group_names,
  HasValue,
}
use authzmtls.Datasources.Ldap.Provider.{
  SearchConfig, SearchRequest, Entry, Directory, UserMatch, Provider, user_request, group_request,
  group_names, escaped_identity, resolve,
}
use authzmtls.Rules.Expand.{VarMap, values}
use authzmtls.Rules.Reqvars.{Vars}

module _ {Conn W : Type 0} (dir : Directory Conn W)
    (answer : SearchRequest → List Entry × Option SearchError) (up : Serves dir answer) where
  -- The user search ends without an error, and has an entry with this name and DN; the name is not
  -- empty.
  pub record Account (vars : Vars) (p : Provider Conn W) (name dn : Bytes) : Type 0 where
    pub entry : Entry
    pub complete : (answer (user_request dir p.user_search (escaped_identity dir vars))).1 ≡ none
    pub listed : Elem entry (answer (user_request dir p.user_search (escaped_identity dir vars))).0
    pub has_name : HasValue p.user_search.attribute name entry
    pub has_dn : entry.dn ≡ dn

  -- The group search for the DN ends in an error other than the size limit's.
  abbrev pub Denied : SearchConfig → Bytes → Type 0
  Denied cfg dn =
      (e : SearchError) × ((answer (group_request dir cfg dn)).1 ≡ some e) × (e.size_limit ≡ false)

  -- The group search for the DN has an entry with this group, also if it ends in an error.
  abbrev pub Member : SearchConfig → Bytes → Bytes → Type 0
  Member cfg g dn =
      (entry : Entry) × Elem entry (answer (group_request dir cfg dn)).0
      × HasValue cfg.attribute g entry

  abbrev pub DeniedAccount : Vars → Provider Conn W → Type 0
  DeniedAccount vars p =
      (name : Bytes) × (dn : Bytes) × Account vars p name dn × Denied p.group_search dn

  -- What a call gives: an error if an account's group search is denied, and else the names of the
  -- accounts and their groups.
  abbrev pub Reports : Vars → Provider Conn W → Result VarMap → Type 0
  Reports vars p result =
      ((e : Bytes) × (result ≡ fail e) × DeniedAccount vars p)
      ⊎ ((found : VarMap) × (result ≡ ok found)
          × (¬ DeniedAccount vars p)
          × ((name : Bytes)
              → Elem name (values (codes "USER") found) ↔ ((dn : Bytes) × Account vars p name dn))
          × ((g : Bytes)
              → Elem g (values (codes "GROUP") found) ↔ (
                  (name : Bytes) × (dn : Bytes) × Account vars p name dn
                  × Member p.group_search g dn)))

  Elem-accounts :
      (vars : Vars) (p : Provider Conn W) (m : UserMatch)
      → Elem m (accounts dir answer up vars p)
      → Account vars p m.username m.dn
  Elem-accounts vars p m h =
      let (complete, (entry, listed, has_name, has_dn)) =
        Elem-user_result p.user_search.attribute
          (answer (user_request dir p.user_search (escaped_identity dir vars))) m h in
      record {
        entry = entry;
        complete = complete;
        listed = listed;
        has_name = has_name;
        has_dn = has_dn;
      }

  accounts-Elem :
      (vars : Vars) (p : Provider Conn W) (name dn : Bytes)
      → Account vars p name dn
      → Elem (record { username = name; dn = dn }) (accounts dir answer up vars p)
  accounts-Elem vars p name dn a =
      let (named, n) = a.has_name in
      let m : UserMatch = record {
        username = a.entry.value p.user_search.attribute;
        dn = a.entry.dn;
      } in
      let same : m ≡ record { username = name; dn = dn } = rw (named, a.has_dn) refl in
      subst (λ x. Elem x (accounts dir answer up vars p)) same
        (user_result-Elem p.user_search.attribute
          (answer (user_request dir p.user_search (escaped_identity dir vars))) a.entry a.complete
          a.listed (λ e. n (sym named ∙ e)))

  Any-Account :
      (vars : Vars) (p : Provider Conn W) {P : UserMatch → Type 0} {Q : Bytes → Type 0}
      → ((m : UserMatch) → P m → Q m.dn)
      → Any P (accounts dir answer up vars p)
      → (name : Bytes) × (dn : Bytes) × Account vars p name dn × Q dn
  Any-Account vars p f h =
      let (m, k, holds) = Any-some (accounts dir answer up vars p) h in
      (m.username, m.dn, Elem-accounts vars p m k, f m holds)

  Account-Any :
      (vars : Vars) (p : Provider Conn W) (P : UserMatch → Type 0) {name dn : Bytes}
      → Account vars p name dn
      → P (record { username = name; dn = dn })
      → Any P (accounts dir answer up vars p)
  Account-Any vars p P {name} {dn} a h =
      Any-of_Elem P _ (accounts dir answer up vars p) (accounts-Elem vars p name dn a) h

  Refused-Denied :
      (cfg : SearchConfig) (m : UserMatch) → Refused dir answer up cfg m → Denied cfg m.dn
  Refused-Denied cfg m (text, h) =
      group_result-fail cfg.attribute (answer (group_request dir cfg m.dn)) text h

  InGroup-Member :
      (cfg : SearchConfig) (g : Bytes) (m : UserMatch)
      → InGroup dir answer up cfg g m
      → Member cfg g m.dn
  InGroup-Member cfg g m (gs, found, k) =
      let names = group_result-names cfg.attribute (answer (group_request dir cfg m.dn)) gs found in
      Elem-group_names cfg.attribute g (answer (group_request dir cfg m.dn)).0
        (subst (Elem g) (sym names) k)

  Member-InGroup :
      (cfg : SearchConfig) (g : Bytes) (m : UserMatch)
      → ¬ Denied cfg m.dn
      → Member cfg g m.dn
      → InGroup dir answer up cfg g m
  Member-InGroup cfg g m n (entry, k, (is_g, real)) =
      let x = answer (group_request dir cfg m.dn) in
      (
        group_names cfg.attribute x.0,
        group_result-accepted cfg.attribute x n,
        subst (λ v. Elem v (group_names cfg.attribute x.0)) is_g
            (group_names-Elem cfg.attribute entry x.0 k (λ e. real (sym is_g ∙ e))),
      )

  Answered-Reports :
      (vars : Vars) (p : Provider Conn W) (result : Result VarMap)
      → Answered dir answer up p.group_search (accounts dir answer up vars p) result
      → Reports vars p result
  Answered-Reports vars p result (inl (e, failed, refused)) =
      inl (e, failed, Any-Account vars p (Refused-Denied p.group_search) refused)
  Answered-Reports vars p result (inr (found, done, accepted, (users, groups))) =
      let none_denied : ¬ DeniedAccount vars p = λ d.
        let (name, dn, a, denied) = d in
        let (e, h, k) = denied in
        accepted (
          Account-Any vars p (Refused dir answer up p.group_search) a (
            group_result-denied p.group_search.attribute
              (answer (group_request dir p.group_search dn)) e h k)) in
      inr (
        found,
        done,
        none_denied,
        (λ name. (
          λ h.
              let (m, k, same) =
                Elem-of_map (λ m. m.username) (accounts dir answer up vars p)
                  (subst (Elem name) users h) in
              (m.dn, subst (λ v. Account vars p v m.dn) (sym same) (Elem-accounts vars p m k)),
          λ h.
              let (dn, a) = h in
              subst (Elem name) (sym users) (
                Elem-map (λ m. m.username) (record { username = name; dn = dn })
                  (accounts dir answer up vars p) (accounts-Elem vars p name dn a)),
        )),
        λ g. (
          λ h. Any-Account vars p (InGroup-Member p.group_search g) ((groups g).0 h),
          λ h.
              let (name, dn, a, member) = h in
              (groups g).1 (
                Account-Any vars p (InGroup dir answer up p.group_search g) a (
                  Member-InGroup p.group_search g (record { username = name; dn = dn })
                    (λ d. none_denied (name, dn, a, d)) member)),
        ),
      )

  -- With a free slot and a directory that is up, a call ends in an error exactly if the group search
  -- of some account ends in an error other than that of the size limit. Else $USER has exactly the
  -- names of the accounts, and $GROUP exactly the groups that the group searches of the accounts
  -- list, also where the size limit has cut a result short. An account is an entry with a name that
  -- is not empty, of a user search that ends without an error; empty group names are left out.
  pub resolve-Reports :
      (vars : Vars) (p : Provider Conn W)
      → p.pool.slots ≢ []
      → Reports vars p (resolve dir vars p).0
  resolve-Reports vars p n =
      Answered-Reports vars p (resolve dir vars p).0 (resolve-Answered dir answer up vars p n)
