-- ===== src/Config/Validate/Laws.antt =====
-- What a valid configuration is, and how `Validate` tells.
use authzmtls.Common.{
  ◌≡◌, ◌≢◌, ◌↔◌, ◌⊎◌, refl, sym, ap, ◌∙◌, inl, inr, Bool-cases, true, not, List, [], ◌∷◌, ◌++◌, map,
  Option, none, Bytes, codes, bytes_eq_iff, All, Distinct, arith, Result-cases, ok-injective, ok,
}
use authzmtls.Config.Validate.Entries.{
  append-eq-nil, append-eq-nil₃, stat_issue-eq-nil, IsNamed, Unseen, datasource_issues-eq-nil,
}
use authzmtls.Config.Validate.{
  is_empty, stat_issue, issue_if, validate_server_tls, check_issue, check_issues, issues, validate,
}
use authzmtls.Config.{
  Config, ServerConfig, ChecksConfig, DatasourceConfig, CheckSetting, check_allow, check_deny,
  check_valid,
}
use authzmtls.GoStd.Fmt.{Fmt}
use authzmtls.Logging.{Level, parse_level, valid_level_name}

issues-cases : (is : List Bytes) → (is ≡ []) ⊎ ((i : Bytes) × (rest : List Bytes) × (is ≡ i ∷ rest))
issues-cases [] = inl refl
issues-cases (i ∷ rest) = inr (i, rest, refl)

cons-ne-nil : {i : Bytes} {is : List Bytes} → ¬ (i ∷ is ≡ [])
cons-ne-nil e = cc

abbrev pub IsCheck : CheckSetting → Type 0
IsCheck c = (c ≡ check_allow) ⊎ (c ≡ check_deny)

check_valid_iff : (c : CheckSetting) → (check_valid c ≡ true) ↔ IsCheck c
unfolding check_valid
check_valid_iff c = ground (arith, bytes_eq_iff c check_allow, bytes_eq_iff c check_deny)

-- Both files of the pair are named and can be read, or neither is named.
abbrev pub IsTls : (Bytes → Option Bytes) → ServerConfig → Type 0
IsTls stat server =
    ((server.server_cert ≡ []) × (server.server_key ≡ []))
    ⊎ ((server.server_cert ≢ [])
        × (server.server_key ≢ [])
        × (stat server.server_cert ≡ none)
        × (stat server.server_key ≡ none))

-- What a valid configuration is, independently of the order of the checks and of their texts.
pub record IsValid {Node : Type 0} (fmt : Fmt) (stat : Bytes → Option Bytes) (cfg : Config Node)
    : Type 0 where
  pub level : (l : Level) × (parse_level fmt cfg.logging_level ≡ ok l)
  pub tls : IsTls stat cfg.server
  pub allowlist : cfg.allowlist ≢ []
  pub named : All IsNamed cfg.datasources
  pub distinct : Distinct (map (λ d. d.name) cfg.datasources)
  pub host_network : IsCheck cfg.checks.host_network
  pub privileged : IsCheck cfg.checks.privileged
  pub docker_cp : IsCheck cfg.checks.docker_cp
  pub docker_exec : IsCheck cfg.checks.docker_exec

module _ (fmt : Fmt) (stat : Bytes → Option Bytes) where
  level_iff :
      (name : Bytes)
      → (valid_level_name fmt name ≡ true) ↔ ((l : Level) × (parse_level fmt name ≡ ok l))
  unfolding valid_level_name
  level_iff name = elim (Result-cases (parse_level fmt name)) [
    | inl (l, e) ↦ rw (e, valid_level_name) (λ h. (l, refl), λ h. refl)
    | inr (m, e) ↦ rw (e, valid_level_name) (λ h. cc, λ h. cc)
  ]

  server_issues_iff :
      (server : ServerConfig) → (validate_server_tls fmt stat server ≡ []) ↔ IsTls stat server
  unfolding validate_server_tls
  server_issues_iff server = ground (
    arith,
    bytes_eq_iff server.server_cert [],
    bytes_eq_iff server.server_key [],
    append-eq-nil (stat_issue (codes "server.server_cert") (stat server.server_cert))
        (stat_issue (codes "server.server_key") (stat server.server_key)),
    stat_issue-eq-nil (codes "server.server_cert") (stat server.server_cert),
    stat_issue-eq-nil (codes "server.server_key") (stat server.server_key),
  )

  Unseen-nil : {Node : Type 0} (ds : List (DatasourceConfig Node)) → Unseen fmt stat [] ds
  Unseen-nil [] = tt
  Unseen-nil (d ∷ ds) = (λ m. m, Unseen-nil ds)

  check_issue-eq-nil :
      (field : Bytes) (c : CheckSetting) → (check_issue fmt stat field c ≡ []) ↔ IsCheck c
  check_issue-eq-nil field c = ground (arith, check_valid_iff c)

  allowlist-eq-nil :
      (xs : List Bytes) (text : Bytes) → (issue_if (is_empty xs) text ≡ []) ↔ (xs ≢ [])
  allowlist-eq-nil [] text = ground arith
  allowlist-eq-nil (x ∷ xs) text = ground arith

  check_issues-eq-nil :
      (c : ChecksConfig)
      → (check_issues fmt stat c ≡ []) ↔ (
          IsCheck c.host_network
          × IsCheck c.privileged
          × IsCheck c.docker_cp
          × IsCheck c.docker_exec)
  check_issues-eq-nil c =
      let a = check_issue fmt stat (codes "checks.host_network") c.host_network in
      let b = check_issue fmt stat (codes "checks.privileged") c.privileged in
      let d = check_issue fmt stat (codes "checks.docker_cp") c.docker_cp in
      let e = check_issue fmt stat (codes "checks.docker_exec") c.docker_exec in
      ground (
        arith,
        append-eq-nil a (b ++ (d ++ e)),
        append-eq-nil₃ b d e,
        check_issue-eq-nil (codes "checks.host_network") c.host_network,
        check_issue-eq-nil (codes "checks.privileged") c.privileged,
        check_issue-eq-nil (codes "checks.docker_cp") c.docker_cp,
        check_issue-eq-nil (codes "checks.docker_exec") c.docker_exec,
      )

  level_issue-eq-nil :
      (name text : Bytes)
      → (issue_if (not (valid_level_name fmt name)) text ≡ [])
        ↔ ((l : Level) × (parse_level fmt name ≡ ok l))
  level_issue-eq-nil name text = elim (Bool-cases (valid_level_name fmt name)) [
    | inl valid ↦ rw valid (λ h. (level_iff name).0 valid, λ h. refl)
    | inr wrong ↦ rw wrong (λ h. cc, λ h. cc ((level_iff name).1 h, wrong))
  ]

  issues-eq-nil :
      {Node : Type 0} (cfg : Config Node) → (issues fmt stat cfg ≡ []) ↔ IsValid fmt stat cfg
  unfolding issues
  issues-eq-nil cfg =
      let level = level_issue-eq-nil cfg.logging_level _ in
      let tls = server_issues_iff cfg.server in
      let entries = datasource_issues-eq-nil fmt stat 0 [] cfg.datasources in
      let allowlist = allowlist-eq-nil cfg.allowlist _ in
      let checks = check_issues-eq-nil cfg.checks in
      (
        λ h.
            let (a, b, rest) = (append-eq-nil₃ _ _ _).0 h in
            let (c, d, e) = (append-eq-nil₃ _ _ _).0 rest in
            let (named, distinct, _) = entries.0 d in
            let (network, privileged, copy, exec) = checks.0 e in
            record {
              level = level.0 a;
              tls = tls.0 b;
              allowlist = allowlist.0 c;
              named = named;
              distinct = distinct;
              host_network = network;
              privileged = privileged;
              docker_cp = copy;
              docker_exec = exec;
            },
        λ v.
            let d = entries.1 (v.named, v.distinct, Unseen-nil cfg.datasources) in
            let e = checks.1 (v.host_network, v.privileged, v.docker_cp, v.docker_exec) in
            (append-eq-nil₃ _ _ _).1 (
              level.1 v.level,
              tls.1 v.tls,
              (append-eq-nil₃ _ _ _).1 (allowlist.1 v.allowlist, d, e),
            ),
      )

  -- A configuration passes `Validate` exactly if it is valid, and passes as it is.
  pub validate-eq-ok_iff :
      {Node : Type 0} (cfg cfg' : Config Node)
      → (validate fmt stat cfg ≡ ok cfg') ↔ ((cfg ≡ cfg') × IsValid fmt stat cfg)
  unfolding validate
  validate-eq-ok_iff cfg cfg' = elim (issues-cases (issues fmt stat cfg)) [
    | inl none_found ↦
        rw (none_found, validate)
          (λ h. (ok-injective cfg cfg' h, (issues-eq-nil cfg).0 none_found), λ h. ap ok h.0)
    | inr (i, is, found) ↦
        rw (found, validate)
          (λ h. cc, λ h. absurd (cons-ne-nil (sym found ∙ (issues-eq-nil cfg).1 h.1)))
  ]
