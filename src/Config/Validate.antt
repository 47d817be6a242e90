-- ===== src/Config/Validate.antt =====
-- internal/config/config.go: `Validate`.
pub mod Entries
pub mod Laws
use authzmtls.Common.{
  ℕ, ◌+◌, Bool, true, false, not, List, [], ◌∷◌, ◌++◌, Option, none, some, Bytes, codes, bytes_eq,
  bytes_in, Result, ok, fail, if◌then◌else◌,
}
use authzmtls.Config.{
  Config, ServerConfig, ChecksConfig, DatasourceConfig, CheckSetting, check_valid,
}
use authzmtls.GoStd.Fmt.{Fmt}
use authzmtls.GoStd.Strings.{join}
use authzmtls.Logging.{valid_level_name}

abbrev is_empty : {A : Type 0} → List A → Bool
is_empty [] = true
is_empty (_ ∷ _) = false

-- What `validateServerTLS` makes of `os.Stat`.
abbrev pub stat_issue : Bytes → Option Bytes → List Bytes
stat_issue field none = []
stat_issue field (some e) = (field ++ (codes ": " ++ e)) ∷ []

-- An issue, if the test is true.
abbrev pub issue_if : Bool → Bytes → List Bytes
issue_if wrong text = if wrong then text ∷ [] else []

-- `stat` is `os.Stat`; `some` is its error.
module _ (fmt : Fmt) (stat : Bytes → Option Bytes) where
  abbrev pub one_sided : Bytes
  one_sided =
      codes
        "server: server_cert and server_key must both be set (TLS) or both unset (plain HTTP) - exactly one is ambiguous"

  -- `validateServerTLS`.
  unfoldable pub validate_server_tls : ServerConfig → List Bytes
  unfolding bytes_eq
  validate_server_tls server =
      let cert_set = not (bytes_eq server.server_cert []) in
      let key_set = not (bytes_eq server.server_key []) in
      if cert_set
      then (if key_set
          then (stat_issue (codes "server.server_cert") (stat server.server_cert)
              ++ stat_issue (codes "server.server_key") (stat server.server_key))
          else one_sided ∷ [])
      else if key_set
      then one_sided ∷ []
      else []

  abbrev pub entry_text : ℕ → Bytes
  entry_text i = codes "datasources[" ++ (fmt.decimal i ++ codes "]")

  -- The issues of the name of the entry at `i`.
  abbrev pub name_issues : ℕ → List Bytes → Bytes → List Bytes
  name_issues i seen name =
      if bytes_eq name []
      then (entry_text i ++ codes ": name is required") ∷ []
      else issue_if (bytes_in name seen)
          (entry_text i ++ (codes ": duplicate name " ++ fmt.quote name))

  abbrev pub seen_after : List Bytes → Bytes → List Bytes
  seen_after seen name = if bytes_eq name [] then seen else name ∷ seen

  -- The loop of `validateDatasources`.
  unfoldable pub datasource_issues :
      {Node : Type 0} → ℕ → List Bytes → List (DatasourceConfig Node) → List Bytes
  unfolding bytes_eq
  datasource_issues i seen [] = []
  datasource_issues i seen (ds ∷ rest) =
      name_issues i seen ds.name
      ++ (issue_if (bytes_eq ds.kind [])
            (entry_text i ++ (codes " (" ++ (ds.name ++ codes "): type is required")))
          ++ datasource_issues (i + 1) (seen_after seen ds.name) rest)

  abbrev pub check_issue : Bytes → CheckSetting → List Bytes
  check_issue field val =
      issue_if (not (check_valid val))
        (field ++ (codes ": must be \"allow\" or \"deny\", got " ++ fmt.quote val))

  -- `validateChecks`.
  abbrev pub check_issues : ChecksConfig → List Bytes
  check_issues checks =
      check_issue (codes "checks.host_network") checks.host_network
      ++ (check_issue (codes "checks.privileged") checks.privileged
          ++ (check_issue (codes "checks.docker_cp") checks.docker_cp
              ++ check_issue (codes "checks.docker_exec") checks.docker_exec))

  -- The `issues` of `Validate`.
  unfoldable pub issues : {Node : Type 0} → Config Node → List Bytes
  unfolding validate_server_tls datasource_issues check_valid valid_level_name
  issues cfg =
      issue_if (not (valid_level_name fmt cfg.logging_level)) (
        codes "logging_level: invalid value "
        ++ (fmt.quote cfg.logging_level ++ codes " (want one of trace, debug, info, warn, error)"))
      ++ (validate_server_tls cfg.server
          ++ (issue_if (is_empty cfg.allowlist) (codes "allowlist: must not be empty")
              ++ (datasource_issues 0 [] cfg.datasources ++ check_issues cfg.checks)))

  abbrev pub validation_error : List Bytes → Bytes
  validation_error found = codes "config: invalid configuration: " ++ join (codes "; ") found

  -- `Validate`, with the configuration that it leaves as it is.
  unfoldable pub validate : {Node : Type 0} → Config Node → Result (Config Node)
  unfolding issues join
  validate cfg = elim (issues cfg) [ [] ↦ ok cfg | i ∷ is ↦ fail (validation_error (i ∷ is)) ]
