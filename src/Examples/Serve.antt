-- ===== src/Examples/Serve.antt =====
-- The process from startup over a SIGHUP.
use authzmtls.App.Laws.{Serving, hung_up, Reach, started, next, Reach-IsValid}
use authzmtls.App.{
  Snapshot, Running, AppState, running, exited, start, on_sighup, on_request, load_now,
}
use authzmtls.Common.{
  All, ℕ, pos, ◌≡◌, ◌⊎◌, inl, inr, arith, refl, true, false, List, [], ◌∷◌, none, some, Bytes,
  codes, bytes_eq, append_new, Result, ok, fail,
}
use authzmtls.Config.Validate.Laws.{IsValid}
use authzmtls.Config.Validate.{validate}
use authzmtls.Config.Load.{load}
use authzmtls.Config.Full.{load_full}
use authzmtls.Datasources.Cache.{CacheEntry}
use authzmtls.Datasources.Registry.{new_set}
use authzmtls.Examples.Configs.{fmt, yaml, files, stat, flags, path, config}
use authzmtls.Examples.Setup.{host, home_mount, host-WaitsForAll, host-IsUnix, create}
use authzmtls.Rules.Canonical.Laws.{IsUnix}
use authzmtls.Rules.Host.{Host}
use authzmtls.Rules.Expand.{VarMap}
use authzmtls.Rules.Sources.{resolve_vars}
use authzmtls.Rules.Builtin.{admins}
use authzmtls.Rules.Builtin.Admins.{IsAdmin}
use authzmtls.Rules.Chain.{evaluate}
use authzmtls.Rules.Admin.{admin_rule, first_in}
use authzmtls.Rules.Decision.{abstain, allow}
use authzmtls.Rules.Mounts.{
  expand_all, mount_rule, mount_paths, mount_decision, first_not_allowed, check_paths_concurrently,
  check_path, resolve_matcher,
}
use authzmtls.Rules.Mounts.Concurrent.{check_concurrently}
use authzmtls.Rules.Body.{binds, decode_host_config}
use authzmtls.Rules.Uri.{is_container_create, path_segments, is_version_segment}
use authzmtls.GoStd.Strings.{split, before, trim, has_prefix, trim_suffix}
use authzmtls.GoStd.Runes.{runes}
use authzmtls.Rules.Expand.{expand}
use authzmtls.Rules.Expand.Product.{cartesian_product}
use authzmtls.Rules.Expand.Scan.{tokens}
use authzmtls.Rules.Matcher.{normalize_prefix, allowed_by, new_matcher, allowed}
use authzmtls.Rules.Canonical.{check_no_control_chars, abs, canonicalize}
use authzmtls.App.Confined.{timed, resolver, request_vars, Reach-Below}
use authzmtls.Rules.Mounts.Security.{Below}
use authzmtls.GoStd.FilePath.{is_abs}
use authzmtls.Examples.Sources.{unbounded, unbounded-IsLru, directory}
use authzmtls.GoStd.FilePath.{clean, ext, dir, join_path}
use authzmtls.Logging.{parse_level}
use authzmtls.Rules.Body.Asks.{Mounts, as_bind, with_target}
use authzmtls.Rules.Uri.{path_segments, is_version_segment}
use authzmtls.GoStd.Strings.{split, before, trim}
use authzmtls.Server.Laws.{Applied, reload-Applied}
use authzmtls.Server.{Outside, Sources, new_server, reload, get_certificate}

-- A certificate is a number.
-- A container with one mount from `/srv`.
abbrev srv_host : Host
srv_host = record host {
  unmarshal_host_config = λ body. some (record home_mount { binds = codes "/srv/app:/app" ∷ [] });
}

srv_host-IsUnix : IsUnix srv_host
srv_host-IsUnix = record { wd_abs = host-IsUnix.wd_abs; links_abs = host-IsUnix.links_abs }

abbrev pub outside : Outside ℕ ℕ (List (Bytes × CacheEntry)) ℕ
outside = record {
  host = srv_host;
  fmt = fmt;
  wiring = record { lru = unbounded; new_lru = []; backend = directory; instruments = none };
  registry = (codes "ldap", λ name node. ok 0) ∷ [];
  load_key_pair = λ cert key. ok 7;
  deadline = λ timeout set. set;
}

abbrev Run : Type 0
Run = Running ℕ ℕ (Sources outside)

abbrev pub now : Snapshot
now = record { files = files; stat = stat }

abbrev pub no_run : Run
no_run = record {
  store = config;
  server = record {
    tls_enabled = false;
    cert = none;
    active = record {
      rules = [];
      process = record {
        sources = record { providers = []; rejected = [] };
        log = [];
        requests = 0;
        denials = 0;
      };
      decision_timeout = pos 0;
    };
  };
}

abbrev run_of : Result Run → Run
run_of (ok r) = r
run_of (fail e) = no_run

abbrev first_run : Run
first_run = run_of (start outside yaml path flags now)

starts : start outside yaml path flags now ≡ ok first_run
unfolding start load_full load bytes_eq join_path ext dir append_new clean validate parse_level
    new_set new_server
starts = refl

abbrev run_after : AppState ℕ ℕ (Sources outside) → Run
run_after (running r) = r
run_after exited = no_run

abbrev second_run : Run
second_run = run_after (on_sighup outside yaml path flags now first_run)

hangs_up : on_sighup outside yaml path flags now first_run ≡ running second_run
unfolding on_sighup start load_full load bytes_eq join_path ext dir append_new clean validate
    parse_level new_set new_server reload
hangs_up = refl

reaches : Reach outside yaml path flags second_run
reaches = next (started now starts) (hung_up now hangs_up)

Reach-IsValid_example :
    Serving outside yaml path flags second_run
    × ((at : Snapshot) × IsValid outside.fmt at.stat second_run.store)
    × (second_run.server.tls_enabled ≡ true
        → (cert : ℕ) × (get_certificate outside second_run.server ≡ ok cert))
Reach-IsValid_example = Reach-IsValid outside yaml path flags unbounded-IsLru reaches

reload-Applied_example :
    ((e : Bytes) × (reload outside config first_run.server ≡ (some e, first_run.server)))
    ⊎ (((reload outside config first_run.server).0 ≡ none)
        × Applied outside config first_run.server (reload outside config first_run.server).1)
reload-Applied_example = reload-Applied outside config first_run.server unbounded-IsLru

second_run-is_abs : All (λ entry. is_abs entry ≡ true) second_run.store.allowlist
unfolding is_abs on_sighup start load_full load bytes_eq join_path ext dir append_new clean validate
    parse_level new_set new_server reload
second_run-is_abs = (refl, (refl, (refl, tt)))

abbrev nobody_vars : VarMap
nobody_vars =
    let s = (timed outside yaml path flags second_run).sources in
    (resolve_vars (resolver outside yaml path flags) create s).0

nobody-IsAdmin :
    ¬ IsAdmin (admins srv_host second_run.store (resolver outside yaml path flags)) nobody_vars
unfolding on_sighup start load_full load bytes_eq join_path ext dir append_new clean validate
    parse_level new_set new_server reload
nobody-IsAdmin (inl (u, m, k)) = ground arith
nobody-IsAdmin (inr (g, m, k)) = ground arith

allows_create : (on_request outside yaml path flags create second_run).0.allow ≡ true
unfolding on_request on_sighup start load_full load bytes_eq join_path ext dir append_new clean
    validate parse_level new_set new_server reload evaluate admin_rule first_in abstain mount_rule
    mount_paths mount_decision first_not_allowed check_paths_concurrently check_concurrently
    check_path binds decode_host_config is_container_create path_segments is_version_segment trim
    before split runes resolve_matcher expand_all expand new_matcher normalize_prefix tokens
    cartesian_product canonicalize check_no_control_chars abs is_abs allowed allowed_by has_prefix
    trim_suffix allow
allows_create = refl

srv_app-Mounts : Mounts srv_host create (codes "/srv/app")
unfolding path_segments is_version_segment split before trim bytes_eq runes
srv_app-Mounts = as_bind refl refl (inl refl) (with_target (codes "/app")) (ground arith) (λ e. cc)

Reach-Below_example :
    (at : Snapshot) × (load_now outside yaml path flags at ≡ ok second_run.store)
    × Below srv_host
        (expand_all second_run.store.allowlist
          (request_vars outside yaml path flags create second_run))
        (codes "/srv/app")
Reach-Below_example =
    Reach-Below outside yaml path flags create unbounded-IsLru reaches host-WaitsForAll
      srv_host-IsUnix second_run-is_abs nobody-IsAdmin allows_create (codes "/srv/app")
      (inl srv_app-Mounts)
