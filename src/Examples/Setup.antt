-- ===== src/Examples/Setup.antt =====
-- A host, a configuration and requests, for the examples.
use authzmtls.Common.{
  ℕ, zero, suc, ◌<◌, ◌≡◌, refl, arith, true, List, [], ◌∷◌, none, some, Bytes, codes, ok,
  ok-injective, Elem, subst,
}
use authzmtls.Config.{Config, check_deny}
use authzmtls.DockerApi.{AuthzReq}
use authzmtls.GoStd.FilePath.{is_abs}
use authzmtls.GoStd.Strings.{has_prefix}
use authzmtls.Common.{pos}
use authzmtls.Rules.Canonical.Laws.{IsUnix}
use authzmtls.Rules.Chain.{Process}
use authzmtls.Rules.Host.{Host, HostConfig, VolumeCreate, WaitsForAll}
use authzmtls.Rules.Sources.{Resolver}

abbrev pub down_from : ℕ → List ℕ
down_from zero = []
down_from (suc n) = n ∷ down_from n

down_from-Elem : (n i : ℕ) → i < n → Elem i (down_from n)
down_from-Elem zero i h = omega (arith, h)
down_from-Elem (suc n) i h = ground (arith, down_from-Elem n i)

-- One bind mount in the home directory of `jdoe`, in privileged mode.
abbrev pub home_mount : HostConfig
home_mount = record {
  binds = codes "/home/jdoe/../jdoe/src:/src:ro" ∷ [];
  mounts = [];
  network_mode = none;
  privileged = some true;
}

abbrev pub bind_volume : VolumeCreate
bind_volume = record {
  name = codes "data";
  driver = [];
  driver_opts = (codes "o", codes "rw, bind") ∷ (codes "device", codes "/etc") ∷ [];
  labels = [];
}

-- No symbolic links; the goroutines finish in reverse order.
abbrev pub host : Host
host = record {
  unmarshal_host_config = λ body. some home_mount;
  unmarshal_volume_create = λ body. some bind_volume;
  getwd = ok (codes "/");
  eval_symlinks = λ p. ok p;
  quote = λ s. s;
  schedule = down_from;
}

pub host-WaitsForAll : WaitsForAll host
host-WaitsForAll = down_from-Elem

pub host-IsUnix : IsUnix host
unfolding is_abs has_prefix
host-IsUnix = record {
  wd_abs = λ wd e. subst (λ p. is_abs p ≡ true) (ok-injective (codes "/") wd e) refl;
  links_abs = λ p q h e. subst (λ r. is_abs r ≡ true) (ok-injective p q e) h;
}

-- A datasource that knows one user and one group.
abbrev pub directory : Resolver (Unit {0})
directory = record {
  resolve =
      λ vars s. ((codes "USER", codes "jdoe" ∷ []) ∷ (codes "GROUP", codes "dev" ∷ []) ∷ [], s);
}

abbrev pub homes : List Bytes
homes = codes "/home/$USER" ∷ []

abbrev pub config_with : List Bytes → Config (Unit {0})
config_with admin_users = record {
  logging_level = codes "info";
  server = record {
    listen_addr = codes ":8443";
    server_cert = [];
    server_key = [];
    metrics_path = codes "/metrics";
    decision_timeout = pos 0;
  };
  allowlist = homes;
  datasources = [];
  checks = record {
    host_network = check_deny;
    privileged = check_deny;
    docker_cp = check_deny;
    docker_exec = check_deny;
  };
  admin_users = admin_users;
  admin_groups = codes "ops" ∷ [];
  config_dir = [];
}

abbrev pub config : Config (Unit {0})
config = config_with (codes "root" ∷ [])

abbrev pub request : Bytes → Bytes → AuthzReq
request method uri = record {
  user = codes "CN=jdoe";
  user_authn_method = codes "TLS";
  request_method = method;
  request_uri = uri;
  request_body = [];
  request_headers = [];
  response_status_code = 0;
  response_body = [];
  response_headers = [];
}

abbrev pub create : AuthzReq
create = request (codes "POST") (codes "/v1.43/containers/create?name=x")

abbrev pub volume : AuthzReq
volume = request (codes "POST") (codes "/volumes/create")

abbrev pub exec : AuthzReq
exec = request (codes "POST") (codes "/containers/ab/exec")

abbrev pub copy : AuthzReq
copy = request (codes "GET") (codes "/containers/ab/archive?path=/")

abbrev pub listing : AuthzReq
listing = request (codes "GET") (codes "/containers/json")

abbrev pub process : Process (Unit {0})
process = record { sources = tt; log = []; requests = 0; denials = 0 }
