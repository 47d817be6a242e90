-- ===== src/Server/Routes/Laws.antt =====
-- Which requests the metrics path leaves to the plugin's endpoints.
use authzmtls.Common.{
  ◌≡◌, ◌↔◌, refl, inl, inr, Bool-cases, true, false, Bytes, codes, bytes_eq, bytes_eq_iff, arith,
  Option,
}
use authzmtls.Config.Validate.Laws.{IsValid}
use authzmtls.Config.{Config}
use authzmtls.GoStd.Fmt.{Fmt}
use authzmtls.Server.Routes.{to_metrics, to_authz_req, matches, mux_panics, plugin_route, route}

abbrev pub authz_req_path : Bytes
authz_req_path = codes "/AuthZPlugin.AuthZReq"

plugin_route-authz_req_iff :
    (path : Bytes) → (plugin_route path ≡ to_authz_req) ↔ (path ≡ authz_req_path)
unfolding plugin_route
plugin_route-authz_req_iff path = ground (
  arith,
  bytes_eq_iff path authz_req_path,
  bytes_eq_iff path (codes "/Plugin.Activate"),
  bytes_eq_iff path (codes "/AuthZPlugin.AuthZRes"),
)

-- A request comes to the authorization endpoint exactly if its path is that of the endpoint, and the
-- metrics path does not match it.
pub route-authz_req_iff :
    (metrics_path path : Bytes)
    → (route metrics_path path ≡ to_authz_req)
      ↔ ((path ≡ authz_req_path) × (matches metrics_path path ≡ false))
unfolding route
route-authz_req_iff metrics_path path = elim (Bool-cases (matches metrics_path path)) [
  | inl taken ↦ rw taken (λ h. cc, λ h. cc)
  | inr free ↦ rw free (
    λ h. ((plugin_route-authz_req_iff path).0 h, refl),
    λ h. (plugin_route-authz_req_iff path).1 h.0,
  )
]

abbrev pub with_metrics_path : {Node : Type 0} → Bytes → Config Node → Config Node
with_metrics_path m cfg = record cfg { server = record (cfg.server) { metrics_path = m } }

-- `Validate` does not look at the metrics path: with `/` in its place a valid configuration stays
-- valid, and the mux of `New` panics; with the path of the authorization endpoint it stays valid, and
-- the metrics take every request for an authorization.
pub with_metrics_path-IsValid :
    {Node : Type 0} (fmt : Fmt) (stat : Bytes → Option Bytes) (cfg : Config Node)
    → IsValid fmt stat cfg
    → IsValid fmt stat (with_metrics_path (codes "/") cfg)
      × (mux_panics (codes "/") ≡ true)
      × IsValid fmt stat (with_metrics_path authz_req_path cfg)
      × (route authz_req_path authz_req_path ≡ to_metrics)
unfolding mux_panics route matches bytes_eq
with_metrics_path-IsValid fmt stat cfg h =
    (with_path (codes "/"), refl, with_path authz_req_path, refl)
  where
    with_path : (m : Bytes) → IsValid fmt stat (with_metrics_path m cfg)
    with_path m = record {
      level = h.level;
      tls = h.tls;
      allowlist = h.allowlist;
      named = h.named;
      distinct = h.distinct;
      host_network = h.host_network;
      privileged = h.privileged;
      docker_cp = h.docker_cp;
      docker_exec = h.docker_exec;
    }
