-- ===== src/Server/Routes.antt =====
-- internal/server/server.go: the mux of `New`, and internal/dockerapi/handler.go: `Handler.Mux`.
-- Patterns are as `metrics_path` has them: a path that starts with a slash, without a
-- method or a wildcard. Request
-- paths are clean ones, which `http.ServeMux` does not redirect.
pub mod Laws
use authzmtls.Common.{
  Bool, true, false, not, ◌||◌, [], ◌∷◌, Bytes, codes, bytes_eq, any, ◌==◌, if◌then◌else◌,
}
use authzmtls.GoStd.FilePath.{slash}
use authzmtls.GoStd.Strings.{has_prefix}

-- Where a request comes to.
pub data Route : Type 0 where
  to_metrics : Route
  to_activate : Route
  to_authz_req : Route
  to_authz_res : Route
  to_not_found : Route

abbrev ends_in_slash : Bytes → Bool
ends_in_slash [] = false
ends_in_slash (b ∷ []) = bytes_eq (b ∷ []) (slash ∷ [])
ends_in_slash (b ∷ c ∷ s) = ends_in_slash (c ∷ s)

-- A pattern that ends in a slash is a subtree; another one is a path.
unfoldable pub matches : Bytes → Bytes → Bool
unfolding has_prefix bytes_eq
matches pattern path =
    if ends_in_slash pattern then has_prefix path pattern else bytes_eq path pattern

-- `mux.Handle` panics on a pattern without a slash, and on one that is registered already.
unfoldable pub mux_panics : Bytes → Bool
unfolding bytes_eq
mux_panics metrics_path =
    not (any (λ b. b == slash) metrics_path) || bytes_eq metrics_path (codes "/")

-- `Handler.Mux`.
unfoldable pub plugin_route : Bytes → Route
unfolding bytes_eq
plugin_route path =
    if bytes_eq path (codes "/Plugin.Activate")
    then to_activate
    else if bytes_eq path (codes "/AuthZPlugin.AuthZReq")
    then to_authz_req
    else if bytes_eq path (codes "/AuthZPlugin.AuthZRes")
    then to_authz_res
    else to_not_found

-- The mux of `New`: `/` matches what the more specific pattern does not.
unfoldable pub route : Bytes → Bytes → Route
unfolding matches plugin_route
route metrics_path path = if matches metrics_path path then to_metrics else plugin_route path
