-- ===== src/DockerApi.antt =====
-- internal/dockerapi/types.go: the wire types of Docker's authorization plugin protocol.
use authzmtls.Common.{ℕ, Bool, List, Bytes}

-- `AuthZReq`. The status code, which the plugin never reads, is Docker's and not negative.
pub record AuthzReq : Type 0 where
  pub user : Bytes
  pub user_authn_method : Bytes
  pub request_method : Bytes
  pub request_uri : Bytes
  pub request_body : Bytes
  pub request_headers : List (Bytes × Bytes)
  pub response_status_code : ℕ
  pub response_body : Bytes
  pub response_headers : List (Bytes × Bytes)

-- `AuthZRes`.
pub record AuthzRes : Type 0 where
  pub allow : Bool
  pub msg : Bytes
  pub err : Bytes

-- `PluginActivateRes`.
pub record PluginActivateRes : Type 0 where
  pub implements : List Bytes
