-- ===== src/Config/Merge.antt =====
-- internal/config/config.go: how `mergeLayer` merges the fields that a file has onto those of the
-- files before it.
pub mod Laws
use authzmtls.Common.{
  ℕ, ◌+◌, Bool, true, false, List, [], ◌∷◌, ◌++◌, Option, none, some, Bytes, codes, bytes_eq,
  bytes_in, append_new, lookup, insert, set, length, if◌then◌else◌,
}
use authzmtls.Config.{Config, ServerConfig, ChecksConfig, DatasourceConfig}

-- The layer's value of a field that the file has, else the value so far.
abbrev pub pick : {A : Type 0} → List Bytes → Bytes → A → A → A
pick present key new old = if bytes_in key present then new else old

abbrev pub merge_server : List Bytes → ServerConfig → ServerConfig → ServerConfig
merge_server present layer cfg = record {
  listen_addr = pick present (codes "server.listen_addr") layer.listen_addr cfg.listen_addr;
  server_cert = pick present (codes "server.server_cert") layer.server_cert cfg.server_cert;
  server_key = pick present (codes "server.server_key") layer.server_key cfg.server_key;
  metrics_path = pick present (codes "server.metrics_path") layer.metrics_path cfg.metrics_path;
  decision_timeout =
      pick present (codes "server.decision_timeout") layer.decision_timeout cfg.decision_timeout;
}

abbrev pub merge_checks : List Bytes → ChecksConfig → ChecksConfig → ChecksConfig
merge_checks present layer cfg = record {
  host_network = pick present (codes "checks.host_network") layer.host_network cfg.host_network;
  privileged = pick present (codes "checks.privileged") layer.privileged cfg.privileged;
  docker_cp = pick present (codes "checks.docker_cp") layer.docker_cp cfg.docker_cp;
  docker_exec = pick present (codes "checks.docker_exec") layer.docker_exec cfg.docker_exec;
}

-- `unionStrings`.
abbrev pub union_strings : List Bytes → List Bytes → List Bytes
union_strings base add = append_new base add

module _ {Node : Type 0} where
  -- `index`, filled from the entries at `i` and behind.
  unfoldable pub index_from : ℕ → List (DatasourceConfig Node) → List (Bytes × ℕ) → List (Bytes × ℕ)
  unfolding insert
  index_from i [] index = index
  index_from i (d ∷ ds) index = index_from (i + 1) ds (insert d.name i index)

  -- The loop over the layer's entries.
  unfoldable pub merge_entries :
      List (Bytes × ℕ)
      → List (DatasourceConfig Node)
      → List (DatasourceConfig Node)
      → List (DatasourceConfig Node)
  unfolding lookup insert
  merge_entries index [] ds = ds
  merge_entries index (d ∷ layer) ds = elim (lookup d.name index) [
    | some i ↦ merge_entries index layer (set ds i d)
    | none ↦ merge_entries (insert d.name (length ds) index) layer (ds ++ d ∷ [])
  ]

  abbrev pub merge_datasources :
      List (DatasourceConfig Node) → List (DatasourceConfig Node) → List (DatasourceConfig Node)
  merge_datasources layer ds = merge_entries (index_from 0 ds []) layer ds

  -- The merge of `mergeLayer`, given the keys that the file has.
  unfoldable pub merge_fields : List Bytes → Config Node → Config Node → Config Node
  unfolding index_from merge_entries append_new
  merge_fields present layer cfg = record {
    logging_level = pick present (codes "logging_level") layer.logging_level cfg.logging_level;
    server = merge_server present layer.server cfg.server;
    allowlist =
        pick present (codes "allowlist") (union_strings cfg.allowlist layer.allowlist)
          cfg.allowlist;
    datasources =
        pick present (codes "datasources") (merge_datasources layer.datasources cfg.datasources)
          cfg.datasources;
    checks = merge_checks present layer.checks cfg.checks;
    admin_users =
        pick present (codes "admin_users") (union_strings cfg.admin_users layer.admin_users)
          cfg.admin_users;
    admin_groups =
        pick present (codes "admin_groups") (union_strings cfg.admin_groups layer.admin_groups)
          cfg.admin_groups;
    config_dir = pick present (codes "config_dir") layer.config_dir cfg.config_dir;
  }
