-- ===== src/Config/Load.antt =====
-- internal/config/config.go: `mergeLayer` and `Load`. The files do not change during a load.
pub mod Allowlist
pub mod Scalars
pub mod LastWins
use authzmtls.Common.{
  ℤ, pos, is_zero, Bool, true, false, not, ◌||◌, List, [], ◌∷◌, ◌++◌, map, Option, none, some,
  Bytes, codes, bytes_eq, Result, ok, fail, wrapped, wrapped-eq-ok, ◌>>=◌, if◌then◌else◌,
}
use authzmtls.Config.Files.{Files, DirListing, listed, not_exist, failed}
use authzmtls.Config.Layers.{Yaml, keys_of}
use authzmtls.Config.Merge.{merge_fields}
use authzmtls.Config.{
  Config, ServerConfig, ChecksConfig, DatasourceConfig, CheckSetting, check_allow,
}
use authzmtls.GoStd.FilePath.{join_path, is_abs, dir, ext}

abbrev pub read_context : Bytes → Bytes
read_context path = codes "config: read " ++ (path ++ codes ": ")

abbrev pub parse_context : Bytes → Bytes
parse_context path = codes "config: parse " ++ (path ++ codes ": ")

-- A file and its key, of the warning of an unrecognized field.
abbrev pub Warning : Type 0
Warning = Bytes × Bytes

-- The configuration so far, and the warnings written.
pub record Loading (Node : Type 0) : Type 0 where
  pub cfg : Config Node
  pub warnings : List Warning

-- `&Config{}`.
abbrev pub zero_config : {Node : Type 0} → Config Node
zero_config = record {
  logging_level = [];
  server = record {
    listen_addr = [];
    server_cert = [];
    server_key = [];
    metrics_path = [];
    decision_timeout = pos 0;
  };
  allowlist = [];
  datasources = [];
  checks = record { host_network = []; privileged = []; docker_cp = []; docker_exec = [] };
  admin_users = [];
  admin_groups = [];
  config_dir = [];
}

abbrev pub or_default : Bytes → Bytes → Bytes
or_default value default = if bytes_eq value [] then default else value

abbrev pub or_duration : ℤ → ℤ → ℤ
or_duration value default = if is_zero value then default else value

abbrev pub with_default_ttl : {Node : Type 0} → DatasourceConfig Node → DatasourceConfig Node
with_default_ttl d = record d { cache_ttl = or_duration d.cache_ttl (pos 600000000000) }

-- The defaults at the end of `Load`.
unfoldable pub apply_defaults : {Node : Type 0} → Config Node → Config Node
unfolding bytes_eq
apply_defaults cfg = record cfg {
  logging_level = or_default cfg.logging_level (codes "info");
  server = record (cfg.server) {
    listen_addr = or_default cfg.server.listen_addr (codes ":80");
    metrics_path = or_default cfg.server.metrics_path (codes "/metrics");
    decision_timeout = or_duration cfg.server.decision_timeout (pos 2000000000);
  };
  checks = record {
    host_network = or_default cfg.checks.host_network check_allow;
    privileged = or_default cfg.checks.privileged check_allow;
    docker_cp = or_default cfg.checks.docker_cp check_allow;
    docker_exec = or_default cfg.checks.docker_exec check_allow;
  };
  datasources = map with_default_ttl cfg.datasources;
}

-- `confDir`.
unfoldable pub conf_dir : Bytes → Bytes → Bytes
unfolding bytes_eq dir join_path is_abs
conf_dir path config_dir =
    if bytes_eq config_dir []
    then join_path (dir path) (codes "conf.d")
    else if not (is_abs config_dir)
    then join_path (dir path) config_dir
    else config_dir

abbrev pub is_layer : Bytes → Bool → Bool
is_layer name is_dir = not (is_dir || not (bytes_eq (ext name) (codes ".yaml")))

abbrev pub entries_of : Bytes → DirListing → Result (List (Bytes × Bool))
entries_of confs (listed entries) = ok entries
entries_of confs not_exist = ok []
entries_of confs (failed e) =
    fail (codes "config: read conf.d directory " ++ (confs ++ (codes ": " ++ e)))

abbrev pub in_conf_dir : {Node : Type 0} → Bytes → Loading Node → Loading Node
in_conf_dir path l = record l {
  cfg = record (l.cfg) { config_dir = conf_dir path l.cfg.config_dir };
}

module _ {Node : Type 0} (yaml : Yaml Node) (files : Files) where
  abbrev pub with_fields :
      Bytes → Node → Result (Config Node) → Loading Node → Result (Loading Node)
  with_fields path doc (fail e) l = fail (parse_context path ++ e)
  with_fields path doc (ok layer) l = ok (record {
    cfg = merge_fields (keys_of yaml doc).present layer l.cfg;
    warnings = l.warnings ++ map (λ key. (path, key)) (keys_of yaml doc).unknown;
  })

  -- `mergeLayer`. The warnings of a load that fails are not kept.
  unfoldable pub merge_layer : Bytes → Loading Node → Result (Loading Node)
  unfolding keys_of merge_fields
  merge_layer path l = wrapped (read_context path) (files.read_file path) >>= λ text.
      wrapped (parse_context path) (yaml.unmarshal_node text) >>= λ doc.
      with_fields path doc (yaml.unmarshal_config text) l

  -- The loop over the entries of conf.d.
  unfoldable pub merge_dir_entries :
      Bytes → List (Bytes × Bool) → Loading Node → Result (Loading Node)
  unfolding merge_layer ext bytes_eq join_path
  merge_dir_entries confs [] l = ok l
  merge_dir_entries confs ((name, is_dir) ∷ entries) l =
      (if is_layer name is_dir then merge_layer (join_path confs name) l else ok l) >>= λ l'.
      merge_dir_entries confs entries l'

  -- `Load`.
  unfoldable pub load : Bytes → Result (Loading Node)
  unfolding merge_layer merge_dir_entries conf_dir apply_defaults
  load path = merge_layer path (record { cfg = zero_config; warnings = [] }) >>= λ first.
      let l = in_conf_dir path first in
      let confs = l.cfg.config_dir in
      entries_of confs (files.read_dir confs) >>= λ entries.
      merge_dir_entries confs entries l >>= λ merged.
      ok (record merged { cfg = apply_defaults merged.cfg })
