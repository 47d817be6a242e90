-- ===== src/Config/Layers.antt =====
-- internal/config/config.go: which keys of a file `mergeLayer` takes for present, and which it warns
-- of. The parser (yaml.v3) and its nodes are outside.
use authzmtls.Common.{List, [], ◌∷◌, ◌++◌, Bytes, codes, bytes_eq, bytes_in, Result, if◌then◌else◌}
use authzmtls.Config.{Config}

-- The kinds of a node that `mergeLayer` tells apart.
pub data Kind : Type 0 where
  document : Kind
  mapping : Kind
  other : Kind

-- What is used of yaml.v3: its nodes, and `Unmarshal` into a node and into a `Config`.
pub record Yaml (Node : Type 0) : Type 0 where
  pub kind : Node → Kind
  pub value : Node → Bytes
  pub content : Node → List Node
  pub unmarshal_node : Bytes → Result Node
  pub unmarshal_config : Bytes → Result (Config Node)

abbrev pub known_top_level : List Bytes
known_top_level =
    codes "logging_level"
    ∷ codes "server"
    ∷ codes "allowlist"
    ∷ codes "datasources"
    ∷ codes "checks"
    ∷ codes "admin_users"
    ∷ codes "admin_groups"
    ∷ codes "config_dir"
    ∷ []

abbrev pub known_server_fields : List Bytes
known_server_fields =
    codes "listen_addr"
    ∷ codes "server_cert"
    ∷ codes "server_key"
    ∷ codes "metrics_path"
    ∷ codes "decision_timeout"
    ∷ []

abbrev pub known_checks_fields : List Bytes
known_checks_fields =
    codes "host_network" ∷ codes "privileged" ∷ codes "docker_cp" ∷ codes "docker_exec" ∷ []

-- `present` and `unknown`.
pub record Keys : Type 0 where
  pub present : List Bytes
  pub unknown : List Bytes

abbrev pub note_key : List Bytes → Bytes → Bytes → Keys → Keys
note_key known prefix key keys =
    if bytes_in key known
    then record keys { present = (prefix ++ key) ∷ keys.present }
    else record keys { unknown = keys.unknown ++ (prefix ++ key) ∷ [] }

module _ {Node : Type 0} (yaml : Yaml Node) where
  -- The loop over the pairs of a mapping's content.
  unfoldable pub scan_pairs : (Node → Node → Keys → Keys) → List Node → Keys → Keys
  scan_pairs note [] keys = keys
  scan_pairs note (k ∷ []) keys = keys
  scan_pairs note (k ∷ v ∷ content) keys = scan_pairs note content (note k v keys)

  abbrev pub scan_mapping : (Node → Node → Keys → Keys) → Node → Keys → Keys
  scan_mapping note node keys = elim (yaml.kind node) [
    | mapping ↦ scan_pairs note (yaml.content node) keys
    | document ↦ keys
    | other ↦ keys
  ]

  -- `scanNested`.
  unfoldable pub scan_nested : Bytes → List Bytes → Node → Keys → Keys
  unfolding scan_pairs
  scan_nested prefix known node keys =
      scan_mapping (λ k v. note_key known prefix (yaml.value k)) node keys

  -- One key at the top level.
  unfoldable pub scan_key : Node → Node → Keys → Keys
  unfolding scan_nested bytes_eq
  scan_key k v keys =
      let key = yaml.value k in
      if bytes_eq key (codes "server")
      then scan_nested (codes "server.") known_server_fields v keys
      else if bytes_eq key (codes "checks")
      then scan_nested (codes "checks.") known_checks_fields v keys
      else if bytes_eq key []
      then keys
      else note_key known_top_level [] key keys

  abbrev pub first_or : Node → List Node → Node
  first_or doc [] = doc
  first_or doc (root ∷ _) = root

  abbrev pub root_of : Node → Node
  root_of doc = elim (yaml.kind doc) [
    | document ↦ first_or doc (yaml.content doc)
    | mapping ↦ doc
    | other ↦ doc
  ]

  -- The keys of a file's document.
  unfoldable pub keys_of : Node → Keys
  unfolding scan_key
  keys_of doc = scan_mapping scan_key (root_of doc) (record { present = []; unknown = [] })
