-- ===== src/Examples/Configs.antt =====
-- Loading a configuration from two files, with overrides.
use authzmtls.Common.{
  ℕ, zero, suc, pos, ◌≡◌, ◌↔◌, refl, false, List, [], ◌∷◌, Option, none, some, Bytes, codes,
  bytes_eq, append_new, map, Result, ok, fail, if◌then◌else◌,
}
use authzmtls.Config.Files.{Files, listed}
use authzmtls.Config.Full.Laws.{Overridden, load_full-Overridden}
use authzmtls.Config.Full.{load_full}
use authzmtls.Config.Layers.{Yaml, Kind, document, mapping, other}
use authzmtls.Config.Load.LastWins.{LastWins}
use authzmtls.Config.Load.{Loading, zero_config, load}
use authzmtls.Config.Merge.Laws.{or_else, find_last, find_last-merge_datasources}
use authzmtls.Config.Merge.{merge_datasources}
use authzmtls.Config.Overrides.{FlagOverrides}
use authzmtls.Config.Validate.Laws.{IsValid, validate-eq-ok_iff}
use authzmtls.Config.Validate.{validate}
use authzmtls.Config.{Config, DatasourceConfig}
use authzmtls.GoStd.Fmt.{Fmt, upper_byte}
use authzmtls.GoStd.FilePath.{clean, ext, dir, join_path}
use authzmtls.Logging.{parse_level}

abbrev pub fmt : Fmt
fmt = record { quote = λ s. s; decimal = λ n. codes "#"; to_upper = map upper_byte }

-- Nodes are numbers: a document, its mapping, and three keys with their values.
abbrev node_kind : ℕ → Kind
node_kind zero = document
node_kind (suc zero) = mapping
node_kind (suc (suc n)) = other

abbrev node_value : ℕ → Bytes
node_value (suc (suc zero)) = codes "allowlist"
node_value (suc (suc (suc zero))) = codes "allow_list"
node_value (suc (suc (suc (suc zero)))) = codes "logging_level"
node_value _ = []

abbrev node_content : ℕ → List ℕ
node_content zero = 1 ∷ []
node_content (suc zero) = 2 ∷ 5 ∷ 3 ∷ 5 ∷ 4 ∷ 5 ∷ []
node_content _ = []

abbrev with_allowlist : List Bytes → Config ℕ
with_allowlist xs = record zero_config { allowlist = xs; logging_level = codes "warn" }

-- A file lists /srv and its own text.
abbrev pub yaml : Yaml ℕ
yaml = record {
  kind = node_kind;
  value = node_value;
  content = node_content;
  unmarshal_node = λ text. ok 0;
  unmarshal_config = λ text. ok (with_allowlist (codes "/srv" ∷ text ∷ []));
}

abbrev read : Bytes → Result Bytes
read path = if bytes_eq path (codes "/a/c.yaml") then ok (codes "/opt") else ok (codes "/data")

abbrev env : Bytes → Option Bytes
env name = if bytes_eq name (codes "AUTHZ_SERVER_LISTEN_ADDR") then some (codes ":9") else none

abbrev pub files : Files
files = record {
  read_file = read;
  read_dir = λ path. listed ((codes "b.yaml", false) ∷ (codes "b.txt", false) ∷ []);
  lookup_env = env;
  parse_duration = λ text. ok (pos 5);
}

abbrev pub stat : Bytes → Option Bytes
stat path = none

abbrev pub flags : FlagOverrides
flags = record {
  logging_level = codes "debug";
  listen_addr = [];
  server_cert = [];
  server_key = [];
  metrics_path = [];
  decision_timeout = [];
}

abbrev pub path : Bytes
path = codes "/a/c.yaml"

abbrev value_or : {A : Type 0} → A → Result A → A
value_or a (ok b) = b
value_or a (fail e) = a

abbrev loading : Loading ℕ
loading = value_or (record { cfg = zero_config; warnings = [] }) (load yaml files path)

abbrev pub config : Config ℕ
config = value_or zero_config (load_full fmt files yaml stat path flags)

loads_full : load_full fmt files yaml stat path flags ≡ ok config
unfolding load_full load bytes_eq join_path ext dir append_new clean validate parse_level
loads_full = refl

load_full-Overridden_example :
    IsValid fmt stat config
    × ((l : Loading ℕ) × (load yaml files path ≡ ok l) × Overridden fmt files flags l.cfg config)
load_full-Overridden_example = load_full-Overridden fmt files yaml stat path flags config loads_full

validate-eq-ok_iff_example :
    (validate fmt stat config ≡ ok config) ↔ ((config ≡ config) × IsValid fmt stat config)
validate-eq-ok_iff_example = validate-eq-ok_iff fmt stat config config

abbrev entry : Bytes → Bytes → DatasourceConfig ℕ
entry name kind = record { name = name; kind = kind; cache_ttl = pos 0; raw = 0 }

abbrev old_entries : List (DatasourceConfig ℕ)
old_entries = entry (codes "ad") (codes "ldap") ∷ entry (codes "hr") (codes "ldap") ∷ []

abbrev new_entries : List (DatasourceConfig ℕ)
new_entries = entry (codes "hr") (codes "sql") ∷ []

find_last-merge_datasources_example :
    find_last (codes "hr") (merge_datasources new_entries old_entries)
    ≡ or_else (find_last (codes "hr") new_entries) (find_last (codes "hr") old_entries)
find_last-merge_datasources_example =
    find_last-merge_datasources (codes "hr") new_entries old_entries
