-- ===== src/Config/Decode.antt =====
-- internal/config/config.go: the methods that yaml.v3 calls for a duration and for an entry of
-- `datasources`. Decoding a node as a string or as a struct is yaml.v3's; `show` is
-- `time.Duration.String`.
use authzmtls.Common.{ℤ, ◌≡◌, refl, ◌++◌, Bytes, codes, Result, ok, wrapped, ◌>>=◌}
use authzmtls.Config.Files.{Files}
use authzmtls.Config.{DatasourceConfig}
use authzmtls.GoStd.Fmt.{Fmt}

-- `Duration.UnmarshalYAML`, on what `node.Decode` gives for a string.
unfoldable pub unmarshal_duration : Fmt → Files → Result Bytes → Result ℤ
unmarshal_duration fmt files decoded =
    wrapped (codes "config: duration must be a string (e.g. \"2s\"): ") decoded >>= λ s.
    wrapped (codes "config: invalid duration " ++ (fmt.quote s ++ codes ": "))
      (files.parse_duration s)

-- `Duration.MarshalYAML` and `Duration.String`.
abbrev pub marshal_duration : (ℤ → Bytes) → ℤ → Result Bytes
marshal_duration show d = ok (show d)

-- `commonDatasourceFields`.
pub record CommonFields : Type 0 where
  pub name : Bytes
  pub kind : Bytes
  pub cache_ttl : ℤ

-- `DatasourceConfig.UnmarshalYAML`: the node itself is kept for the factory.
unfoldable pub unmarshal_datasource :
    {Node : Type 0} → (Node → Result CommonFields) → Node → Result (DatasourceConfig Node)
unmarshal_datasource decode node = decode node >>= λ common.
    ok (record { name = common.name; kind = common.kind; cache_ttl = common.cache_ttl; raw = node })

-- A duration is read back from its own form, if `time` does so.
pub unmarshal_duration-marshal_duration :
    (fmt : Fmt) (files : Files) (show : ℤ → Bytes) (d : ℤ)
    → files.parse_duration (show d) ≡ ok d
    → unmarshal_duration fmt files (marshal_duration show d) ≡ ok d
unfolding unmarshal_duration
unmarshal_duration-marshal_duration fmt files show d h = rw h refl
