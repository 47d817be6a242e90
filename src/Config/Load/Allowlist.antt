-- ===== src/Config/Load/Allowlist.antt =====
-- The allowlist that a load gives.
use authzmtls.Common.{
  ◌≡◌, ◌↔◌, ◌⊎◌, refl, ap, Bool, List, [], ◌∷◌, Bytes, codes, Any, Elem, Distinct, Result, ok, fail,
  wrapped, wrapped-eq-ok, bind-eq-ok, ok-injective, if◌then◌else◌,
}
use authzmtls.Config.Files.{Files}
use authzmtls.Config.Layers.{Yaml, keys_of}
use authzmtls.Config.Load.{
  Loading, read_context, parse_context, zero_config, with_fields, merge_layer, conf_dir, is_layer,
  entries_of,
}
use authzmtls.Config.Merge.{merge_fields, pick}
use authzmtls.Config.{Config}
use authzmtls.GoStd.FilePath.{join_path}

module _ {Node : Type 0} (yaml : Yaml Node) (files : Files) where
  -- The allowlist of a file, empty if it has none.
  unfoldable pub listed_in : Bytes → List Bytes
  listed_in path = elim (files.read_file path) [
    | fail e ↦ []
    | ok text ↦ elim (yaml.unmarshal_node text) [
      | fail e ↦ []
      | ok doc ↦ elim (yaml.unmarshal_config text) [
        | fail e ↦ []
        | ok layer ↦ pick (keys_of yaml doc).present (codes "allowlist") layer.allowlist []
      ]
    ]
  ]

  -- What a merged file adds.
  record Grown (p : Bytes → Type 0) (l l' : Loading Node) : Type 0 where
    elements : (t : Bytes) → Elem t l'.cfg.allowlist ↔ (p t ⊎ Elem t l.cfg.allowlist)
    distinct : Distinct l.cfg.allowlist → Distinct l'.cfg.allowlist

  pub merge_layer-steps :
      (path : Bytes) (l l' : Loading Node)
      → merge_layer yaml files path l ≡ ok l'
      → (text : Bytes) × (doc : Node) × (layer : Config Node) × (files.read_file path ≡ ok text)
        × (yaml.unmarshal_node text ≡ ok doc)
        × (yaml.unmarshal_config text ≡ ok layer)
        × (merge_fields (keys_of yaml doc).present layer l.cfg ≡ l'.cfg)
  unfolding merge_layer
  merge_layer-steps path l l' h =
      let (text, readable, h₁) =
        bind-eq-ok (wrapped (read_context path) (files.read_file path)) _ h in
      let (doc, parsed, h₂) =
        bind-eq-ok (wrapped (parse_context path) (yaml.unmarshal_node text)) _ h₁ in
      let (layer, decoded, merged) = decode text doc (yaml.unmarshal_config text) refl h₂ in
      (
        text,
        doc,
        layer,
        wrapped-eq-ok (read_context path) text _ readable,
        wrapped-eq-ok (parse_context path) doc _ parsed,
        decoded,
        merged,
      )
    where
      decode :
          (text : Bytes) (doc : Node) (r : Result (Config Node))
          → yaml.unmarshal_config text ≡ r
          → with_fields yaml files path doc r l ≡ ok l'
          → (layer : Config Node) × (yaml.unmarshal_config text ≡ ok layer)
            × (merge_fields (keys_of yaml doc).present layer l.cfg ≡ l'.cfg)
      decode text doc (ok layer) e k = (layer, e, ap (λ x. x.cfg) (ok-injective _ l' k))
      decode text doc (fail m) e k = cc

  -- The files of conf.d that are merged.
  abbrev pub layers_of : Bytes → List (Bytes × Bool) → List Bytes
  layers_of confs [] = []
  layers_of confs ((name, is_dir) ∷ entries) =
      if is_layer name is_dir
      then join_path confs name ∷ layers_of confs entries
      else layers_of confs entries

  abbrev pub ListedBy : Bytes → List Bytes → Type 0
  ListedBy t = Any (λ path. Elem t (listed_in path))

  -- After the first file, `dir` names the directory of the others, which has these entries.
  pub record ConfDir (path dir : Bytes) (entries : List (Bytes × Bool)) : Type 0 where
    pub first : Loading Node
    pub merged :
        merge_layer yaml files path (record { cfg = zero_config; warnings = [] }) ≡ ok first
    pub named : conf_dir path first.cfg.config_dir ≡ dir
    pub readable : entries_of dir (files.read_dir dir) ≡ ok entries
