-- ===== src/Config/Load/Scalars.antt =====
-- The value that merging files in their order gives a scalar field.
use authzmtls.Common.{
  ◌≡◌, refl, sym, ap, ◌∙◌, inl, inr, Bool, Bool-cases, List, [], ◌∷◌, Option, none, some, Bytes,
  bytes_in, ok, fail, bind-eq-ok, ok-injective, if◌then◌else◌,
}
use authzmtls.Config.Files.{Files}
use authzmtls.Config.Layers.{Yaml, keys_of}
use authzmtls.Config.Load.Allowlist.{layers_of, merge_layer-steps}
use authzmtls.Config.Load.{Loading, merge_layer, is_layer, merge_dir_entries}
use authzmtls.Config.Merge.Laws.{or_else}
use authzmtls.Config.Merge.{merge_fields, pick}
use authzmtls.Config.{Config}
use authzmtls.GoStd.FilePath.{join_path}

abbrev pub value_or : {A : Type 0} → A → Option A → A
value_or a none = a
value_or a (some b) = b

pub value_or-or_else :
    {A : Type 0} (a : A) (later here : Option A)
    → value_or (value_or a here) later ≡ value_or a (or_else later here)
value_or-or_else a none here = refl
value_or-or_else a (some b) here = refl

module _ {Node A : Type 0} (yaml : Yaml Node) (files : Files) (key : Bytes)
    (f : Config Node → A) where
  -- The value of the field in a file, if the file has its key.
  unfoldable pub given_in : Bytes → Option A
  given_in path = elim (files.read_file path) [
    | fail e ↦ none
    | ok text ↦ elim (yaml.unmarshal_node text) [
      | fail e ↦ none
      | ok doc ↦ elim (yaml.unmarshal_config text) [
        | fail e ↦ none
        | ok layer ↦ if bytes_in key (keys_of yaml doc).present then some (f layer) else none
      ]
    ]
  ]

  -- The value in the last of the files that has the key.
  abbrev pub last_given : List Bytes → Option A
  last_given [] = none
  last_given (path ∷ paths) = or_else (last_given paths) (given_in path)

  -- The field is merged under its key.
  abbrev pub Picks : Type 0
  Picks =
      (present : List Bytes) (layer cfg : Config Node)
      → f (merge_fields present layer cfg) ≡ pick present key (f layer) (f cfg)

  pick-value_or :
      (present : List Bytes) (layer : Config Node) (a : A)
      → pick present key (f layer) a
        ≡ value_or a (if bytes_in key present then some (f layer) else none)
  pick-value_or present layer a = elim (Bool-cases (bytes_in key present)) [
    | inl has ↦ rw has refl
    | inr lacks ↦ rw lacks refl
  ]

  pub merge_layer-value :
      (path : Bytes) (l l' : Loading Node)
      → Picks
      → merge_layer yaml files path l ≡ ok l'
      → f l'.cfg ≡ value_or (f l.cfg) (given_in path)
  unfolding given_in
  merge_layer-value path l l' picks h =
      let (text, doc, layer, readable, parsed, decoded, merged) =
        merge_layer-steps yaml files path l l' h in
      let present = (keys_of yaml doc).present in
      rw (readable, parsed, decoded, given_in)
        (ap f (sym merged) ∙ picks present layer l.cfg ∙ pick-value_or present layer (f l.cfg))

  pub merge_dir_entries-value :
      (confs : Bytes) (entries : List (Bytes × Bool)) (l l' : Loading Node)
      → Picks
      → merge_dir_entries yaml files confs entries l ≡ ok l'
      → f l'.cfg ≡ value_or (f l.cfg) (last_given (layers_of yaml files confs entries))
  unfolding merge_dir_entries
  merge_dir_entries-value confs [] l l' picks h = ap (λ x. f x.cfg) (sym (ok-injective l l' h))
  merge_dir_entries-value confs ((name, is_dir) ∷ entries) l l' picks h =
      elim (Bool-cases (is_layer name is_dir)) [
        | inl layer ↦
            let path = join_path confs name in
            let (m, first, rest) =
              bind-eq-ok (merge_layer yaml files path l) _ (rw (layer, merge_dir_entries) at h) in
            rw layer (
              merge_dir_entries-value confs entries m l' picks rest
              ∙ ap (λ a. value_or a (last_given (layers_of yaml files confs entries)))
                  (merge_layer-value path l m picks first)
              ∙ value_or-or_else (f l.cfg) (last_given (layers_of yaml files confs entries)) _)
        | inr skipped ↦ rw skipped (
            merge_dir_entries-value confs entries l l' picks (rw (skipped, merge_dir_entries) at h))
      ]
