-- ===== src/Rules/Body.antt =====
-- internal/rules/mounts.go: what a request's body asks for.
pub mod Asks
use authzmtls.Common.{
  Bool, not, List, [], ◌∷◌, ◌++◌, Option, none, some, Bytes, codes, bytes_eq, lookup, if◌then◌else◌,
  any,
}
use authzmtls.GoStd.Strings.{before, split, trim_space}
use authzmtls.Rules.Host.{Host, HostConfig, MountSpec, VolumeCreate}
use authzmtls.Rules.Uri.{is_container_create, is_volume_create}

-- The sources that `Binds` keeps: what stands before the first colon, if that is not empty.
bind_sources : List Bytes → List Bytes
bind_sources [] = []
bind_sources (b ∷ bs) =
    let src = before b':' b in
    if not (bytes_eq src []) then src ∷ bind_sources bs else bind_sources bs

mount_sources : List MountSpec → List Bytes
mount_sources [] = []
mount_sources (m ∷ ms) =
    if not (bytes_eq m.source []) then m.source ∷ mount_sources ms else mount_sources ms

module _ (host : Host) where
  -- `decodeHostConfig`; `none` is `ok == false`.
  unfoldable pub decode_host_config : Bytes → Bytes → Option HostConfig
  decode_host_config uri body =
      if not (is_container_create uri) then none else host.unmarshal_host_config body

  -- `Binds`.
  unfoldable pub binds : Bytes → Bytes → List Bytes
  unfolding bind_sources mount_sources
  binds uri body = elim (decode_host_config uri body) [
    | none ↦ []
    | some hc ↦ bind_sources hc.binds ++ mount_sources hc.mounts
  ]

  -- `NetworkMode`.
  unfoldable pub network_mode : Bytes → Bytes → Option Bytes
  network_mode uri body = elim (decode_host_config uri body) [
    | none ↦ none
    | some hc ↦ hc.network_mode
  ]

  -- `Privileged`.
  unfoldable pub privileged : Bytes → Bytes → Option Bool
  privileged uri body = elim (decode_host_config uri body) [ none ↦ none | some hc ↦ hc.privileged ]

  -- `decodeVolumeCreate`.
  unfoldable pub decode_volume_create : Bytes → Bytes → Option VolumeCreate
  decode_volume_create uri body =
      if not (is_volume_create uri) then none else host.unmarshal_volume_create body

abbrev pub local_driver : Bytes → Bytes
local_driver driver = if bytes_eq driver [] then codes "local" else driver

abbrev pub names_bind : Bytes → Bool
names_bind o = any (λ tok. bytes_eq (trim_space tok) (codes "bind")) (split b',' o)

-- The tests of `VolumeBindDevice` on a decoded body.
unfoldable pub bind_device : VolumeCreate → Option Bytes
bind_device vc =
    if not (bytes_eq (local_driver vc.driver) (codes "local"))
    then none
    else elim (lookup (codes "o") vc.driver_opts) [
      | none ↦ none
      | some o ↦ if not (names_bind o) then none else lookup (codes "device") vc.driver_opts
    ]

-- `VolumeBindDevice`.
unfoldable pub volume_bind_device : Host → Bytes → Bytes → Option Bytes
volume_bind_device host uri body = elim (decode_volume_create host uri body) [
  | none ↦ none
  | some vc ↦ bind_device vc
]
