-- ===== src/Rules/Body/Asks.antt =====
-- internal/rules/mounts.go: the host paths that a request names, told without the code: as the source
-- of a bind or of a mount of a container, or as the device of a volume of the local driver.
use authzmtls.Common.{
  ◌≡◌, ◌≢◌, ◌⊎◌, refl, sym, ap, ◌∙◌, subst, inl, inr, Bool, Bool-cases, true, false, List, [], ◌∷◌,
  ◌++◌, some, Bytes, codes, arith, bytes_eq, bytes_eq_iff, lookup, any, Elem, Lacks,
  Any-append_left, Any-append_right,
}
use authzmtls.DockerApi.{AuthzReq}
use authzmtls.GoStd.Strings.Trim.{before-Lacks, before-append}
use authzmtls.GoStd.Strings.{before, split, trim_space}
use authzmtls.Rules.Body.{
  bind_sources, mount_sources, decode_host_config, decode_volume_create, binds, local_driver,
  bind_device, volume_bind_device,
}
use authzmtls.Rules.Host.{Host, HostConfig, MountSpec, VolumeCreate}
use authzmtls.Rules.Uri.Laws.{is_container_create_iff, is_volume_create_iff}
use authzmtls.Rules.Uri.{path_segments}

-- A bind, as `path`, `path:target` or `path:target:options`.
pub data BindOf (path : Bytes) : Bytes → Type 0 where
  alone : BindOf path path
  with_target : (rest : Bytes) → BindOf path (path ++ b':' ∷ rest)

-- The source of a bind or of a mount in the body of a request that creates a container.
pub data Mounts (host : Host) (req : AuthzReq) (path : Bytes) : Type 0 where
  as_bind :
      {hc : HostConfig} {bind : Bytes}
      → path_segments req.request_uri ≡ codes "containers" ∷ codes "create" ∷ []
      → host.unmarshal_host_config req.request_body ≡ some hc
      → Elem bind hc.binds
      → BindOf path bind
      → Lacks b':' path
      → path ≢ []
      → Mounts host req path
  as_mount :
      {hc : HostConfig} (m : MountSpec)
      → path_segments req.request_uri ≡ codes "containers" ∷ codes "create" ∷ []
      → host.unmarshal_host_config req.request_body ≡ some hc
      → Elem m hc.mounts
      → m.source ≡ path
      → path ≢ []
      → Mounts host req path

-- The device of a request that creates a volume of the local driver, which is also that of a volume
-- without a driver, with `bind` among the options in `o`, commas between them and white space around.
pub record BindsVolume (host : Host) (req : AuthzReq) (path : Bytes) : Type 0 where
  pub vc : VolumeCreate
  pub create : path_segments req.request_uri ≡ codes "volumes" ∷ codes "create" ∷ []
  pub decoded : host.unmarshal_volume_create req.request_body ≡ some vc
  pub local : (vc.driver ≡ []) ⊎ (vc.driver ≡ codes "local")
  pub o : Bytes
  pub options : lookup (codes "o") vc.driver_opts ≡ some o
  pub option : Bytes
  pub listed : Elem option (split b',' o)
  pub is_bind : trim_space option ≡ codes "bind"
  pub device : lookup (codes "device") vc.driver_opts ≡ some path

-- The host paths that the request names, in a container or as a volume.
abbrev pub Asks : Host → AuthzReq → Bytes → Type 0
Asks host req path = Mounts host req path ⊎ BindsVolume host req path

bytes_eq-nonempty : (path : Bytes) → path ≢ [] → bytes_eq path [] ≡ false
bytes_eq-nonempty path n = elim (Bool-cases (bytes_eq path [])) [
  | inl empty ↦ absurd (n ((bytes_eq_iff path []).0 empty))
  | inr other ↦ other
]

before-BindOf : {path bind : Bytes} → BindOf path bind → Lacks b':' path → before b':' bind ≡ path
before-BindOf {path} alone no_colon = before-Lacks b':' path no_colon
before-BindOf {path} (with_target rest) no_colon = before-append b':' path rest no_colon

bind_sources-Elem :
    (path bind : Bytes) (bs : List Bytes)
    → path ≢ []
    → before b':' bind ≡ path
    → Elem bind bs
    → Elem path (bind_sources bs)
unfolding bind_sources
bind_sources-Elem path bind [] n e m = absurd m
bind_sources-Elem path bind (b ∷ bs) n e (inl same) =
    let src : before b':' b ≡ path = rw (sym same) e in
    rw (src, bytes_eq-nonempty path n) (inl refl)
bind_sources-Elem path bind (b ∷ bs) n e (inr later) =
    let rest = bind_sources-Elem path bind bs n e later in
    elim (Bool-cases (bytes_eq (before b':' b) [])) [
      | inl empty ↦ rw empty rest
      | inr kept ↦ rw kept (inr rest)
    ]

mount_sources-Elem :
    (m : MountSpec) (ms : List MountSpec)
    → m.source ≢ []
    → Elem m ms
    → Elem m.source (mount_sources ms)
unfolding mount_sources
mount_sources-Elem m [] n k = absurd k
mount_sources-Elem m (x ∷ ms) n (inl same) =
    rw (sym (ap (λ y. y.source) same), bytes_eq-nonempty m.source n) (inl refl)
mount_sources-Elem m (x ∷ ms) n (inr later) =
    let rest = mount_sources-Elem m ms n later in
    elim (Bool-cases (bytes_eq x.source [])) [
      | inl empty ↦ rw empty rest
      | inr kept ↦ rw kept (inr rest)
    ]

any-Elem :
    {A : Type 0} (p : A → Bool) (x : A) (xs : List A) → p x ≡ true → Elem x xs → any p xs ≡ true
any-Elem p x [] h m = absurd m
any-Elem p x (y ∷ ys) h (inl same) = rw (sym same, h) refl
any-Elem p x (y ∷ ys) h (inr later) = ground (arith, any-Elem p x ys h later)

local_driver-local :
    (driver : Bytes)
    → (driver ≡ []) ⊎ (driver ≡ codes "local")
    → bytes_eq (local_driver driver) (codes "local") ≡ true
unfolding bytes_eq
local_driver-local driver (inl none_given) = rw none_given refl
local_driver-local driver (inr given) = rw given refl

module _ (host : Host) (req : AuthzReq) where
  host_config-decoded :
      (hc : HostConfig)
      → path_segments req.request_uri ≡ codes "containers" ∷ codes "create" ∷ []
      → host.unmarshal_host_config req.request_body ≡ some hc
      → decode_host_config host req.request_uri req.request_body ≡ some hc
  unfolding decode_host_config
  host_config-decoded hc create decoded =
      rw ((is_container_create_iff req.request_uri).1 create, decode_host_config) decoded

  volume_create-decoded :
      (vc : VolumeCreate)
      → path_segments req.request_uri ≡ codes "volumes" ∷ codes "create" ∷ []
      → host.unmarshal_volume_create req.request_body ≡ some vc
      → decode_volume_create host req.request_uri req.request_body ≡ some vc
  unfolding decode_volume_create
  volume_create-decoded vc create decoded =
      rw ((is_volume_create_iff req.request_uri).1 create, decode_volume_create) decoded

  binds-decoded :
      (hc : HostConfig)
      → decode_host_config host req.request_uri req.request_body ≡ some hc
      → binds host req.request_uri req.request_body
        ≡ bind_sources hc.binds ++ mount_sources hc.mounts
  unfolding binds
  binds-decoded hc decoded = rw (decoded, binds) refl

  -- `Binds` has every host path that the request mounts.
  pub binds-Mounts :
      (path : Bytes)
      → Mounts host req path
      → Elem path (binds host req.request_uri req.request_body)
  binds-Mounts path (as_bind {hc} {bind} create decoded m b no_colon n) =
      rw (binds-decoded hc (host_config-decoded hc create decoded)) (
        Any-append_left _ (bind_sources hc.binds) (mount_sources hc.mounts)
          (bind_sources-Elem path bind hc.binds n (before-BindOf b no_colon) m))
  binds-Mounts path (as_mount {hc} m create decoded k same n) =
      rw (binds-decoded hc (host_config-decoded hc create decoded)) (
        Any-append_right _ (bind_sources hc.binds) (mount_sources hc.mounts) (
          subst (λ x. Elem x (mount_sources hc.mounts)) same
            (mount_sources-Elem m hc.mounts (λ e. n (sym same ∙ e)) k)))

  bind_device-BindsVolume :
      (path : Bytes) (b : BindsVolume host req path) → bind_device b.vc ≡ some path
  unfolding bind_device
  bind_device-BindsVolume path b =
      let found =
        any-Elem (λ tok. bytes_eq (trim_space tok) (codes "bind")) b.option (split b',' b.o)
          ((bytes_eq_iff (trim_space b.option) (codes "bind")).1 b.is_bind) b.listed in
      rw (local_driver-local b.vc.driver b.local, b.options, found) b.device

  -- `VolumeBindDevice` has the device of a volume that binds it.
  pub volume_bind_device-BindsVolume :
      (path : Bytes)
      → BindsVolume host req path
      → volume_bind_device host req.request_uri req.request_body ≡ some path
  unfolding volume_bind_device
  volume_bind_device-BindsVolume path b =
      rw (volume_create-decoded b.vc b.create b.decoded, volume_bind_device)
        (bind_device-BindsVolume path b)
