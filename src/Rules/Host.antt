-- ===== src/Rules/Host.antt =====
-- What the rules take from outside: the JSON decoder for two wire shapes, the file system, Go's
-- `%q`, and the order in which goroutines finish. Every theorem holds for each choice of these,
-- unless it states what it needs.
use authzmtls.Common.{ℕ, ◌<◌, Bool, List, Option, Bytes, Result, Elem}

-- `mountSpec`.
pub record MountSpec : Type 0 where
  pub kind : Bytes
  pub source : Bytes
  pub target : Bytes
  pub read_only : Bool

-- `hostConfig`; `none` is a nil pointer.
pub record HostConfig : Type 0 where
  pub binds : List Bytes
  pub mounts : List MountSpec
  pub network_mode : Option Bytes
  pub privileged : Option Bool

-- `volumeCreate`.
pub record VolumeCreate : Type 0 where
  pub name : Bytes
  pub driver : Bytes
  pub driver_opts : List (Bytes × Bytes)
  pub labels : List (Bytes × Bytes)

pub record Host : Type 0 where
  -- `json.Unmarshal` into the wire struct of `decodeHostConfig`; `none` is an error.
  pub unmarshal_host_config : Bytes → Option HostConfig
  -- The same for `decodeVolumeCreate`.
  pub unmarshal_volume_create : Bytes → Option VolumeCreate
  -- `os.Getwd`.
  pub getwd : Result Bytes
  -- `filepath.EvalSymlinks`, on the file system as it is during one evaluation.
  pub eval_symlinks : Bytes → Result Bytes
  -- `strconv.Quote`, behind `%q`.
  pub quote : Bytes → Bytes
  -- In which order `n` goroutines of one group write their results.
  pub schedule : ℕ → List ℕ

-- `errgroup.Group.Wait` returns when every goroutine has finished.
abbrev pub WaitsForAll : Host → Type 0
WaitsForAll host = (n i : ℕ) → i < n → Elem i (host.schedule n)
