-- ===== src/Config/Files.antt =====
-- What a load of the configuration takes from outside: the file system, the environment, and
-- `time.ParseDuration`.
use authzmtls.Common.{ℤ, Bool, List, Option, Bytes, Result}

-- `os.ReadDir`: the entries sorted by name, each with `IsDir`.
pub data DirListing : Type 0 where
  listed : List (Bytes × Bool) → DirListing
  not_exist : DirListing
  failed : Bytes → DirListing

-- The file system and the environment of the process.
pub record Files : Type 0 where
  pub read_file : Bytes → Result Bytes
  pub read_dir : Bytes → DirListing
  pub lookup_env : Bytes → Option Bytes
  pub parse_duration : Bytes → Result ℤ
