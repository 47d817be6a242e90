-- ===== src/Rules/Canonical.antt =====
-- internal/rules/mounts.go: `Canonicalize`.
pub mod Laws
use authzmtls.Common.{
  ℕ, Bool, true, false, List, [], ◌∷◌, ◌++◌, Bytes, codes, Result, ok, fail, ◌>>=◌, any,
  if◌then◌else◌,
}
use authzmtls.GoStd.Runes.{runes, is_control}
use authzmtls.GoStd.FilePath.{is_abs, clean, join_path}
use authzmtls.Rules.Host.{Host}

abbrev pub has_control : Bytes → Bool
has_control s = any is_control (runes s)

-- `fmt.Errorf(prefix + "%w", err)`
abbrev pub wrap {ℓ} : {A : Type ℓ} → Bytes → Result A → Result A
wrap prefix (ok a) = ok a
wrap prefix (fail e) = fail (prefix ++ e)

-- `checkNoControlChars`, with `ErrControlChar`.
unfoldable pub check_no_control_chars : Bytes → Result (Unit {0})
check_no_control_chars path =
    if has_control path
    then fail (codes "allowlist: path contains a NUL or control character")
    else ok tt

abbrev pub abs_failed : Bytes
abs_failed = codes "allowlist: resolve absolute path: "

abbrev pub links_failed : Bytes
links_failed = codes "allowlist: resolve symlinks: "

module _ (host : Host) where
  -- `filepath.Abs`.
  unfoldable pub abs : Bytes → Result Bytes
  abs path = if is_abs path then ok (clean path) else host.getwd >>= (λ wd. ok (join_path wd path))

  -- `Canonicalize`.
  unfoldable pub canonicalize : Bytes → Result Bytes
  canonicalize path = do
    _ ← check_no_control_chars path
    absolute ← wrap abs_failed (abs path)
    resolved ← wrap links_failed (host.eval_symlinks absolute)
    ok (clean resolved)
