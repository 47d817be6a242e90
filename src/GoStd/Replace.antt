-- ===== src/GoStd/Replace.antt =====
-- Go's `strings.ReplaceAll`.
pub mod Structure
use authzmtls.Common.{
  ℕ, zero, suc, Bool, true, false, List, [], ◌∷◌, ◌++◌, Bytes, length, if◌then◌else◌,
}
use authzmtls.GoStd.Strings.{has_prefix}

-- What is left to skip of an occurrence, its first byte skipped.
abbrev length_tail : Bytes → ℕ
length_tail [] = 0
length_tail (b ∷ s) = length s

-- `skip` bytes belong to the occurrence of `old` that was just replaced.
unfoldable pub replace_from : ℕ → Bytes → Bytes → Bytes → Bytes
unfolding has_prefix
replace_from skip [] old new = []
replace_from (suc skip) (b ∷ s) old new = replace_from skip s old new
replace_from zero (b ∷ s) old new =
    let found = has_prefix (b ∷ s) old in
    let rest = replace_from (if found then length_tail old else 0) s old new in
    if found then new ++ rest else b ∷ rest

-- `strings.ReplaceAll(s, old, new)`, for an `old` that is not empty.
unfoldable pub replace_all : Bytes → Bytes → Bytes → Bytes
unfolding replace_from
replace_all s old new = replace_from 0 s old new
