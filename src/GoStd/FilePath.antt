-- ===== src/GoStd/FilePath.antt =====
-- `path/filepath` on Unix, lexically: `Clean`, `IsAbs`, and `Join` of two elements.
pub mod Laws
use mathlib.Core.List.{reverse}
use authzmtls.Common.{
  ℕ, Bool, true, false, not, ◌&&◌, ◌||◌, List, [], ◌∷◌, ◌++◌, Bytes, codes, bytes_eq, any, ◌==◌,
  if◌then◌else◌,
}
use authzmtls.GoStd.Strings.{split, join, has_prefix}

abbrev pub slash : ℕ
slash = b'/'

-- `filepath.IsAbs`
unfoldable pub is_abs : Bytes → Bool
unfolding has_prefix
is_abs p = has_prefix p (slash ∷ [])

abbrev pub dot : Bytes
dot = b'.' ∷ []

abbrev pub dot_dot : Bytes
dot_dot = b'.' ∷ b'.' ∷ []

-- `..` removes the component above it; at the root it is dropped, and at the start of a relative
-- path it stays. The stack has the last component at its head.
parent : Bool → List Bytes → List Bytes
parent rooted [] = if rooted then [] else dot_dot ∷ []
parent rooted (c ∷ stack) = if bytes_eq c dot_dot then dot_dot ∷ c ∷ stack else stack

abbrev skipped : Bytes → Bool
skipped c = bytes_eq c [] || bytes_eq c dot

pub resolve : Bool → List Bytes → Bytes → List Bytes
unfolding parent
resolve rooted stack c =
    if skipped c then stack else if bytes_eq c dot_dot then parent rooted stack else c ∷ stack

unfoldable pub resolve_all : Bool → List Bytes → List Bytes → List Bytes
resolve_all rooted stack [] = stack
resolve_all rooted stack (c ∷ cs) = resolve_all rooted (resolve rooted stack c) cs

-- The path with these components.
unfoldable pub render : Bool → List Bytes → Bytes
unfolding join
render true cs = slash ∷ join (slash ∷ []) cs
render false [] = dot
render false (c ∷ cs) = join (slash ∷ []) (c ∷ cs)

-- `filepath.Clean`
unfoldable pub clean : Bytes → Bytes
unfolding is_abs split resolve_all resolve render bytes_eq
clean p = let rooted = is_abs p in render rooted (reverse (resolve_all rooted [] (split slash p)))

-- `filepath.Join(dir, p)`: empty elements are ignored.
unfoldable pub join_path : Bytes → Bytes → Bytes
unfolding clean
join_path [] [] = []
join_path [] (b ∷ p) = clean (b ∷ p)
join_path (d ∷ dir) [] = clean (d ∷ dir)
join_path (d ∷ dir) (b ∷ p) = clean ((d ∷ dir) ++ (slash ∷ (b ∷ p)))

-- The path up to its last slash, that included.
through_last_slash : Bytes → Bytes
through_last_slash [] = []
through_last_slash (b ∷ p) = elim (through_last_slash p) [
  | c ∷ q ↦ b ∷ c ∷ q
  | [] ↦ if b == slash then b ∷ [] else []
]

-- `filepath.Dir`
unfoldable pub dir : Bytes → Bytes
unfolding clean through_last_slash
dir p = clean (through_last_slash p)

-- `filepath.Ext`
unfoldable pub ext : Bytes → Bytes
ext [] = []
ext (b ∷ p) = elim (ext p) [
  | c ∷ e ↦ c ∷ e
  | [] ↦ if b == b'.' && not (any (λ c. c == slash) p) then b ∷ p else []
]
