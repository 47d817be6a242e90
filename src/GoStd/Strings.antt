-- ===== src/GoStd/Strings.antt =====
-- The functions of Go's `strings` that the program calls, for separators of one byte.
pub mod Split
pub mod Trim
use mathlib.Core.List.{reverse}
use authzmtls.Common.{
  ℕ, zero, suc, Bool, true, false, not, ◌&&◌, List, [], ◌∷◌, ◌++◌, Option, none, some, Bytes, ◌==◌,
  length, map, if◌then◌else◌,
}
use authzmtls.GoStd.Runes.{spaces}

-- `strings.IndexByte`; `none` is -1.
pub index_byte : Bytes → ℕ → Option ℕ
index_byte [] c = none
index_byte (b ∷ s) c =
    if b == c then some 0 else elim (index_byte s c) [ none ↦ none | some i ↦ some (suc i) ]

pub take : ℕ → Bytes → Bytes
take zero s = []
take (suc n) [] = []
take (suc n) (b ∷ s) = b ∷ take n s

-- `if i := strings.IndexByte(s, c); i >= 0 { s = s[:i] }`
unfoldable pub before : ℕ → Bytes → Bytes
unfolding index_byte take
before c s = elim (index_byte s c) [ none ↦ s | some i ↦ take i s ]

pub cons_head : ℕ → List Bytes → List Bytes
cons_head b [] = (b ∷ []) ∷ []
cons_head b (p ∷ ps) = (b ∷ p) ∷ ps

-- `strings.Split`
unfoldable pub split : ℕ → Bytes → List Bytes
unfolding cons_head
split c [] = [] ∷ []
split c (b ∷ s) = if b == c then [] ∷ split c s else cons_head b (split c s)

-- `strings.Join`
unfoldable pub join : Bytes → List Bytes → Bytes
join sep [] = []
join sep (p ∷ []) = p
join sep (p ∷ q ∷ ps) = p ++ (sep ++ join sep (q ∷ ps))

unfoldable pub has_prefix : Bytes → Bytes → Bool
has_prefix s [] = true
has_prefix [] (c ∷ p) = false
has_prefix (b ∷ s) (c ∷ p) = b == c && has_prefix s p

pub trim_left : ℕ → Bytes → Bytes
trim_left c [] = []
trim_left c (b ∷ s) = if b == c then trim_left c s else b ∷ s

abbrev is_empty : Bytes → Bool
is_empty [] = true
is_empty (_ ∷ _) = false

pub trim_right : ℕ → Bytes → Bytes
trim_right c [] = []
trim_right c (b ∷ s) = let t = trim_right c s in if b == c && is_empty t then [] else b ∷ t

-- `strings.Trim(s, string(c))`
unfoldable pub trim : ℕ → Bytes → Bytes
unfolding trim_left trim_right
trim c s = trim_right c (trim_left c s)

-- `strings.TrimSuffix(s, string(c))`
unfoldable pub trim_suffix : ℕ → Bytes → Bytes
trim_suffix c [] = []
trim_suffix c (b ∷ []) = if b == c then [] else b ∷ []
trim_suffix c (b ∷ d ∷ s) = b ∷ trim_suffix c (d ∷ s)

-- How many bytes the first of these forms takes at the front; 0 if none stands there.
form_length : List Bytes → Bytes → ℕ
form_length [] s = 0
form_length (f ∷ fs) s = if has_prefix s f then length f else form_length fs s

-- Drops the forms at the front, and the `k` bytes that belong to the last of them.
trim_forms : List Bytes → ℕ → Bytes → Bytes
trim_forms fs k [] = []
trim_forms fs (suc k) (b ∷ s) = trim_forms fs k s
trim_forms fs zero (b ∷ s) = elim (form_length fs (b ∷ s)) [
  | zero ↦ b ∷ s
  | suc k ↦ trim_forms fs k s
]

-- `strings.TrimSpace`: white space in its UTF-8 forms, off the front and, backwards, off the end.
unfoldable pub trim_space : Bytes → Bytes
unfolding trim_forms form_length has_prefix
trim_space s = reverse (trim_forms (map reverse spaces) 0 (reverse (trim_forms spaces 0 s)))
