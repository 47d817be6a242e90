-- ===== src/Datasources/Names.antt =====
-- internal/datasources/ldap/identity.go: `splitOnUnescapedCommas` and `normalizeSubjectDN`, on the
-- bytes of a subject's distinguished name.
pub mod Laws
use mathlib.Core.List.{reverse}
use authzmtls.Common.{ℕ, Bool, true, false, List, [], ◌∷◌, ◌++◌, Bytes, ◌==◌, if◌then◌else◌}
use authzmtls.GoStd.Strings.{join}

-- The variables of the loop.
pub record Scan : Type 0 where
  pub parts : List Bytes
  pub current : Bytes
  pub escaped : Bool

abbrev pub comma : ℕ
comma = b','

abbrev pub backslash : ℕ
backslash = 92

-- `current.WriteByte(c)`, with the next value of `escaped`.
abbrev pub write_byte : Scan → ℕ → Bool → Scan
write_byte st c escaped = record st { current = st.current ++ c ∷ []; escaped = escaped }

-- The body of the loop.
unfoldable pub scan_byte : Scan → ℕ → Scan
scan_byte st c =
    if st.escaped
    then write_byte st c false
    else if c == backslash
    then write_byte st c true
    else if c == comma
    then record { parts = st.parts ++ st.current ∷ []; current = []; escaped = false }
    else write_byte st c false

unfoldable pub scan_all : Scan → Bytes → Scan
scan_all st [] = st
scan_all st (c ∷ s) = scan_all (scan_byte st c) s

abbrev pub start : Scan
start = record { parts = []; current = []; escaped = false }

-- `splitOnUnescapedCommas`.
unfoldable pub split_on_unescaped_commas : Bytes → List Bytes
split_on_unescaped_commas s = let st = scan_all start s in st.parts ++ st.current ∷ []

-- `normalizeSubjectDN`.
unfoldable pub normalize_subject_dn : Bytes → Bytes
normalize_subject_dn subject = join (comma ∷ []) (reverse (split_on_unescaped_commas subject))
