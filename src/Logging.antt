-- ===== src/Logging.antt =====
-- internal/logging/logging.go: the five levels and their names. The loggers themselves are slog's.
pub mod Laws
use authzmtls.Common.{
  ℕ, ℤ, pos, negsuc, ltb_ℤ, Bool, true, false, not, List, [], ◌∷◌, ◌++◌, Option, none, some, Bytes,
  codes, bytes_eq, lookup, Result, ok, fail, if◌then◌else◌,
}
use authzmtls.GoStd.Fmt.{Fmt}
use authzmtls.GoStd.Strings.{trim_space}

-- `slog.Level`.
abbrev pub Level : Type 0
Level = ℤ

abbrev pub level_trace : Level
level_trace = negsuc 7

abbrev pub level_debug : Level
level_debug = negsuc 3

abbrev pub level_info : Level
level_info = pos 0

abbrev pub level_warn : Level
level_warn = pos 4

abbrev pub level_error : Level
level_error = pos 8

-- `levelNames`.
abbrev pub level_names : List (Bytes × Level)
level_names =
    (codes "TRACE", level_trace)
    ∷ (codes "DEBUG", level_debug)
    ∷ (codes "INFO", level_info)
    ∷ (codes "WARN", level_warn)
    ∷ (codes "ERROR", level_error)
    ∷ []

-- `ParseLevel`.
unfoldable pub parse_level : Fmt → Bytes → Result Level
unfolding lookup trim_space
parse_level fmt name = elim (lookup (fmt.to_upper (trim_space name)) level_names) [
  | some level ↦ ok level
  | none ↦ fail (
      codes "logging: invalid level "
      ++ (fmt.quote name ++ codes " (want one of TRACE, DEBUG, INFO, WARN, ERROR)"))
]

-- `ValidLevelName`.
unfoldable pub valid_level_name : Fmt → Bytes → Bool
unfolding parse_level
valid_level_name fmt name = elim (parse_level fmt name) [ ok level ↦ true | fail e ↦ false ]

-- `levelName`.
unfoldable pub level_name : Level → Bytes
level_name l =
    if ltb_ℤ l level_debug
    then codes "TRACE"
    else if ltb_ℤ l level_info
    then codes "DEBUG"
    else if ltb_ℤ l level_warn
    then codes "INFO"
    else if ltb_ℤ l level_error
    then codes "WARN"
    else codes "ERROR"

-- `New`: the threshold of the logger.
unfoldable pub threshold : Fmt → Bytes → Level
unfolding parse_level
threshold fmt name = elim (parse_level fmt name) [ ok level ↦ level | fail e ↦ level_info ]

-- The value of a `slog.Attr`: a level, a string, or another one.
pub data AttrValue (V : Type 0) : Type 0 where
  a_level : Level → AttrValue V
  a_string : Bytes → AttrValue V
  another : V → AttrValue V

-- `replaceLevelAttr`, on the attribute's key and value; `slog.LevelKey` is `level`.
unfoldable pub replace_level_attr : {V : Type 0} → Bytes → AttrValue V → AttrValue V
unfolding level_name bytes_eq
replace_level_attr key (a_level l) =
    if not (bytes_eq key (codes "level")) then a_level l else a_string (level_name l)
replace_level_attr key (a_string s) = a_string s
replace_level_attr key (another v) = another v
