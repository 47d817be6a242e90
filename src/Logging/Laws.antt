-- ===== src/Logging/Laws.antt =====
-- The names of the levels, read back.
use authzmtls.Common.{
  ltb_ℤ, leb_ℤ, ◌≡◌, refl, inl, inr, Bool-cases, true, [], ◌∷◌, Bytes, codes, All, arith, ok, some,
  map, all, ltb, lookup, bytes_eq,
}
use authzmtls.GoStd.Fmt.{Fmt, UppersAscii, upper_byte}
use authzmtls.GoStd.Strings.{trim_space}
use authzmtls.Logging.{
  Level, level_trace, level_debug, level_info, level_warn, level_error, level_names, parse_level,
  level_name,
}

-- The level `m` is the highest of the five that is not above `l`, or the lowest if all are.
pub record Nearest (l m : Level) : Type 0 where
  pub below : leb_ℤ level_trace l ≡ true → leb_ℤ m l ≡ true
  pub highest :
      All
        (λ k. leb_ℤ k l ≡ true → leb_ℤ k m ≡ true)
        (level_trace ∷ level_debug ∷ level_info ∷ level_warn ∷ level_error ∷ [])

-- The name of a level, read again, is the nearest of the five.
module _ (fmt : Fmt) (upper : UppersAscii fmt) where
  parse_level-name :
      (name : Bytes) (l : Level)
      → all (λ b. ltb b 128) (trim_space name) ≡ true
      → lookup (map upper_byte (trim_space name)) level_names ≡ some l
      → parse_level fmt name ≡ ok l
  unfolding parse_level
  parse_level-name name l ascii found = rw (upper (trim_space name) ascii, found) refl

  trace_name : parse_level fmt (codes "TRACE") ≡ ok level_trace
  unfolding trim_space lookup bytes_eq
  trace_name = parse_level-name (codes "TRACE") level_trace refl refl

  debug_name : parse_level fmt (codes "DEBUG") ≡ ok level_debug
  unfolding trim_space lookup bytes_eq
  debug_name = parse_level-name (codes "DEBUG") level_debug refl refl

  info_name : parse_level fmt (codes "INFO") ≡ ok level_info
  unfolding trim_space lookup bytes_eq
  info_name = parse_level-name (codes "INFO") level_info refl refl

  warn_name : parse_level fmt (codes "WARN") ≡ ok level_warn
  unfolding trim_space lookup bytes_eq
  warn_name = parse_level-name (codes "WARN") level_warn refl refl

  error_name : parse_level fmt (codes "ERROR") ≡ ok level_error
  unfolding trim_space lookup bytes_eq
  error_name = parse_level-name (codes "ERROR") level_error refl refl

  -- The name that is printed for a level is read back as the highest of the five levels that is not
  -- above it, and as TRACE for a level below them all.
  pub level_name-Nearest :
      (l : Level) → (m : Level) × (parse_level fmt (level_name l) ≡ ok m) × Nearest l m
  unfolding level_name
  level_name-Nearest l = elim (Bool-cases (ltb_ℤ l level_debug)) [
    | inl a ↦ rw a (level_trace, trace_name, record { below = λ h. h; highest = ground arith })
    | inr b ↦ elim (Bool-cases (ltb_ℤ l level_info)) [
      | inl a ↦
          rw (b, a)
            (level_debug, debug_name, record { below = λ h. ground arith; highest = ground arith })
      | inr c ↦ elim (Bool-cases (ltb_ℤ l level_warn)) [
        | inl a ↦
            rw (b, c, a)
              (level_info, info_name, record { below = λ h. ground arith; highest = ground arith })
        | inr d ↦ elim (Bool-cases (ltb_ℤ l level_error)) [
          | inl a ↦
              rw (b, c, d, a)
                (
                  level_warn,
                  warn_name,
                  record { below = λ h. ground arith; highest = ground arith },
                )
          | inr e ↦
              rw (b, c, d, e)
                (
                  level_error,
                  error_name,
                  record { below = λ h. ground arith; highest = ground arith },
                )
        ]
      ]
    ]
  ]
