-- ===== src/GoStd/Runes/Utf8.antt =====
-- A Go conversion of runes to a string: UTF-8, with U+FFFD for what is no code point.
use authzmtls.Common.{
  ℕ, ◌+◌, ◌*◌, ◌≤◌, ◌||◌, List, [], ◌∷◌, ◌++◌, Bytes, ltb, length, length-append, arith,
  if◌then◌else◌,
}
use Prim.Native.Nat.{◌/◌, ◌%◌}
use authzmtls.GoStd.Runes.{within}

-- `utf8.AppendRune` on a code point.
unfoldable pub encode_rune : ℕ → Bytes
encode_rune r =
    if ltb r 0x80
    then r ∷ []
    else if ltb r 0x800
    then (0xC0 + r / 64) ∷ (0x80 + r % 64) ∷ []
    else if within 0xD800 0xDFFF r || ltb 0x10FFFF r
    then 0xEF ∷ 0xBF ∷ 0xBD ∷ []
    else if ltb r 0x10000
    then (0xE0 + r / 4096) ∷ (0x80 + r / 64 % 64) ∷ (0x80 + r % 64) ∷ []
    else (0xF0 + r / 262144) ∷ (0x80 + r / 4096 % 64) ∷ (0x80 + r / 64 % 64) ∷ (0x80 + r % 64) ∷ []

-- `string(runes)`.
unfoldable pub encode : List ℕ → Bytes
unfolding encode_rune
encode [] = []
encode (r ∷ rs) = encode_rune r ++ encode rs

length-encode_rune : (r : ℕ) → length (encode_rune r) ≤ 4
unfolding encode_rune
length-encode_rune r = ground arith

-- A rune takes four bytes at most.
pub length-encode : (rs : List ℕ) → length (encode rs) ≤ 4 * length rs
unfolding encode
length-encode [] = omega arith
length-encode (r ∷ rs) =
    omega (arith, length-append (encode_rune r) (encode rs), length-encode_rune r, length-encode rs)
