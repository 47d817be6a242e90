-- ===== src/GoStd/Runes.antt =====
-- `for _, r := range s`: the runes of a string, with U+FFFD for each byte that starts no valid
-- UTF-8 sequence; and `unicode.IsControl`, `unicode.IsSpace`.
pub mod Laws
pub mod Utf8
pub mod RoundTrip
use authzmtls.Common.{
  ℕ, zero, suc, ◌+◌, ◌-◌, ◌*◌, Bool, ◌&&◌, ◌||◌, List, [], ◌∷◌, Bytes, ltb, leb, ◌==◌,
  if◌then◌else◌,
}

abbrev pub within : ℕ → ℕ → ℕ → Bool
within lo hi c = leb lo c && leb c hi

abbrev pub rune_error : ℕ
rune_error = 0xFFFD

-- A decoded rune, and how many bytes it takes behind its first.
abbrev pub Decoded : Type 0
Decoded = ℕ × ℕ

abbrev invalid : Decoded
invalid = (rune_error, 0)

-- The range of the second byte depends on the first (`acceptRanges` of unicode/utf8).
abbrev second_ok : ℕ → ℕ → Bool
second_ok b0 b1 =
    if b0 == 0xE0
    then within 0xA0 0xBF b1
    else if b0 == 0xED
    then within 0x80 0x9F b1
    else if b0 == 0xF0
    then within 0x90 0xBF b1
    else if b0 == 0xF4
    then within 0x80 0x8F b1
    else within 0x80 0xBF b1

decode_two : ℕ → Bytes → Decoded
decode_two b0 (b1 ∷ _) =
    if within 0x80 0xBF b1 then ((b0 - 0xC0) * 64 + (b1 - 0x80), 1) else invalid
decode_two b0 _ = invalid

decode_three : ℕ → Bytes → Decoded
decode_three b0 (b1 ∷ b2 ∷ _) =
    if second_ok b0 b1 && within 0x80 0xBF b2
    then ((b0 - 0xE0) * 4096 + (b1 - 0x80) * 64 + (b2 - 0x80), 2)
    else invalid
decode_three b0 _ = invalid

decode_four : ℕ → Bytes → Decoded
decode_four b0 (b1 ∷ b2 ∷ b3 ∷ _) =
    if second_ok b0 b1 && within 0x80 0xBF b2 && within 0x80 0xBF b3
    then ((b0 - 0xF0) * 262144 + (b1 - 0x80) * 4096 + (b2 - 0x80) * 64 + (b3 - 0x80), 3)
    else invalid
decode_four b0 _ = invalid

-- `utf8.DecodeRuneInString` on a non-empty string.
pub decode_rune : ℕ → Bytes → Decoded
decode_rune b rest =
    if ltb b 0x80
    then (b, 0)
    else if within 0xC2 0xDF b
    then decode_two b rest
    else if within 0xE0 0xEF b
    then decode_three b rest
    else if within 0xF0 0xF4 b
    then decode_four b rest
    else invalid

-- The runes behind `k` bytes that belong to the last one.
pub runes_from : ℕ → Bytes → List ℕ
runes_from k [] = []
runes_from (suc k) (b ∷ s) = runes_from k s
runes_from zero (b ∷ s) = let d = decode_rune b s in d.0 ∷ runes_from d.1 s

unfoldable pub runes : Bytes → List ℕ
unfolding runes_from decode_rune decode_two decode_three decode_four
runes = runes_from 0

abbrev pub is_control : ℕ → Bool
is_control r = ltb r 0x20 || within 0x7F 0x9F r

-- The UTF-8 forms of the runes for which `unicode.IsSpace` holds.
abbrev pub spaces : List Bytes
spaces =
    (9 ∷ [])
    ∷ (10 ∷ [])
    ∷ (11 ∷ [])
    ∷ (12 ∷ [])
    ∷ (13 ∷ [])
    ∷ (32 ∷ [])
    ∷ (0xC2 ∷ 0x85 ∷ [])
    ∷ (0xC2 ∷ 0xA0 ∷ [])
    ∷ (0xE1 ∷ 0x9A ∷ 0x80 ∷ [])
    ∷ (0xE2 ∷ 0x80 ∷ 0x80 ∷ [])
    ∷ (0xE2 ∷ 0x80 ∷ 0x81 ∷ [])
    ∷ (0xE2 ∷ 0x80 ∷ 0x82 ∷ [])
    ∷ (0xE2 ∷ 0x80 ∷ 0x83 ∷ [])
    ∷ (0xE2 ∷ 0x80 ∷ 0x84 ∷ [])
    ∷ (0xE2 ∷ 0x80 ∷ 0x85 ∷ [])
    ∷ (0xE2 ∷ 0x80 ∷ 0x86 ∷ [])
    ∷ (0xE2 ∷ 0x80 ∷ 0x87 ∷ [])
    ∷ (0xE2 ∷ 0x80 ∷ 0x88 ∷ [])
    ∷ (0xE2 ∷ 0x80 ∷ 0x89 ∷ [])
    ∷ (0xE2 ∷ 0x80 ∷ 0x8A ∷ [])
    ∷ (0xE2 ∷ 0x80 ∷ 0xA8 ∷ [])
    ∷ (0xE2 ∷ 0x80 ∷ 0xA9 ∷ [])
    ∷ (0xE2 ∷ 0x80 ∷ 0xAF ∷ [])
    ∷ (0xE2 ∷ 0x81 ∷ 0x9F ∷ [])
    ∷ (0xE3 ∷ 0x80 ∷ 0x80 ∷ [])
    ∷ []
