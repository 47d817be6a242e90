-- ===== src/GoStd/Runes/RoundTrip.antt =====
-- The runes of a string are encoded and read back.
use authzmtls.Common.{
  ℕ, zero, suc, ◌+◌, ◌≤◌, ◌<◌, ◌≡◌, ◌⊎◌, refl, ap, ◌∙◌, List, [], ◌∷◌, ◌++◌, Bytes, arith, All,
  length,
}
use Prim.Native.Nat.{◌/◌, ◌%◌}
use native.Mathlib.Decide.{dec_lt}
use authzmtls.GoStd.Runes.Laws.{decode_rune_ascii}
use authzmtls.GoStd.Runes.{decode_two, decode_three, decode_four, decode_rune, runes_from, runes}
use authzmtls.GoStd.Runes.Utf8.{encode_rune, encode}

-- The code points that UTF-8 encodes.
abbrev pub IsScalar : ℕ → Type 0
IsScalar r = (r < 0xD800) ⊎ ((0xDFFF < r) × (r < 0x110000))

decode_two-IsScalar : (b : ℕ) (s : Bytes) → 0xC2 ≤ b → b ≤ 0xDF → IsScalar (decode_two b s).0
unfolding decode_two
decode_two-IsScalar b [] h k = ground arith
decode_two-IsScalar b (b1 ∷ s) h k = ground arith

decode_three-IsScalar : (b : ℕ) (s : Bytes) → 0xE0 ≤ b → b ≤ 0xEF → IsScalar (decode_three b s).0
unfolding decode_three
decode_three-IsScalar b (b1 ∷ b2 ∷ s) h k = ground arith
decode_three-IsScalar b _ h k = ground arith

decode_four-IsScalar : (b : ℕ) (s : Bytes) → 0xF0 ≤ b → b ≤ 0xF4 → IsScalar (decode_four b s).0
unfolding decode_four
decode_four-IsScalar b (b1 ∷ b2 ∷ b3 ∷ s) h k = ground arith
decode_four-IsScalar b _ h k = ground arith

decode_rune-IsScalar : (b : ℕ) (s : Bytes) → IsScalar (decode_rune b s).0
unfolding decode_rune
decode_rune-IsScalar b s =
    ground (arith, decode_two-IsScalar b s, decode_three-IsScalar b s, decode_four-IsScalar b s)

runes_from-IsScalar : (k : ℕ) (s : Bytes) → All IsScalar (runes_from k s)
unfolding runes_from
runes_from-IsScalar k [] = tt
runes_from-IsScalar (suc k) (b ∷ s) = runes_from-IsScalar k s
runes_from-IsScalar zero (b ∷ s) =
    (decode_rune-IsScalar b s, runes_from-IsScalar (decode_rune b s).1 s)

pub runes-IsScalar : (s : Bytes) → All IsScalar (runes s)
unfolding runes
runes-IsScalar s = runes_from-IsScalar 0 s

read_two :
    (r : ℕ) (s : Bytes)
    → 0x80 ≤ r
    → r < 0x800
    → decode_two (0xC0 + r / 64) ((0x80 + r % 64) ∷ s) ≡ (r, 1)
unfolding decode_two
read_two r s lo hi = ground arith

-- The three-byte and the four-byte codes.
read_three :
    (r : ℕ) (s : Bytes)
    → 0x800 ≤ r
    → r < 0x10000
    → IsScalar r
    → decode_three (0xE0 + r / 4096) ((0x80 + r / 64 % 64) ∷ (0x80 + r % 64) ∷ s) ≡ (r, 2)
unfolding decode_three
read_three r s lo hi h = ground arith

read_four :
    (r : ℕ) (s : Bytes)
    → 0x10000 ≤ r
    → r < 0x110000
    → decode_four
        (0xF0 + r / 262144)
        ((0x80 + r / 4096 % 64) ∷ (0x80 + r / 64 % 64) ∷ (0x80 + r % 64) ∷ s)
      ≡ (r, 3)
unfolding decode_four
read_four r s lo hi = ground arith

decode_rune_two : (b : ℕ) (s : Bytes) → 0xC2 ≤ b → b ≤ 0xDF → decode_rune b s ≡ decode_two b s
unfolding decode_rune
decode_rune_two b s lo hi = ground arith

decode_rune_three : (b : ℕ) (s : Bytes) → 0xE0 ≤ b → b ≤ 0xEF → decode_rune b s ≡ decode_three b s
unfolding decode_rune
decode_rune_three b s lo hi = ground arith

decode_rune_four : (b : ℕ) (s : Bytes) → 0xF0 ≤ b → b ≤ 0xF4 → decode_rune b s ≡ decode_four b s
unfolding decode_rune
decode_rune_four b s lo hi = ground arith

-- A text that starts with the code of a rune and `k` further bytes.
read_code :
    (r b : ℕ) (tail s : Bytes)
    → decode_rune b (tail ++ s) ≡ (r, length tail)
    → runes_from 0 (b ∷ (tail ++ s)) ≡ r ∷ runes_from 0 s
unfolding runes_from
read_code r b tail s e = rw e (ap (◌∷◌ r) (skip tail))
  where
    skip : (t : Bytes) → runes_from (length t) (t ++ s) ≡ runes_from 0 s
    skip [] = refl
    skip (x ∷ t) = skip t

encoded_one : (r : ℕ) → r < 0x80 → encode_rune r ≡ r ∷ []
unfolding encode_rune
encoded_one r h = ground arith

encoded_two :
    (r : ℕ) → 0x80 ≤ r → r < 0x800 → encode_rune r ≡ (0xC0 + r / 64) ∷ (0x80 + r % 64) ∷ []
unfolding encode_rune
encoded_two r lo hi = ground arith

encoded_three :
    (r : ℕ)
    → 0x800 ≤ r
    → r < 0x10000
    → IsScalar r
    → encode_rune r ≡ (0xE0 + r / 4096) ∷ (0x80 + r / 64 % 64) ∷ (0x80 + r % 64) ∷ []
unfolding encode_rune
encoded_three r lo hi h = ground arith

encoded_four :
    (r : ℕ)
    → 0x10000 ≤ r
    → r < 0x110000
    → encode_rune r
      ≡ (0xF0 + r / 262144) ∷ (0x80 + r / 4096 % 64) ∷ (0x80 + r / 64 % 64) ∷ (0x80 + r % 64) ∷ []
unfolding encode_rune
encoded_four r lo hi = ground arith

runes_from-encode_rune :
    (r : ℕ) (s : Bytes) → IsScalar r → runes_from 0 (encode_rune r ++ s) ≡ r ∷ runes_from 0 s
runes_from-encode_rune r s h = elim (dec_lt r 0x80) [
  | yes a ↦ rw (encoded_one r a) (read_code r r [] s (decode_rune_ascii r s (omega arith)))
  | no a ↦ elim (dec_lt r 0x800) [
    | yes b ↦ rw (encoded_two r (omega arith) b) (
        read_code r _ (_ ∷ []) s
          (decode_rune_two _ _ (omega arith) (omega arith) ∙ read_two r s (omega arith) b))
    | no b ↦ elim (dec_lt r 0x10000) [
      | yes c ↦ rw (encoded_three r (omega arith) c h) (
          read_code r _ (_ ∷ _ ∷ []) s
            (decode_rune_three _ _ (omega arith) (omega arith) ∙ read_three r s (omega arith) c h))
      | no c ↦ rw (encoded_four r (omega arith) (ground arith)) (
          read_code r _ (_ ∷ _ ∷ _ ∷ []) s (
            decode_rune_four _ _ (omega arith) (ground arith)
            ∙ read_four r s (omega arith) (ground arith)))
    ]
  ]
]

-- The runes of an encoded list of runes are the list.
pub runes-encode : (rs : List ℕ) → All IsScalar rs → runes (encode rs) ≡ rs
unfolding runes encode runes_from
runes-encode [] h = refl
runes-encode (r ∷ rs) h =
    runes_from-encode_rune r (encode rs) h.0 ∙ ap (◌∷◌ r) (runes-encode rs h.1)
