-- ===== src/GoStd/Runes/Laws.antt =====
-- An ASCII byte occurs in a string exactly when it occurs among its runes.
use authzmtls.Common.{
  ℕ, zero, suc, ◌≤◌, ◌<◌, ◌≡◌, ap, inl, inr, refl, [], ◌∷◌, Bytes, arith, Elem, All,
}
use authzmtls.GoStd.Runes.{decode_two, decode_three, decode_four, decode_rune, runes_from, runes}

-- The first `k` bytes are none of ASCII's.
abbrev High : ℕ → Bytes → Type 0
High zero s = Unit
High (suc k) [] = Unit
High (suc k) (b ∷ s) = (128 ≤ b) × High k s

decode_two-High : (b : ℕ) (s : Bytes) → High (decode_two b s).1 s
unfolding decode_two
decode_two-High b [] = tt
decode_two-High b (b1 ∷ s) = ground arith

decode_three-High : (b : ℕ) (s : Bytes) → High (decode_three b s).1 s
unfolding decode_three
decode_three-High b (b1 ∷ b2 ∷ s) = ground arith
decode_three-High b _ = tt

decode_four-High : (b : ℕ) (s : Bytes) → High (decode_four b s).1 s
unfolding decode_four
decode_four-High b (b1 ∷ b2 ∷ b3 ∷ s) = ground arith
decode_four-High b _ = tt

decode_rune-High : (b : ℕ) (s : Bytes) → High (decode_rune b s).1 s
unfolding decode_rune
decode_rune-High b s =
    ground (arith, decode_two-High b s, decode_three-High b s, decode_four-High b s)

pub decode_rune_ascii : (b : ℕ) (s : Bytes) → b < 128 → decode_rune b s ≡ (b, 0)
unfolding decode_rune
decode_rune_ascii b s h = ground arith

runes_from-Elem : (c k : ℕ) (s : Bytes) → c < 128 → High k s → Elem c s → Elem c (runes_from k s)
unfolding runes_from
runes_from-Elem c k [] h hi m = absurd m
runes_from-Elem c (suc k) (b ∷ s) h hi (inl e) = absurd (omega arith)
runes_from-Elem c (suc k) (b ∷ s) h hi (inr m) = runes_from-Elem c k s h hi.1 m
runes_from-Elem c zero (b ∷ s) h hi (inl e) = inl (cc (decode_rune_ascii b s (omega arith)))
runes_from-Elem c zero (b ∷ s) h hi (inr m) =
    inr (runes_from-Elem c (decode_rune b s).1 s h (decode_rune-High b s) m)

-- No ASCII byte is lost when a string is read rune by rune.
pub runes-Elem : (c : ℕ) (s : Bytes) → c < 128 → Elem c s → Elem c (runes s)
unfolding runes
runes-Elem c s h m = runes_from-Elem c 0 s h tt m

-- A text of ASCII bytes is its own runes.
pub runes_ascii : (s : Bytes) → All (λ b. b < 128) s → runes s ≡ s
unfolding runes runes_from
runes_ascii [] h = refl
runes_ascii (b ∷ s) h = rw (decode_rune_ascii b s h.0) (ap (◌∷◌ b) (runes_ascii s h.1))

decode_two-High_rune : (b : ℕ) (s : Bytes) → 0xC2 ≤ b → 128 ≤ (decode_two b s).0
unfolding decode_two
decode_two-High_rune b [] h = omega arith
decode_two-High_rune b (b1 ∷ s) h = ground arith

decode_three-High_rune : (b : ℕ) (s : Bytes) → 0xE0 ≤ b → 128 ≤ (decode_three b s).0
unfolding decode_three
decode_three-High_rune b (b1 ∷ b2 ∷ s) h = ground arith
decode_three-High_rune b _ h = omega arith

decode_four-High_rune : (b : ℕ) (s : Bytes) → 0xF0 ≤ b → 128 ≤ (decode_four b s).0
unfolding decode_four
decode_four-High_rune b (b1 ∷ b2 ∷ b3 ∷ s) h = ground arith
decode_four-High_rune b _ h = omega arith

decode_rune-High_rune : (b : ℕ) (s : Bytes) → 128 ≤ b → 128 ≤ (decode_rune b s).0
unfolding decode_rune
decode_rune-High_rune b s h =
    ground (arith, decode_two-High_rune b s, decode_three-High_rune b s, decode_four-High_rune b s)

-- A text whose runes are ASCII is ASCII.
pub ascii_of_runes : (s : Bytes) → All (λ r. r < 128) (runes s) → All (λ b. b < 128) s
unfolding runes runes_from
ascii_of_runes [] h = tt
ascii_of_runes (b ∷ s) h =
    let low : b < 128 = ground (arith, decode_rune-High_rune b s) in
    (low, ascii_of_runes s (rw (decode_rune_ascii b s low) at h).1)
