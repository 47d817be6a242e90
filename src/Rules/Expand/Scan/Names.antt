-- ===== src/Rules/Expand/Scan/Names.antt =====
-- The names that the scanner finds are identifiers.
use authzmtls.Common.{
  ℕ, true, ◌≡◌, ◌≢◌, refl, [], ◌∷◌, ◌++◌, Bytes, arith, All, All-append, Bool-cases, inl, inr,
  Lacks, All-map,
}
use authzmtls.Rules.Expand.Scan.{
  Token, byte, var, Mode, outside, behind_dollar, in_name, is_name_start, is_name_char,
  scan_outside, scan_step, flush, scan, tokens,
}

abbrev IsName : Bytes → Type 0
IsName n = (n ≢ []) × All (λ c. is_name_char c ≡ true) n

abbrev NameOf : Token → Type 0
NameOf (byte b) = Unit
NameOf (var n) = IsName n

abbrev ModeOk : Mode → Type 0
ModeOk (in_name n) = IsName n
ModeOk outside = Unit
ModeOk behind_dollar = Unit

scan_outside-NameOf : (c : ℕ) → All NameOf (scan_outside c).0 × ModeOk (scan_outside c).1
unfolding scan_outside
scan_outside-NameOf c = ground arith

IsName-concat : (n : Bytes) (c : ℕ) → IsName n → is_name_char c ≡ true → IsName (n ++ c ∷ [])
IsName-concat [] c h k = absurd (h.0 refl)
IsName-concat (b ∷ n) c h k = (ground arith, All-append _ (b ∷ n) (c ∷ []) h.1 (k, tt))

scan_step-NameOf :
    (m : Mode) (c : ℕ) → ModeOk m → All NameOf (scan_step m c).0 × ModeOk (scan_step m c).1
unfolding scan_step is_name_char
scan_step-NameOf outside c h = scan_outside-NameOf c
scan_step-NameOf behind_dollar c h = elim (Bool-cases (is_name_start c)) [
  | inl start ↦ rw start (tt, (ground arith, (rw start, tt)))
  | inr other ↦ rw other ((tt, (scan_outside-NameOf c).0), (scan_outside-NameOf c).1)
]
scan_step-NameOf (in_name n) c h = elim (Bool-cases (is_name_char c)) [
  | inl more ↦ rw more (tt, IsName-concat n c h more)
  | inr done ↦ rw done ((h, (scan_outside-NameOf c).0), (scan_outside-NameOf c).1)
]

scan-NameOf : (m : Mode) (s : Bytes) → ModeOk m → All NameOf (scan m s)
unfolding scan flush
scan-NameOf outside [] h = tt
scan-NameOf behind_dollar [] h = (tt, tt)
scan-NameOf (in_name n) [] h = (h, tt)
scan-NameOf m (c ∷ s) h =
    let (out, rest) = scan_step-NameOf m c h in
    All-append NameOf (scan_step m c).0 (scan (scan_step m c).1 s) out
      (scan-NameOf (scan_step m c).1 s rest)

-- Every placeholder's name is a non-empty run of name characters.
pub tokens-NameOf : (s : Bytes) → All NameOf (tokens s)
unfolding tokens
tokens-NameOf s = scan-NameOf outside s tt

-- A token's own text holds no slash beside the bytes outside placeholders.
abbrev pub NameLacksSlash : Token → Type 0
NameLacksSlash (byte b) = Unit
NameLacksSlash (var n) = Lacks b'/' n

name_char-ne-slash : (c : ℕ) → is_name_char c ≡ true → c ≢ b'/'
unfolding is_name_char is_name_start
name_char-ne-slash c h = ground arith

NameOf-lacks : (t : Token) → NameOf t → NameLacksSlash t
NameOf-lacks (byte b) h = tt
NameOf-lacks (var n) h = All-map _ _ name_char-ne-slash n h.1

pub tokens-NameLacksSlash : (s : Bytes) → All NameLacksSlash (tokens s)
tokens-NameLacksSlash s = All-map NameOf NameLacksSlash NameOf-lacks (tokens s) (tokens-NameOf s)
