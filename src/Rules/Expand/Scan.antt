-- ===== src/Rules/Expand/Scan.antt =====
-- internal/rules/mounts.go: `placeholderPattern`, as a scanner, and what it finds.
pub mod Names
use authzmtls.Common.{
  ℕ, Bool, true, false, ◌||◌, ◌≡◌, refl, sym, ap, ◌∙◌, ◌≢◌, List, [], ◌∷◌, ◌++◌, append-nil,
  append_assoc, Bytes, ◌==◌, ==_iff, arith, All, Bool-cases, inl, inr, if◌then◌else◌,
}
use authzmtls.GoStd.Runes.{within}

pub data Token : Type 0 where
  byte : ℕ → Token
  var : Bytes → Token

-- `[A-Za-z_]`
unfoldable pub is_name_start : ℕ → Bool
is_name_start c = within b'A' b'Z' c || within b'a' b'z' c || c == b'_'

-- `[A-Za-z0-9_]`
unfoldable pub is_name_char : ℕ → Bool
unfolding is_name_start
is_name_char c = is_name_start c || within b'0' b'9' c

pub data Mode : Type 0 where
  outside behind_dollar : Mode
  in_name : Bytes → Mode

scan_outside : ℕ → List Token × Mode
scan_outside c = if c == b'$' then ([], behind_dollar) else (byte c ∷ [], outside)

-- The tokens that are complete once `c` is read, and the next mode.
scan_step : Mode → ℕ → List Token × Mode
unfolding scan_outside
scan_step outside c = scan_outside c
scan_step behind_dollar c =
    if is_name_start c
    then ([], in_name (c ∷ []))
    else (byte b'$' ∷ (scan_outside c).0, (scan_outside c).1)
scan_step (in_name n) c =
    if is_name_char c
    then ([], in_name (n ++ c ∷ []))
    else (var n ∷ (scan_outside c).0, (scan_outside c).1)

-- What is left at the end of the text.
flush : Mode → List Token
flush outside = []
flush behind_dollar = byte b'$' ∷ []
flush (in_name n) = var n ∷ []

scan : Mode → Bytes → List Token
scan m [] = flush m
scan m (c ∷ s) = let (out, m') = scan_step m c in out ++ scan m' s

-- All matches of the pattern, with the bytes between them.
unfoldable pub tokens : Bytes → List Token
unfolding scan scan_step flush is_name_start is_name_char
tokens = scan outside

-- The text of the tokens.
abbrev pub print : List Token → Bytes
print [] = []
print (byte b ∷ ts) = b ∷ print ts
print (var n ∷ ts) = b'$' ∷ (n ++ print ts)

print-append : (ts us : List Token) → print (ts ++ us) ≡ print ts ++ print us
print-append [] us = refl
print-append (byte b ∷ ts) us = ap (◌∷◌ b) (print-append ts us)
print-append (var n ∷ ts) us =
    ap (λ t. b'$' ∷ (n ++ t)) (print-append ts us)
    ∙ ap (◌∷◌ b'$') (sym (append_assoc n (print ts) (print us)))

-- The text that a mode holds back.
abbrev pending : Mode → Bytes
pending outside = []
pending behind_dollar = b'$' ∷ []
pending (in_name n) = b'$' ∷ n

print-scan_outside : (c : ℕ) → print (scan_outside c).0 ++ pending (scan_outside c).1 ≡ c ∷ []
unfolding scan_outside
print-scan_outside c = ground arith

-- Reading one byte: the tokens put out and the text held back are what was held back and it.
print-scan_step :
    (m : Mode) (c : ℕ) → print (scan_step m c).0 ++ pending (scan_step m c).1 ≡ pending m ++ c ∷ []
unfolding scan_step
print-scan_step outside c = print-scan_outside c
print-scan_step behind_dollar c = elim (Bool-cases (is_name_start c)) [
  | inl start ↦ rw start
  | inr other ↦ rw other (ap (◌∷◌ b'$') (print-scan_outside c))
]
print-scan_step (in_name n) c = elim (Bool-cases (is_name_char c)) [
  | inl more ↦ rw more
  | inr done ↦
      rw done (ap (◌∷◌ b'$') (append_assoc n _ _ ∙ ap (λ t. n ++ t) (print-scan_outside c)))
]

print-scan : (m : Mode) (s : Bytes) → print (scan m s) ≡ pending m ++ s
unfolding scan flush
print-scan outside [] = refl
print-scan behind_dollar [] = refl
print-scan (in_name n) [] = refl
print-scan m (c ∷ s) =
    let out = (scan_step m c).0 in
    let m' = (scan_step m c).1 in
    print-append out (scan m' s)
    ∙ ap (λ t. print out ++ t) (print-scan m' s)
    ∙ sym (append_assoc (print out) (pending m') s)
    ∙ ap (λ t. t ++ s) (print-scan_step m c)
    ∙ append_assoc (pending m) (c ∷ []) s

-- Scanning loses nothing of the text.
pub print-tokens : (s : Bytes) → print (tokens s) ≡ s
unfolding tokens
print-tokens s = print-scan outside s
