-- ===== src/Rules/Expand/Slashes.antt =====
-- An expansion has the slashes of its pattern and no others.
use authzmtls.Common.{
  ℕ, true, false, ◌≡◌, refl, ap, ◌∙◌, List, [], ◌∷◌, Bytes, arith, All, Elem, any, count,
  count-append, count-Lacks, Lacks, Lacks-of_not_Elem, inl, inr, ◌||◌, ◌==◌, Bool,
}
use authzmtls.GoStd.Runes.{runes, is_control}
use authzmtls.GoStd.Runes.Laws.{runes-Elem}
use authzmtls.Rules.Expand.Scan.{Token, byte, var, tokens, print, print-tokens}
use authzmtls.Rules.Expand.Scan.Names.{NameLacksSlash, tokens-NameLacksSlash}
use authzmtls.Rules.Expand.{VarMap, is_safe_var_value, fill, expand}
use authzmtls.Rules.Expand.Laws.{expand-Elem_iff}

any-eq-false : (p : ℕ → Bool) (x : ℕ) (xs : List ℕ) → any p xs ≡ false → Elem x xs → p x ≡ false
any-eq-false p x (y ∷ ys) h (inl e) = rw e (ground arith)
any-eq-false p x (y ∷ ys) h (inr m) = any-eq-false p x ys (ground arith) m
any-eq-false p x [] h m = absurd m

-- A safe value holds no slash byte.
pub is_safe_var_value-Lacks : (v : Bytes) → is_safe_var_value v ≡ true → Lacks b'/' v
unfolding is_safe_var_value
is_safe_var_value-Lacks v h = Lacks-of_not_Elem b'/' v λ m.
    let none_bad : any (λ r. r == b'/' || is_control r) (runes v) ≡ false = ground arith in
    let slash_ok = any-eq-false _ b'/' (runes v) none_bad (runes-Elem b'/' v (omega arith) m) in
    cc slash_ok

count-fill :
    (f : Bytes → Bytes) (ts : List Token)
    → All NameLacksSlash ts
    → ((n : Bytes) → Elem (var n) ts → Lacks b'/' (f n))
    → count b'/' (fill f ts) ≡ count b'/' (print ts)
unfolding fill
count-fill f [] h k = refl
count-fill f (byte b ∷ ts) h k = omega (arith, count-fill f ts h.1 (λ n m. k n (inr m)))
count-fill f (var n ∷ ts) h k = omega (
  arith,
  count-fill f ts h.1 (λ n m. k n (inr m)),
  count-append b'/' (f n) (fill f ts),
  count-append b'/' n (print ts),
  count-Lacks b'/' n h.0,
  count-Lacks b'/' (f n) (k n (inl refl)),
)

-- No resolved value, whatever a datasource returns, adds a slash to the pattern or takes one away.
pub expand-count_slash :
    (pattern : Bytes) (vars : VarMap) (r : Bytes)
    → Elem r (expand pattern vars)
    → count b'/' r ≡ count b'/' pattern
expand-count_slash pattern vars r m =
    let x = (expand-Elem_iff pattern vars r).0 m in
    ap (count b'/') x.filled
    ∙ count-fill x.value (tokens pattern) (tokens-NameLacksSlash pattern)
        (λ n h. is_safe_var_value-Lacks (x.value n) (x.usable n h).1)
    ∙ ap (count b'/') (print-tokens pattern)
