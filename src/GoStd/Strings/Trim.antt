-- ===== src/GoStd/Strings/Trim.antt =====
-- `IndexByte` and `Trim` on texts whose bytes are known.
use authzmtls.Common.{
  ℕ, suc, ◌≡◌, ◌≢◌, refl, sym, ap, ◌∙◌, List, [], ◌∷◌, ◌++◌, append_assoc, Bytes, arith, All, Lacks,
  none, some, false,
}
use authzmtls.GoStd.Strings.{index_byte, take, before, join, trim_left, trim_right, trim, is_empty}

before_none : (c : ℕ) (s : Bytes) → Lacks c s → index_byte s c ≡ none
unfolding index_byte
before_none c [] h = refl
before_none c (b ∷ s) h = ground (arith, before_none c s h.1)

-- A text with no separator is kept whole.
pub before-Lacks : (c : ℕ) (s : Bytes) → Lacks c s → before c s ≡ s
unfolding before
before-Lacks c s h = rw (before_none c s h, before)

take_before :
    (c : ℕ) (s t : Bytes)
    → Lacks c s
    → (i : ℕ) × (index_byte (s ++ c ∷ t) c ≡ some i) × (take i (s ++ c ∷ t) ≡ s)
unfolding index_byte take
take_before c [] t h = (0, ground arith, refl)
take_before c (b ∷ s) t h =
    let (i, e, k) = take_before c s t h.1 in (suc i, ground arith, ap (◌∷◌ b) k)

-- Else what stands before the first separator.
pub before-append : (c : ℕ) (s t : Bytes) → Lacks c s → before c (s ++ c ∷ t) ≡ s
unfolding before
before-append c s t h = let (i, e, k) = take_before c s t h in rw (e, before) k

trim_right-Lacks : (c : ℕ) (s : Bytes) → Lacks c s → trim_right c s ≡ s
unfolding trim_right
trim_right-Lacks c [] h = refl
trim_right-Lacks c (b ∷ s) h = ground (arith, trim_right-Lacks c s h.1)

is_empty-append : (s t : Bytes) → t ≢ [] → is_empty (s ++ t) ≡ false
is_empty-append [] [] h = absurd (h refl)
is_empty-append [] (b ∷ t) h = refl
is_empty-append (b ∷ s) t h = refl

trim_right-append :
    (c : ℕ) (s t : Bytes) → trim_right c t ≢ [] → trim_right c (s ++ t) ≡ s ++ trim_right c t
unfolding trim_right
trim_right-append c [] t h = refl
trim_right-append c (b ∷ s) t h =
    ground (arith, trim_right-append c s t h, is_empty-append s (trim_right c t) h)

-- A segment of a path: some bytes, none of them the separator.
abbrev pub IsSegment : ℕ → Bytes → Type 0
IsSegment c s = (s ≢ []) × Lacks c s

pub join-ne-nil :
    (c : ℕ) (p : Bytes) (ps : List Bytes) → IsSegment c p → join (c ∷ []) (p ∷ ps) ≢ []
unfolding join
join-ne-nil c [] ps h e = absurd (h.0 refl)
join-ne-nil c (b ∷ p) [] h e = cc
join-ne-nil c (b ∷ p) (q ∷ ps) h e = cc

trim_right-join :
    (c : ℕ) (p : Bytes) (ps : List Bytes)
    → All (IsSegment c) (p ∷ ps)
    → trim_right c (join (c ∷ []) (p ∷ ps)) ≡ join (c ∷ []) (p ∷ ps)
unfolding join
trim_right-join c p [] h = trim_right-Lacks c p h.0.1
trim_right-join c p (q ∷ ps) h =
    let rest = join (c ∷ []) (q ∷ ps) in
    let ih = trim_right-join c q ps h.1 in
    ap (trim_right c) (sym (append_assoc p (c ∷ []) rest))
    ∙ trim_right-append c (p ++ c ∷ []) rest (λ e. join-ne-nil c q ps h.1.0 (sym ih ∙ e))
    ∙ ap (λ t. (p ++ c ∷ []) ++ t) ih
    ∙ append_assoc p (c ∷ []) rest

trim_left-join :
    (c : ℕ) (p : Bytes) (ps : List Bytes)
    → IsSegment c p
    → trim_left c (c ∷ join (c ∷ []) (p ∷ ps)) ≡ join (c ∷ []) (p ∷ ps)
unfolding trim_left join
trim_left-join c [] ps h = absurd (h.0 refl)
trim_left-join c (b ∷ p) [] h = ground arith
trim_left-join c (b ∷ p) (q ∷ ps) h = ground arith

-- The separator in front of joined segments is all that `Trim` takes away.
pub trim-join :
    (c : ℕ) (p : Bytes) (ps : List Bytes)
    → All (IsSegment c) (p ∷ ps)
    → trim c (c ∷ join (c ∷ []) (p ∷ ps)) ≡ join (c ∷ []) (p ∷ ps)
unfolding trim
trim-join c p ps h = ap (trim_right c) (trim_left-join c p ps h.0) ∙ trim_right-join c p ps h
