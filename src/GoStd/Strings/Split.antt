-- ===== src/GoStd/Strings/Split.antt =====
-- `Split` and `Join` are inverse to each other.
use authzmtls.Common.{
  ℕ, ◌≡◌, ◌≢◌, refl, sym, ap, ◌∙◌, append_assoc, List, [], ◌∷◌, ◌++◌, Bytes, arith, All, Lacks, inl,
  inr, Bool-cases, ◌==◌,
}
use authzmtls.GoStd.Strings.{cons_head, split, join}

pub split-ne-nil : (c : ℕ) (s : Bytes) → split c s ≢ []
unfolding split
split-ne-nil c [] = ground arith
split-ne-nil c (b ∷ s) = ground (arith, split-ne-nil c s)

join-cons_head :
    (sep : Bytes) (b : ℕ) (ps : List Bytes) → ps ≢ [] → join sep (cons_head b ps) ≡ b ∷ join sep ps
unfolding join cons_head
join-cons_head sep b [] h = absurd (h refl)
join-cons_head sep b (p ∷ []) h = refl
join-cons_head sep b (p ∷ q ∷ ps) h = refl

join-nil_cons : (sep : Bytes) (ps : List Bytes) → ps ≢ [] → join sep ([] ∷ ps) ≡ sep ++ join sep ps
unfolding join
join-nil_cons sep [] h = absurd (h refl)
join-nil_cons sep (p ∷ ps) h = refl

pub join-split : (c : ℕ) (s : Bytes) → join (c ∷ []) (split c s) ≡ s
unfolding split
join-split c [] = unfold join in refl
join-split c (b ∷ s) = elim (Bool-cases (b == c)) [
  | inl same ↦ rw same (
      rw (join-nil_cons (c ∷ []) (split c s) (split-ne-nil c s))
        (rw (join-split c s) (ground arith)))
  | inr other ↦
      rw other (rw (join-cons_head (c ∷ []) b (split c s) (split-ne-nil c s)) (rw (join-split c s)))
]

cons_head-Lacks :
    (c b : ℕ) (ps : List Bytes) → b ≢ c → All (Lacks c) ps → All (Lacks c) (cons_head b ps)
unfolding cons_head
cons_head-Lacks c b [] h k = ((h, tt), tt)
cons_head-Lacks c b (p ∷ ps) h k = ((h, k.0), k.1)

pub split-Lacks : (c : ℕ) (s : Bytes) → All (Lacks c) (split c s)
unfolding split
split-Lacks c [] = (tt, tt)
split-Lacks c (b ∷ s) = elim (Bool-cases (b == c)) [
  | inl same ↦ rw same (tt, split-Lacks c s)
  | inr other ↦ rw other (cons_head-Lacks c b (split c s) (ground arith) (split-Lacks c s))
]

pub split-Lacks_self : (c : ℕ) (s : Bytes) → Lacks c s → split c s ≡ s ∷ []
unfolding split
split-Lacks_self c [] h = refl
split-Lacks_self c (b ∷ s) h = ground (arith, split-Lacks_self c s h.1)

pub split-append : (c : ℕ) (p s : Bytes) → Lacks c p → split c (p ++ c ∷ s) ≡ p ∷ split c s
unfolding split
split-append c [] s h = ground arith
split-append c (b ∷ p) s h = ground (arith, split-append c p s h.1)

pub split-join :
    (c : ℕ) (ps : List Bytes) → ps ≢ [] → All (Lacks c) ps → split c (join (c ∷ []) ps) ≡ ps
unfolding join
split-join c [] h k = absurd (h refl)
split-join c (p ∷ []) h k = split-Lacks_self c p k.0
split-join c (p ∷ q ∷ ps) h k =
    rw (split-append c p (join (c ∷ []) (q ∷ ps)) k.0)
      (rw (split-join c (q ∷ ps) (ground arith) k.1))

cons_head-append :
    (b : ℕ) (ps qs : List Bytes) → ps ≢ [] → cons_head b (ps ++ qs) ≡ cons_head b ps ++ qs
unfolding cons_head
cons_head-append b [] qs h = absurd (h refl)
cons_head-append b (p ∷ ps) qs h = refl

-- Both sides of a separator split apart.
pub split-append_sep : (c : ℕ) (s t : Bytes) → split c (s ++ c ∷ t) ≡ split c s ++ split c t
unfolding split
split-append_sep c [] t = ground arith
split-append_sep c (b ∷ s) t = elim (Bool-cases (b == c)) [
  | inl hit ↦ rw hit (ap (◌∷◌ []) (split-append_sep c s t))
  | inr miss ↦ rw miss (
      ap (cons_head b) (split-append_sep c s t)
      ∙ cons_head-append b (split c s) (split c t) (split-ne-nil c s))
]

pub join-append :
    (sep : Bytes) (p q : Bytes) (ps qs : List Bytes)
    → join sep ((p ∷ ps) ++ (q ∷ qs)) ≡ join sep (p ∷ ps) ++ (sep ++ join sep (q ∷ qs))
unfolding join
join-append sep p q [] qs = refl
join-append sep p q (r ∷ ps) qs =
    ap (λ t. p ++ (sep ++ t)) (join-append sep r q ps qs)
    ∙ ap (λ t. p ++ t) (sym (append_assoc sep (join sep (r ∷ ps)) _))
    ∙ sym (append_assoc p (sep ++ join sep (r ∷ ps)) _)
