-- ===== src/Rules/Matcher/Laws/Components.antt =====
-- `Covers` on cleaned absolute paths, component by component.
use authzmtls.Common.{
  ℕ, true, false, ◌≡◌, ◌≢◌, ◌↔◌, refl, sym, ap, ◌∙◌, List, [], ◌∷◌, ◌++◌, map, append_assoc,
  append-nil, Bytes, arith, All, Any, inl, inr, Lacks, bytes_eq, bytes_eq_iff,
}
use authzmtls.GoStd.Strings.{split, join, trim_suffix}
use authzmtls.GoStd.Strings.Split.{split-append_sep, join-append}
use authzmtls.GoStd.FilePath.{slash, is_abs, render, clean}
use authzmtls.GoStd.FilePath.Laws.{
  IsPlain, split_tail, split-render, render-injective, components, components-IsPlain,
  clean-components,
}
use authzmtls.Rules.Matcher.{normalize_prefix, new_matcher, allowed}
use authzmtls.Rules.Matcher.Laws.{Covers, same, below, root, allowed_iff}

-- The directory with components `qs` is the one with components `ps`, or above it.
abbrev pub IsAbove : List Bytes → List Bytes → Type 0
IsAbove qs ps = (rest : List Bytes) × (ps ≡ qs ++ rest)

render-ne-root : (q : Bytes) (qs : List Bytes) → IsPlain q → render true (q ∷ qs) ≢ slash ∷ []
unfolding render join
render-ne-root [] qs h e = absurd (h.0 refl)
render-ne-root (b ∷ q) [] h e = cc
render-ne-root (b ∷ q) (r ∷ qs) h e = cc

-- Above a path with no components there is only the root.
split_tail-IsAbove :
    (q : Bytes) (qs ps more : List Bytes)
    → IsPlain q
    → split_tail ps ≡ (q ∷ qs) ++ more
    → IsAbove (q ∷ qs) ps
unfolding split_tail
split_tail-IsAbove q qs [] more h e = absurd (h.0 cc)
split_tail-IsAbove q qs (p ∷ ps) more h e = (more, e)

cons_tail : (s t : List Bytes) → ◌≡◌ {A = List Bytes} ([] ∷ s) ([] ∷ t) → s ≡ t
cons_tail s t e = cc

split_tail-below :
    (q : Bytes) (qs ps : List Bytes) (rest : Bytes)
    → All IsPlain (q ∷ qs)
    → All IsPlain ps
    → render true ps ≡ render true (q ∷ qs) ++ (slash ∷ rest)
    → split_tail ps ≡ (q ∷ qs) ++ split slash rest
unfolding split_tail
split_tail-below q qs ps rest hq hp e = cons_tail (split_tail ps) ((q ∷ qs) ++ split slash rest) (
    sym (split-render ps hp)
    ∙ ap (split slash) e
    ∙ split-append_sep slash (render true (q ∷ qs)) rest
    ∙ ap (λ t. t ++ split slash rest) (split-render (q ∷ qs) hq))

pub Covers-IsAbove :
    (qs ps : List Bytes)
    → All IsPlain qs
    → All IsPlain ps
    → Covers (render true qs) (render true ps)
    → IsAbove qs ps
Covers-IsAbove [] ps hq hp c = (ps, refl)
Covers-IsAbove (q ∷ qs) ps hq hp (same e) =
    ([], render-injective ps (q ∷ qs) hp hq e ∙ sym (append-nil (q ∷ qs)))
Covers-IsAbove (q ∷ qs) ps hq hp (below rest other e) =
    split_tail-IsAbove q qs ps (split slash rest) hq.0 (split_tail-below q qs ps rest hq hp e)
Covers-IsAbove (q ∷ qs) ps hq hp (root rest is_root e) = absurd (render-ne-root q qs hq.0 is_root)

pub IsAbove-Covers :
    (qs ps : List Bytes) → All IsPlain qs → IsAbove qs ps → Covers (render true qs) (render true ps)
unfolding render
IsAbove-Covers [] ps hq a = root (join (slash ∷ []) ps) (unfold join in refl) refl
IsAbove-Covers (q ∷ qs) ps hq ([], e) = same (ap (render true) (e ∙ append-nil (q ∷ qs)))
IsAbove-Covers (q ∷ qs) ps hq (r ∷ rs, e) =
    below (join (slash ∷ []) (r ∷ rs)) (render-ne-root q qs hq.0)
      (ap (render true) e ∙ ap (◌∷◌ slash) (join-append (slash ∷ []) q r qs rs))

trim_suffix-append : (c : ℕ) (s t : Bytes) → t ≢ [] → trim_suffix c (s ++ t) ≡ s ++ trim_suffix c t
unfolding trim_suffix
trim_suffix-append c [] t h = refl
trim_suffix-append c (b ∷ []) [] h = absurd (h refl)
trim_suffix-append c (b ∷ []) (d ∷ t) h = refl
trim_suffix-append c (b ∷ d ∷ s) t h = ap (◌∷◌ b) (trim_suffix-append c (d ∷ s) t h)

trim_suffix-Lacks : (c : ℕ) (s : Bytes) → Lacks c s → trim_suffix c s ≡ s
unfolding trim_suffix
trim_suffix-Lacks c [] h = refl
trim_suffix-Lacks c (b ∷ []) h = ground arith
trim_suffix-Lacks c (b ∷ d ∷ s) h = ap (◌∷◌ b) (trim_suffix-Lacks c (d ∷ s) h.1)

join-ne-nil : (q : Bytes) (qs : List Bytes) → IsPlain q → join (slash ∷ []) (q ∷ qs) ≢ []
unfolding join
join-ne-nil [] qs h e = absurd (h.0 refl)
join-ne-nil (b ∷ q) [] h e = cc
join-ne-nil (b ∷ q) (r ∷ qs) h e = cc

trim_suffix-join :
    (q : Bytes) (qs : List Bytes)
    → All IsPlain (q ∷ qs)
    → trim_suffix slash (join (slash ∷ []) (q ∷ qs)) ≡ join (slash ∷ []) (q ∷ qs)
unfolding join
trim_suffix-join q [] h = trim_suffix-Lacks slash q h.0.3
trim_suffix-join q (r ∷ qs) h =
    let rest = join (slash ∷ []) (r ∷ qs) in
    ap (trim_suffix slash) (sym (append_assoc q (slash ∷ []) rest))
    ∙ trim_suffix-append slash (q ++ slash ∷ []) rest (join-ne-nil r qs h.1.0)
    ∙ ap (λ t. (q ++ slash ∷ []) ++ t) (trim_suffix-join r qs h.1)
    ∙ append_assoc q (slash ∷ []) rest

normalize_prefix-render :
    (cs : List Bytes) (p : Bytes)
    → All IsPlain cs
    → clean p ≡ render true cs
    → normalize_prefix p ≡ render true cs
unfolding normalize_prefix
normalize_prefix-render [] p h e = rw e (unfold render join bytes_eq in refl)
normalize_prefix-render (q ∷ qs) p h e =
    rw (e, other)
      (unfold render in
        trim_suffix-append slash (slash ∷ []) (join (slash ∷ []) (q ∷ qs)) (join-ne-nil q qs h.0)
        ∙ ap (◌∷◌ slash) (trim_suffix-join q qs h))
  where
    other : bytes_eq (render true (q ∷ qs)) (slash ∷ []) ≡ false
    other =
        ground (arith, bytes_eq_iff (render true (q ∷ qs)) (slash ∷ []), render-ne-root q qs h.0)

-- The normalised form of an absolute prefix is the path of its components.
pub normalize_prefix_of_abs :
    (p : Bytes) → is_abs p ≡ true → normalize_prefix p ≡ render true (components p)
normalize_prefix_of_abs p h =
    normalize_prefix-render (components p) p (components-IsPlain p) (clean-components p h)

Covers-prefixes :
    (prefixes ps : List Bytes)
    → All (λ q. is_abs q ≡ true) prefixes
    → All IsPlain ps
    → Any (λ q. Covers q (render true ps)) (map normalize_prefix prefixes)
      ↔ Any (λ q. IsAbove (components q) ps) prefixes
Covers-prefixes [] ps h hp = (λ a. a, λ a. a)
Covers-prefixes (q ∷ prefixes) ps h hp =
    let rest = Covers-prefixes prefixes ps h.1 hp in
    let e = normalize_prefix_of_abs q h.0 in
    let plain = components-IsPlain q in
    (
      elim [
        | inl c ↦ inl (Covers-IsAbove (components q) ps plain hp (rw e at c))
        | inr m ↦ inr (rest.0 m)
      ],
      elim [
        | inl a ↦ inl (rw e (IsAbove-Covers (components q) ps plain a))
        | inr m ↦ inr (rest.1 m)
      ],
    )

-- With absolute prefixes, a cleaned absolute path is allowed exactly when the components of some
-- prefix are the first components of the path: never because one name begins another.
pub allowed-IsAbove_iff :
    (prefixes ps : List Bytes)
    → All (λ q. is_abs q ≡ true) prefixes
    → All IsPlain ps
    → (allowed (new_matcher prefixes) (render true ps) ≡ true)
      ↔ Any (λ q. IsAbove (components q) ps) prefixes
unfolding new_matcher
allowed-IsAbove_iff prefixes ps h hp =
    let a = allowed_iff (record { prefixes = map normalize_prefix prefixes }) (render true ps) in
    let b = Covers-prefixes prefixes ps h hp in (λ x. b.0 (a.0 x), λ y. a.1 (b.1 y))
