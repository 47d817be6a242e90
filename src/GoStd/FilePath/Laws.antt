-- ===== src/GoStd/FilePath/Laws.antt =====
-- What `Clean` makes of an absolute path.
use mathlib.Core.List.{reverse, reverse-cons}
use authzmtls.Common.{
  true, ◌≡◌, ◌≢◌, refl, sym, ap, ◌∙◌, List, [], ◌∷◌, ◌++◌, append-nil, append_assoc, Bytes, arith,
  All, All-append, Lacks, bytes_eq, bytes_eq_iff,
}
use authzmtls.GoStd.Strings.{split}
use authzmtls.GoStd.Strings.Split.{split-Lacks, split-join, split-append}
use authzmtls.GoStd.FilePath.{slash, dot, dot_dot, is_abs, resolve, resolve_all, render, clean}

-- A component that names an entry of the directory above it.
abbrev pub IsPlain : Bytes → Type 0
IsPlain c = (c ≢ []) × (c ≢ dot) × (c ≢ dot_dot) × Lacks slash c

All-reverse : (cs : List Bytes) → All IsPlain cs → All IsPlain (reverse cs)
All-reverse [] h = tt
All-reverse (c ∷ cs) h =
    rw reverse-cons (All-append IsPlain (reverse cs) (c ∷ []) (All-reverse cs h.1) (h.0, tt))

resolve-IsPlain :
    (stack : List Bytes) (c : Bytes)
    → All IsPlain stack
    → Lacks slash c
    → All IsPlain (resolve true stack c)
unfolding resolve
resolve-IsPlain [] c h k =
    ground (arith, bytes_eq_iff c [], bytes_eq_iff c dot, bytes_eq_iff c dot_dot)
resolve-IsPlain (t ∷ stack) c h k =
    ground
      (arith, bytes_eq_iff c [], bytes_eq_iff c dot, bytes_eq_iff c dot_dot, bytes_eq_iff t dot_dot)

resolve_all-IsPlain :
    (stack cs : List Bytes)
    → All IsPlain stack
    → All (Lacks slash) cs
    → All IsPlain (resolve_all true stack cs)
unfolding resolve_all
resolve_all-IsPlain stack [] h k = h
resolve_all-IsPlain stack (c ∷ cs) h k =
    resolve_all-IsPlain (resolve true stack c) cs (resolve-IsPlain stack c h k.0) k.1

-- The components that an absolute path has once it is cleaned.
abbrev pub components : Bytes → List Bytes
components p = reverse (resolve_all true [] (split slash p))

pub components-IsPlain : (p : Bytes) → All IsPlain (components p)
components-IsPlain p =
    All-reverse _ (resolve_all-IsPlain [] (split slash p) tt (split-Lacks slash p))

-- A cleaned absolute path is the root followed by plain components.
pub clean-components : (p : Bytes) → is_abs p ≡ true → clean p ≡ render true (components p)
unfolding clean
clean-components p h = rw h

resolve_of_IsPlain : (stack : List Bytes) (c : Bytes) → IsPlain c → resolve true stack c ≡ c ∷ stack
unfolding resolve
resolve_of_IsPlain stack c h =
    ground (arith, bytes_eq_iff c [], bytes_eq_iff c dot, bytes_eq_iff c dot_dot)

resolve_all_of_IsPlain :
    (stack cs : List Bytes)
    → All IsPlain cs
    → reverse (resolve_all true stack cs) ≡ reverse stack ++ cs
unfolding resolve_all
resolve_all_of_IsPlain stack [] h = sym (append-nil _)
resolve_all_of_IsPlain stack (c ∷ cs) h =
    ap (λ s. reverse (resolve_all true s cs)) (resolve_of_IsPlain stack c h.0)
    ∙ resolve_all_of_IsPlain (c ∷ stack) cs h.1
    ∙ (simp (reverse-cons, append_assoc))

-- The components of a path rendered from plain components; the root has one empty component.
unfoldable pub split_tail : List Bytes → List Bytes
split_tail [] = [] ∷ []
split_tail (c ∷ cs) = c ∷ cs

pub split-render :
    (cs : List Bytes) → All IsPlain cs → split slash (render true cs) ≡ [] ∷ split_tail cs
unfolding render split_tail
split-render [] h = unfold split in refl
split-render (c ∷ cs) h =
    split-append slash [] _ tt
    ∙ ap (◌∷◌ []) (split-join slash (c ∷ cs) (ground arith) (lacks (c ∷ cs) h))
  where
    lacks : (cs : List Bytes) → All IsPlain cs → All (Lacks slash) cs
    lacks [] h = tt
    lacks (c ∷ cs) h = (h.0.3, lacks cs h.1)

pub resolve_all-split_tail :
    (cs : List Bytes) → All IsPlain cs → reverse (resolve_all true [] ([] ∷ split_tail cs)) ≡ cs
unfolding resolve_all resolve split_tail bytes_eq
resolve_all-split_tail [] h = refl
resolve_all-split_tail (c ∷ cs) h = resolve_all_of_IsPlain [] (c ∷ cs) h

-- Such a path is clean already.
pub clean-render : (cs : List Bytes) → All IsPlain cs → clean (render true cs) ≡ render true cs
unfolding clean
clean-render cs h =
    ap (λ s. render true (reverse (resolve_all true [] s))) (split-render cs h)
    ∙ ap (render true) (resolve_all-split_tail cs h)

pub clean_idempotent : (p : Bytes) → is_abs p ≡ true → clean (clean p) ≡ clean p
clean_idempotent p h =
    rw (clean-components p h) (clean-render (components p) (components-IsPlain p))

-- A rendered path names one list of plain components.
pub render-injective :
    (cs ds : List Bytes)
    → All IsPlain cs
    → All IsPlain ds
    → render true cs ≡ render true ds
    → cs ≡ ds
render-injective cs ds h k e =
    sym (resolve_all-split_tail cs h)
    ∙ ap (λ s. reverse (resolve_all true [] s))
        (sym (split-render cs h) ∙ ap (split slash) e ∙ split-render ds k)
    ∙ resolve_all-split_tail ds k
