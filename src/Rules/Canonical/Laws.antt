-- ===== src/Rules/Canonical/Laws.antt =====
-- The form of a canonical path.
use authzmtls.Common.{
  ◌≡◌, refl, sym, ◌∙◌, true, List, [], ◌∷◌, ◌++◌, bind-eq-ok, ok-injective, Bytes, All, Result, ok,
  fail, Bool-cases, inl, inr, subst,
}
use authzmtls.GoStd.FilePath.{slash, is_abs, clean, render, join_path}
use authzmtls.GoStd.FilePath.Laws.{IsPlain, components, clean-components, components-IsPlain}
use authzmtls.Rules.Host.{Host}
use authzmtls.Rules.Canonical.{
  abs, canonicalize, check_no_control_chars, wrap, abs_failed, links_failed,
}

-- `os.Getwd` gives an absolute path, and `filepath.EvalSymlinks` keeps a path absolute.
pub record IsUnix (host : Host) : Type 0 where
  pub wd_abs : (wd : Bytes) → host.getwd ≡ ok wd → is_abs wd ≡ true
  pub links_abs : (p q : Bytes) → is_abs p ≡ true → host.eval_symlinks p ≡ ok q → is_abs q ≡ true

wrap-eq-ok {ℓ} :
    {A : Type ℓ} {a : A} (prefix : Bytes) (r : Result A) → wrap prefix r ≡ ok a → r ≡ ok a
wrap-eq-ok prefix (ok b) e = e
wrap-eq-ok prefix (fail m) e = cc

pub is_abs-render : (cs : List Bytes) → is_abs (render true cs) ≡ true
unfolding is_abs render
is_abs-render cs = refl

is_abs-clean : (p : Bytes) → is_abs p ≡ true → is_abs (clean p) ≡ true
is_abs-clean p h = rw (clean-components p h) (is_abs-render (components p))

is_abs-join_path : (dir p : Bytes) → is_abs dir ≡ true → is_abs (join_path dir p) ≡ true
unfolding join_path
is_abs-join_path [] p h = unfold is_abs in cc
is_abs-join_path (d ∷ dir) [] h = is_abs-clean (d ∷ dir) h
is_abs-join_path (d ∷ dir) (b ∷ p) h =
    is_abs-clean ((d ∷ dir) ++ slash ∷ (b ∷ p)) (unfold is_abs in h)

module _ (host : Host) (unix : IsUnix host) where
  abs-is_abs : (path q : Bytes) → abs host path ≡ ok q → is_abs q ≡ true
  unfolding abs
  abs-is_abs path q e = elim (Bool-cases (is_abs path)) [
    | inl here ↦
        subst (λ t. is_abs t ≡ true) (ok-injective (clean path) q (rw here at e))
          (is_abs-clean path here)
    | inr other ↦
        let (wd, cwd, joined) =
          bind-eq-ok host.getwd (λ wd. ok (join_path wd path)) (rw other at e) in
        subst (λ t. is_abs t ≡ true) (ok-injective (join_path wd path) q joined)
          (is_abs-join_path wd path (unix.wd_abs wd cwd))
  ]

  -- A canonical path is absolute, and free of empty, `.` and `..` components.
  pub canonicalize-IsPlain :
      (path canon : Bytes)
      → canonicalize host path ≡ ok canon
      → (cs : List Bytes) × (canon ≡ render true cs) × All IsPlain cs
  unfolding canonicalize
  canonicalize-IsPlain path canon e =
      let (_, _, e1) = bind-eq-ok (check_no_control_chars path) _ e in
      let (absolute, a, e2) = bind-eq-ok (wrap abs_failed (abs host path)) _ e1 in
      let (resolved, r, e3) =
        bind-eq-ok (wrap links_failed (host.eval_symlinks absolute)) (λ x. ok (clean x)) e2 in
      let h =
        unix.links_abs absolute resolved (abs-is_abs path absolute (wrap-eq-ok abs_failed _ a))
          (wrap-eq-ok links_failed _ r) in
      (
        components resolved,
        sym (ok-injective (clean resolved) canon e3) ∙ clean-components resolved h,
        components-IsPlain resolved,
      )
