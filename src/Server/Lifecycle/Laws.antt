-- ===== src/Server/Lifecycle/Laws.antt =====
-- What several calls of `Start` do.
use authzmtls.Common.{
  ◌≡◌, refl, true, List, [], ◌∷◌, Option, none, some, Bytes, Result-cases, inl, inr,
}
use authzmtls.Server.Lifecycle.{Net, not_started, start, starts}

module _ {Ln N : Type 0} (net : Net Ln N) where
  starts-started :
      (address : Bytes) (calls : List (Unit {0})) (listener : Option Ln) (w : N)
      → starts net address calls (record { started = true; listener = listener }) w
        ≡ (record { started = true; listener = listener }, w)
  unfolding starts
  starts-started address [] listener w = refl
  starts-started address (call ∷ calls) listener w = starts-started address calls listener w

  -- Of any number of calls of `Start`, the first alone listens and sets the listener; each later one
  -- fails and changes nothing, also if the first has failed.
  pub starts-start :
      (address : Bytes) (calls : List (Unit {0})) (w : N)
      → starts net address (tt ∷ calls) not_started w
        ≡ ((start net address not_started w).1, (start net address not_started w).2)
  unfolding starts start
  starts-start address calls w = elim (Result-cases (net.listen address w).0) [
    | inl (ln, e) ↦ rw e (starts-started address calls (some ln) _)
    | inr (m, e) ↦ rw e (starts-started address calls none _)
  ]
