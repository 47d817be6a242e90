-- ===== src/Rules/Mounts/Security.antt =====
-- What an allowed mount means for the host's directory tree.
use authzmtls.Common.{
  ◌≡◌, refl, sym, ap, ◌∙◌, true, List, [], ◌∷◌, ◌++◌, Bytes, codes, arith, All, All-append, All-map,
  Any, Elem, ok, ok-injective, Any-map, map, Elem-map, bytes_eq, subst, Any-append_left,
}
use authzmtls.Common.{All-of_Elem, All-Elem}
use authzmtls.DockerApi.{AuthzReq}
use authzmtls.GoStd.Runes.{runes}
use authzmtls.GoStd.FilePath.{slash, is_abs, render, clean}
use authzmtls.GoStd.Strings.{trim_suffix}
use authzmtls.GoStd.FilePath.Laws.{IsPlain, components}
use authzmtls.Rules.Body.Asks.{Mounts, binds-Mounts}
use authzmtls.Rules.Body.{binds}
use authzmtls.Rules.Canonical.{canonicalize}
use authzmtls.Rules.Canonical.Laws.{IsUnix, canonicalize-IsPlain}
use authzmtls.Rules.Decision.{Decision, abstain, deny}
use authzmtls.Rules.Expand.Laws.{Expands, expand-Elem_iff}
use authzmtls.Rules.Expand.Scan.{var, tokens}
use authzmtls.Rules.Expand.{VarMap, values, is_safe_var_value, fill, expand}
use authzmtls.Rules.Host.{Host, WaitsForAll}
use authzmtls.Rules.Matcher.Laws.Components.{IsAbove, allowed-IsAbove_iff}
use authzmtls.Rules.Matcher.Laws.{Covers, root, allowed_iff}
use authzmtls.Rules.Matcher.{new_matcher, normalize_prefix, allowed}
use authzmtls.Rules.Mounts.Laws.{
  Permitted, MountAnswer, nothing_asked, all_permitted, first_refused, mount_rule-MountAnswer,
}
use authzmtls.Rules.Mounts.{expand_all, resolve_matcher, mount_rule}
use authzmtls.Rules.Sources.{Resolver, resolve_vars}
use authzmtls.Rules.Verdicts.{Verdict}

is_abs-cons : (p : Bytes) → is_abs p ≡ true → (q : Bytes) × (p ≡ slash ∷ q)
unfolding is_abs
is_abs-cons [] h = cc
is_abs-cons (b ∷ q) h = (q, ap (λ c. c ∷ q) (ground arith))

is_abs-fill : (f : Bytes → Bytes) (q : Bytes) → is_abs (fill f (tokens (slash ∷ q))) ≡ true
unfolding is_abs fill tokens
is_abs-fill f q = refl

expand-is_abs :
    (pattern : Bytes) (vars : VarMap) (r : Bytes)
    → is_abs pattern ≡ true
    → Elem r (expand pattern vars)
    → is_abs r ≡ true
expand-is_abs pattern vars r h m =
    let x = (expand-Elem_iff pattern vars r).0 m in
    let (q, e) = is_abs-cons pattern h in
    subst (λ t. is_abs t ≡ true) (sym (x.filled ∙ ap (λ p. fill x.value (tokens p)) e))
      (is_abs-fill x.value q)

pub expand_all-is_abs :
    (patterns : List Bytes) (vars : VarMap)
    → All (λ p. is_abs p ≡ true) patterns
    → All (λ p. is_abs p ≡ true) (expand_all patterns vars)
unfolding expand_all
expand_all-is_abs [] vars h = tt
expand_all-is_abs (p ∷ patterns) vars h =
    All-append (λ p. is_abs p ≡ true) (expand p vars) (expand_all patterns vars)
      (All-of_Elem _ (expand p vars) (λ r m. expand-is_abs p vars r h.0 m))
      (expand_all-is_abs patterns vars h.1)

-- The path's real location has plain components, and those of some directory begin it.
pub record Below (host : Host) (dirs : List Bytes) (path : Bytes) : Type 0 where
  pub location : List Bytes
  pub resolved : canonicalize host path ≡ ok (render true location)
  pub plain : All IsPlain location
  pub above : Any (λ dir. IsAbove (components dir) location) dirs

module _ (host : Host) (unix : IsUnix host) where
  pub Permitted-Below :
      (dirs : List Bytes) (path : Bytes)
      → All (λ p. is_abs p ≡ true) dirs
      → Permitted host (new_matcher dirs) path
      → Below host dirs path
  Permitted-Below dirs path h (canon, e, a) =
      let (cs, same, plain) = canonicalize-IsPlain host unix path canon e in
      record {
        location = cs;
        resolved = rw (← same) e;
        plain = plain;
        above = (allowed-IsAbove_iff dirs cs h plain).0 (rw same at a);
      }

allow-ne-deny : (d : Decision) (msg : Bytes) → d.verdict ≡ Verdict.allow → ¬ (d ≡ deny msg)
unfolding deny
allow-ne-deny d msg h e = cc

allow-ne-abstain : (d : Decision) → d.verdict ≡ Verdict.allow → ¬ (d ≡ abstain)
unfolding abstain
allow-ne-abstain d h e = cc

-- Below the expansions is every path that `Binds` gives, if the mount rule allows the request.
mount_rule-AllBelow :
    (host : Host) {S : Type 0} (ds : Resolver S) (patterns : List Bytes) (req : AuthzReq) (s : S)
    (d : Decision)
    → WaitsForAll host
    → IsUnix host
    → All (λ p. is_abs p ≡ true) patterns
    → (mount_rule host ds patterns req s).0 ≡ ok d
    → d.verdict ≡ Verdict.allow
    → All
        (Below host (expand_all patterns (resolve_vars ds req s).0))
        (binds host req.request_uri req.request_body)
unfolding resolve_matcher
mount_rule-AllBelow host ds patterns req s d waits unix absolute e h =
    let (d', e', answer) = mount_rule-MountAnswer host ds patterns req s waits in
    answered answer (ok-injective d' d (sym e' ∙ e))
  where
    paths : List Bytes
    paths = binds host req.request_uri req.request_body

    dirs : List Bytes
    dirs = expand_all patterns (resolve_vars ds req s).0

    answered :
        {d' : Decision}
        → MountAnswer host (new_matcher dirs) paths d'
        → d' ≡ d
        → All (Below host dirs) paths
    answered (nothing_asked _ abstained) same = absurd (allow-ne-abstain d h (sym same ∙ abstained))
    answered (all_permitted _ k _) same =
        All-map (Permitted host (new_matcher dirs)) (Below host dirs)
          (λ path p.
            Permitted-Below host unix dirs path
              (expand_all-is_abs patterns (resolve_vars ds req s).0 absolute) p)
          paths k
    answered (first_refused _ path _ _ _ _ denied) same =
        absurd (allow-ne-deny d _ h (sym same ∙ denied))

-- If the mount rule allows a request, then every path that the request names as the source of a bind
-- or of a mount in the HostConfig of a container leads, once symbolic links are resolved, to a place
-- at or below an expansion of an allowlist entry, component by component. The source of a bind ends
-- at its first colon, and empty sources count for nothing. The entries are absolute; the working
-- directory is absolute and resolving links keeps paths absolute; the group waits for all its
-- goroutines.
pub mount_rule-Below :
    (host : Host) {S : Type 0} (ds : Resolver S) (patterns : List Bytes) (req : AuthzReq) (s : S)
    (d : Decision)
    → WaitsForAll host
    → IsUnix host
    → All (λ p. is_abs p ≡ true) patterns
    → (mount_rule host ds patterns req s).0 ≡ ok d
    → d.verdict ≡ Verdict.allow
    → (path : Bytes) → Mounts host req path
    → Below host (expand_all patterns (resolve_vars ds req s).0) path
mount_rule-Below host ds patterns req s d waits unix absolute e h path named =
    All-Elem (Below host (expand_all patterns (resolve_vars ds req s).0))
      (binds host req.request_uri req.request_body)
      (mount_rule-AllBelow host ds patterns req s d waits unix absolute e h)
      (binds-Mounts host req path named)

abbrev home_user : Bytes
home_user = codes "/home/$USER"

abbrev user_name : Bytes
user_name = codes "USER"

only_user : (name : Bytes) → Elem (var name) (tokens home_user) → name ≡ user_name
unfolding tokens
only_user name m = ground arith

home_user-Expands :
    (vars : VarMap)
    → Elem (codes "..") (values user_name vars)
    → Expands home_user vars (codes "/home/..")
unfolding tokens fill is_safe_var_value runes
home_user-Expands vars h = record {
  value = λ _. codes "..";
  usable = λ name m. (rw (only_user name m) h, refl);
  filled = refl;
}

normalize_prefix-home : normalize_prefix (codes "/home/..") ≡ slash ∷ []
unfolding normalize_prefix clean bytes_eq trim_suffix
normalize_prefix-home = refl

Covers-root : (ps : List Bytes) → Covers (slash ∷ []) (render true ps)
unfolding render
Covers-root ps = root _ refl refl

-- A datasource that resolves `$USER` to `..` opens the whole host: the entry `/home/$USER` then
-- cleans to the root, and every canonical path is allowed, whatever the other entries are.
pub dot_dot_opens_root :
    (vars : VarMap) (patterns ps : List Bytes)
    → Elem (codes "..") (values user_name vars)
    → allowed (new_matcher (expand_all (home_user ∷ patterns) vars)) (render true ps) ≡ true
unfolding new_matcher expand_all
dot_dot_opens_root vars patterns ps h =
    let dirs = expand home_user vars ++ expand_all patterns vars in
    let here =
      Any-append_left _ (expand home_user vars) (expand_all patterns vars)
        ((expand-Elem_iff home_user vars (codes "/home/..")).1 (home_user-Expands vars h)) in
    let mapped =
      rw normalize_prefix-home at (Elem-map normalize_prefix (codes "/home/..") dirs here) in
    (allowed_iff (record { prefixes = map normalize_prefix dirs }) (render true ps)).1 (
      Any-map (λ q. slash ∷ [] ≡ q) (λ q. Covers q (render true ps))
        (λ q e. subst (λ t. Covers t (render true ps)) e (Covers-root ps))
        (map normalize_prefix dirs) mapped)
