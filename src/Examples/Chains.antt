-- ===== src/Examples/Chains.antt =====
-- Chains and the built-in chain.
use authzmtls.Common.{
  ℕ, suc, insert, ◌≡◌, ◌≢◌, ◌↔◌, refl, inl, inr, arith, true, [], ◌∷◌, Bytes, codes, bytes_eq, Elem,
  ok, lookup,
}
use authzmtls.DockerApi.{AuthzReq}
use authzmtls.Examples.Setup.{
  host, host-WaitsForAll, directory, homes, config, config_with, create, volume, exec, listing,
  process,
}
use authzmtls.GoStd.FilePath.{is_abs, clean}
use authzmtls.GoStd.Runes.{runes}
use authzmtls.GoStd.Strings.{split, before, trim, trim_space, has_prefix, trim_suffix}
use authzmtls.Rules.Admin.{admin_msg, admin_match, admin_rule, first_in}
use authzmtls.Rules.Body.{
  binds, decode_host_config, decode_volume_create, bind_device, volume_bind_device,
}
use authzmtls.Rules.Builtin.Admins.{IsAdmin, decide-IsAdmin}
use authzmtls.Rules.Builtin.Gated.{after_admins, decide-mounts_allowed}
use authzmtls.Rules.Builtin.Messages.{denial_messages, denial-Elem}
use authzmtls.Rules.Builtin.Total.{builtin_chain-Total}
use authzmtls.Rules.Builtin.{admins, builtin_chain}
use authzmtls.Rules.Canonical.{check_no_control_chars, abs, canonicalize}
use authzmtls.Rules.Chain.Responds.{Responds, decide-Responds}
use authzmtls.Rules.Chain.Counters.{CountsLog, serve, serve-CountsLog}
use authzmtls.Rules.Chain.Laws.{Answers, evaluate-Answers_iff}
use authzmtls.Rules.Chain.{evaluate, decide}
use authzmtls.Rules.Decision.{Decision, Rule, abstain, allow, deny}
use authzmtls.Rules.Expand.Product.{cartesian_product}
use authzmtls.Rules.Expand.Scan.{tokens}
use authzmtls.Rules.Expand.{expand}
use authzmtls.Rules.Matcher.{normalize_prefix, allowed_by, new_matcher, allowed}
use authzmtls.Rules.Mounts.Laws.{Permitted}
use authzmtls.Rules.Mounts.{
  resolve_matcher, mounts_allowed, expand_all, mount_rule, volume_rule, device_denied, mount_paths,
  volume_device, check_path,
}
use authzmtls.Rules.Reqvars.{extract}
use authzmtls.Rules.Sources.{resolve_vars}
use authzmtls.Rules.Uri.{is_container_create, is_volume_create, path_segments, is_version_segment}
use authzmtls.Rules.Verdicts.{Verdict}

-- Three rules on a state that counts how many of them have run.
abbrev passes : Rule ℕ
passes req n = (ok abstain, suc n)

abbrev refuses : Rule ℕ
refuses req n = (ok (deny (codes "no")), suc n)

abbrev permits : Rule ℕ
permits req n = (ok (allow (codes "yes")), suc n)

evaluate-Answers_iff_example :
    (evaluate (passes ∷ refuses ∷ permits ∷ []) create 0 ≡ (ok (deny (codes "no")), 2))
    ↔ Answers create (passes ∷ refuses ∷ permits ∷ []) 0 (ok (deny (codes "no"))) 2
evaluate-Answers_iff_example =
    evaluate-Answers_iff (passes ∷ refuses ∷ permits ∷ []) create 0 2 (ok (deny (codes "no")))

decide-Responds_example :
    Responds exec
      (builtin_chain host config directory)
      process.sources
      (decide (builtin_chain host config directory) exec process).0
      (decide (builtin_chain host config directory) exec process).1.sources
decide-Responds_example = decide-Responds (builtin_chain host config directory) exec process

serve-CountsLog_example :
    CountsLog (serve (builtin_chain host config directory) (create ∷ exec ∷ listing ∷ []) process)
serve-CountsLog_example =
    serve-CountsLog (builtin_chain host config directory) (create ∷ exec ∷ listing ∷ []) process
      (record { requests_counted = refl; denials_counted = refl })

builtin_chain-Total_example :
    (d : Decision) × ((evaluate (builtin_chain host config directory) volume tt).0 ≡ ok d)
builtin_chain-Total_example = builtin_chain-Total host config directory volume tt

jdoe-IsAdmin :
    IsAdmin
      (admins host (config_with (codes "jdoe" ∷ [])) directory)
      (resolve_vars directory exec tt).0
unfolding resolve_vars lookup bytes_eq
jdoe-IsAdmin = inl (codes "jdoe", inl refl, inl refl)

decide-IsAdmin_example :
    (decide (builtin_chain host (config_with (codes "jdoe" ∷ [])) directory) exec process).0
    ≡ record { allow = true; msg = admin_msg }
decide-IsAdmin_example =
    decide-IsAdmin host (config_with (codes "jdoe" ∷ [])) directory exec process jdoe-IsAdmin

not-IsAdmin :
    (req : AuthzReq) → ¬ IsAdmin (admins host config directory) (resolve_vars directory req tt).0
unfolding resolve_vars lookup bytes_eq
not-IsAdmin req (inl (u, m, k)) = ground arith
not-IsAdmin req (inr (g, m, k)) = ground arith

create_binds :
    binds host create.request_uri create.request_body ≡ codes "/home/jdoe/../jdoe/src" ∷ []
unfolding binds decode_host_config is_container_create path_segments is_version_segment split before
    trim bytes_eq runes
create_binds = refl

create-Permitted :
    Permitted host
      (resolve_matcher directory create homes (after_admins host config directory create tt)).0
      (codes "/home/jdoe/../jdoe/src")
unfolding resolve_matcher resolve_vars expand_all expand new_matcher normalize_prefix clean split
    bytes_eq runes lookup tokens cartesian_product canonicalize check_no_control_chars abs is_abs
    allowed allowed_by has_prefix trim_suffix extract insert
create-Permitted = (codes "/home/jdoe/src", refl, refl)

some_bind : binds host create.request_uri create.request_body ≢ []
some_bind = rw create_binds (ground arith)

decide-mounts_allowed_example :
    (decide (builtin_chain host config directory) create process).0 ≡ record {
      allow = true;
      msg = mounts_allowed (binds host create.request_uri create.request_body);
    }
decide-mounts_allowed_example =
    decide-mounts_allowed host config directory create process host-WaitsForAll (not-IsAdmin create)
      some_bind (rw create_binds (create-Permitted, tt))

volume_denied :
    (evaluate (builtin_chain host config directory) volume tt).0
    ≡ ok (deny (device_denied (codes "/etc")))
unfolding builtin_chain evaluate admin_rule admin_match first_in mount_rule volume_rule mount_paths
    volume_device binds decode_host_config volume_bind_device decode_volume_create bind_device
    check_path is_container_create is_volume_create path_segments is_version_segment before trim
    trim_space resolve_matcher resolve_vars expand_all expand new_matcher normalize_prefix clean
    split bytes_eq runes lookup tokens cartesian_product canonicalize check_no_control_chars abs
    is_abs allowed allowed_by has_prefix trim_suffix extract insert abstain deny
volume_denied = refl

deny-denies : (msg : Bytes) → (deny msg).verdict ≡ Verdict.deny
unfolding deny
deny-denies msg = refl

denial-Elem_example : Elem (deny (device_denied (codes "/etc"))).msg (denial_messages host volume)
denial-Elem_example =
    denial-Elem host config directory volume tt (deny (device_denied (codes "/etc"))) volume_denied
      (deny-denies (device_denied (codes "/etc")))
