-- ===== src/Rules/Verdicts.antt =====
-- internal/rules/decision.go: the type `Verdict` and its names.
use authzmtls.Common.{Bool, true, false, Bytes, codes}

pub data Verdict : Type 0 where
  abstain allow deny : Verdict

-- `Verdict.String`.
unfoldable pub verdict_string : Verdict → Bytes
verdict_string allow = codes "allow"
verdict_string deny = codes "deny"
verdict_string abstain = codes "abstain"

abbrev pub is_abstain : Verdict → Bool
is_abstain abstain = true
is_abstain allow = false
is_abstain deny = false
