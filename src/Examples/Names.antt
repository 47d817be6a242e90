-- ===== src/Examples/Names.antt =====
-- Subject names, and a request that the daemon sends.
use authzmtls.Common.{List, [], ◌∷◌, Bytes, codes, Result, ok, fail}
use authzmtls.DockerApi.{AuthzReq}
use authzmtls.Examples.Setup.{host, directory, config, exec, process}
use authzmtls.Handler.Laws.{chain_decider, Handled, handle_authz_req-Handled}
use authzmtls.Handler.{Endpoint, handle_authz_req, handle_authz_res}
use authzmtls.Rules.Builtin.{builtin_chain}
use authzmtls.Rules.Chain.{Process}
use authzmtls.Rules.Decision.{Decision}

-- A decoder that knows one body.
abbrev decode : Bytes → Result AuthzReq
decode [] = fail (codes "EOF")
decode (b ∷ body) = ok exec

abbrev endpoint : Endpoint (Process (Unit {0}))
endpoint = record { decider = process; trace = []; latencies = 0 }

abbrev decider_rules : List (AuthzReq → Unit {0} → Result Decision × Unit {0})
decider_rules = builtin_chain host config directory

handle_authz_req-Handled_example :
    (let out = handle_authz_req (chain_decider decider_rules) decode (codes "{}") endpoint in
      Handled decider_rules (decode (codes "{}")) endpoint out.0 out.1)
    × (let out = handle_authz_res (chain_decider decider_rules) decode (codes "{}") endpoint in
        Handled decider_rules (decode (codes "{}")) endpoint out.0 out.1)
handle_authz_req-Handled_example =
    handle_authz_req-Handled decider_rules decode (codes "{}") endpoint
