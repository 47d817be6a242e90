-- ===== src/Examples/Launching.antt =====
-- The startup, the telemetry and the warnings at concrete inputs.
use authzmtls.Examples.Serve
use authzmtls.App.Launch.Laws.{Tells, launch-Tells}
use authzmtls.App.Launch.Configured.{Ready, launch-Ready}
use authzmtls.App.Launch.{Cli, Kong, ◌>>>◌, or_exit, says, Launch, constructed, launched, launch}
use authzmtls.Common.{
  ℕ, suc, ◌≤◌, ◌<◌, ◌≡◌, ◌⊎◌, refl, false, List, [], ◌∷◌, ◌++◌, none, some, Bytes, codes, Result,
  ok, fail, bytes_eq, append_new, length,
}
use authzmtls.Config.Full.{load_full}
use authzmtls.Config.Load.{load}
use authzmtls.Config.Validate.{validate}
use authzmtls.Datasources.Inputs.Warning.{
  take, max_logged_runes, shown, sanitize_for_log, sanitize_for_log-shown,
}
use authzmtls.Datasources.Registry.{new_set}
use authzmtls.Examples.Configs.{yaml, path}
use authzmtls.Examples.Serve.{outside, now}
use authzmtls.GoStd.FilePath.{clean, ext, dir, join_path}
use authzmtls.GoStd.Runes.{runes}
use authzmtls.Logging.{parse_level}
use authzmtls.Server.Lifecycle.{Net, server_closed, start}
use authzmtls.Server.{new_server}
use authzmtls.Telemetry.Laws.{Begins, accesses-Begins}
use authzmtls.Telemetry.{Otel, Access, unused, accesses}

abbrev command : Cli
command = record {
  config_path = path;
  logging_level = codes "debug";
  listen_addr = [];
  server_cert = [];
  server_key = [];
  metrics_path = [];
  decision_timeout = [];
}

abbrev kong : Kong
kong = record { broken = none; parse = λ args. ok command }

-- The world counts what happened; a listener is a number.
abbrev network : Net ℕ ℕ
network = record {
  listen = λ address w. (ok 4, suc w);
  address = λ ln. codes ":80";
  serve = λ ln w. (server_closed, w);
  serve_tls = λ ln w. (server_closed, w);
  shut_down = λ w. (none, w);
}

abbrev show : List Bytes → Bytes
show entries = []

abbrev idle : Launch outside yaml kong network (codes "dev") show
idle = record {
  cli = command;
  running = Serve.no_run;
  life = record { started = false; listener = none };
  net = 0;
}

abbrev launched_of :
    Result (Launch outside yaml kong network (codes "dev") show)
    → Launch outside yaml kong network (codes "dev") show
launched_of (ok l) = l
launched_of (fail e) = idle

abbrev process : Launch outside yaml kong network (codes "dev") show
process = launched_of (launch outside yaml kong network (codes "dev") show now 0 []).1

launches : (launch outside yaml kong network (codes "dev") show now 0 []).1 ≡ ok process
unfolding launch launched constructed or_exit says ◌>>>◌ start load_full load bytes_eq join_path ext
    dir append_new clean validate parse_level new_set new_server
launches = refl

launch-Tells_example : Tells (launch outside yaml kong network (codes "dev") show now 0 [])
launch-Tells_example = launch-Tells outside yaml kong network (codes "dev") show now 0 [] refl

launch-Ready_example : Ready outside yaml kong network (codes "dev") show now 0 [] process
launch-Ready_example =
    launch-Ready outside yaml kong network (codes "dev") show now 0 [] process launches

-- Every instance is a number, one more each time.
abbrev otel : Otel ℕ ℕ ℕ ℕ ℕ ℕ
otel = record {
  new_registry = λ w. (w, suc w);
  new_exporter = λ reg w. (ok w, suc w);
  new_provider = λ readers w. (w, suc w);
  handler_for = λ reg. reg;
  meter_of = λ p scope. p;
  start_runtime = λ p w. (some (codes "no runtime"), suc w);
  shut_down = λ p w. (none, suc w);
}

abbrev uses : List (Access otel)
uses =
    Access.shutdown ∷ Access.meter ∷ Access.handler ∷ Access.shutdown ∷ Access.meter_provider ∷ []

accesses-Begins_example : Begins otel 3 4 uses (accesses otel uses unused 3)
accesses-Begins_example = accesses-Begins otel uses 3 4 refl

abbrev quoted : Bytes → Bytes
quoted v = codes "'" ++ (v ++ codes "'")

sanitize_for_log-shown_example :
    (runes (shown (codes "CN=x\n")) ≡ take max_logged_runes (runes (codes "CN=x\n")))
    × (length (shown (codes "CN=x\n")) ≤ 320)
    × (((max_logged_runes < length (runes (codes "CN=x\n")))
          × (sanitize_for_log quoted (codes "CN=x\n")
              ≡ quoted (shown (codes "CN=x\n")) ++ codes "...(truncated)"))
        ⊎ ((length (runes (codes "CN=x\n")) ≤ max_logged_runes)
            × (sanitize_for_log quoted (codes "CN=x\n") ≡ quoted (shown (codes "CN=x\n")))))
sanitize_for_log-shown_example = sanitize_for_log-shown quoted (codes "CN=x\n")
