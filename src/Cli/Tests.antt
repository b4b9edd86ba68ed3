-- ===== src/Cli/Tests.antt =====
-- A negative timeout, with two workers.
use flow_proxy.Base.{
  ℤ, pos, negsuc, ℕ, ◌≡◌, ◌≢◌, refl, ◌⊎◌, true, false, none, [], codes, text_eq, nat_eq, ok, lookup,
  is_blank, insert,
}
use flow_proxy.Config.{load_secrets, validate_secrets}
use flow_proxy.LoadBalancer.{init}
use flow_proxy.Failover.Tests.{services}
use flow_proxy.Logging.Settings.{log_config, log_config_from_env}
use flow_proxy.Logging.Setup.{setup_logging}
use flow_proxy.Logging.Tests.{python, host_files, no_logs}
use flow_proxy.ProcessServices.{initialize}
use flow_proxy.ProcessServices.Initialize.{process_initialize}
use flow_proxy.ProcessServices.Tests.{system, process_logs}
use flow_proxy.Cli.Main.{
  CommandLine, accepted, interrupted, returned, exit_of, Host, World, read_defaults, main,
}
use flow_proxy.Cli.Main.Launch.{IsLaunch, IsRefused, main_cases}
use flow_proxy.Cli.{Machine, Arguments, RuntimeConfig, resolve_runtime_config}

-- Seconds and thousandths, with the sign at the seconds.
abbrev pub Float : Type 0
Float = ℤ × ℕ

abbrev machine : Machine Float
machine = record {
  workers_variable = none;
  threaded_variable = none;
  cpu_count = 4;
  int = λ t. ok (pos 0);
  int_of = λ x. ok x.0;
}

abbrev arguments : Arguments Float
arguments = record {
  host = codes "127.0.0.1";
  port = pos 8899;
  num_workers = none;
  no_threaded = false;
  client_timeout = (negsuc 4, 700);
}

abbrev resolved : RuntimeConfig
resolved = record { num_workers = pos 4; threaded = true; client_timeout = 1; warned = true }

-- The fraction over a day is dropped without a warning.
a_day_and_more :
    resolve_runtime_config machine (record arguments { client_timeout = (pos 86400, 500) })
    ≡ ok (record resolved { client_timeout = 86400; warned = false })
unfolding resolve_runtime_config
a_day_and_more = refl

abbrev pub command_line : CommandLine Float
command_line = record {
  arguments = arguments;
  log_level = codes "INFO";
  secrets_file = codes "mine.json";
  log_dir = codes "logs";
}

-- A machine on which every text is read as a zero.
abbrev pub host : Host Float
host = record {
  python = python;
  files = host_files;
  int = λ t. ok (pos 0);
  float = λ t. ok (pos 600, 0);
  int_of = λ x. ok x.0;
  cpu_count = 4;
  parse_args = λ d. accepted command_line;
  exists = λ f. true;
  run_proxy = λ args env. interrupted;
}

abbrev pub world : World
world = record { environment = []; logs = no_logs; launched = [] }

main_cases_example :
    IsLaunch host world (main host world).1 (main host world).0
    ⊎ IsRefused host world (main host world).1 (main host world).0
main_cases_example = main_cases host world

interrupts : (main host world).0 ≡ returned
unfolding main read_defaults setup_logging resolve_runtime_config log_config_from_env log_config
    insert lookup exit_of
interrupts = refl

pub launches : (main host world).1.launched ≢ []
unfolding main read_defaults setup_logging resolve_runtime_config log_config_from_env log_config
    insert lookup
launches e = cc

pub child_starts :
    (process_initialize system (main host world).1.environment process_logs).0 ≡ ok services
unfolding process_initialize initialize load_secrets validate_secrets lookup is_blank init
    log_config log_config_from_env
child_starts = refl
