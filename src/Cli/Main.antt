-- ===== src/Cli/Main.antt =====
-- flow_proxy_plugin/cli.py, `main`: from the environment to the call of proxy.py. `argparse`, `int`
-- and `float` of a text, the file system and what proxy.py does are parameters; the type of
-- floating-point numbers is one as well. The log lines are left out.
pub mod Launch
use flow_proxy.Base.{
  ℤ, ℕ, Bool, true, false, Option, none, some, List, [], ◌∷◌, ◌++◌, Text, codes, text_eq, lookup,
  insert, Exc, Result, ok, err, ◌>>=◌, if◌then◌else◌,
}
use flow_proxy.Cli.{Arguments, Machine, RuntimeConfig, resolve_runtime_config, build_proxy_args}
use flow_proxy.Logging.Settings.{Python, Environment, getenv}
use flow_proxy.Logging.Setup.{Files, Logs, Done, setup_logging}

-- What `parse_args` gives, besides the settings of proxy.py.
pub record CommandLine (F : Type 0) : Type 0 where
  pub arguments : Arguments F
  pub log_level : Text
  pub secrets_file : Text
  pub log_dir : Text

-- `argparse` leaves the program after a bad argument, or after `--help`.
pub data Parsed (F : Type 0) : Type 0 where
  accepted : CommandLine F → Parsed F
  leaves : ℕ → Parsed F

-- How the `with Proxy(...)` block ends.
pub data ProxyRun : Type 0 where
  over interrupted : ProxyRun
  failed : Exc → ProxyRun
  -- `sys.exit`, which is no `Exception`.
  quit : ℕ → ProxyRun

pub data Outcome : Type 0 where
  returned : Outcome
  exits : ℕ → Outcome
  raises : Exc → Outcome

pub record Defaults (F : Type 0) : Type 0 where
  pub port : ℤ
  pub host : Text
  pub log_level : Text
  pub secrets_file : Text
  pub log_dir : Text
  pub client_timeout : F

pub record Host (F : Type 0) : Type 0 where
  pub python : Python
  pub files : Files
  pub int : Text → Result ℤ
  pub float : Text → Result F
  pub int_of : F → Result ℤ
  pub cpu_count : ℕ
  pub parse_args : Defaults F → Parsed F
  pub exists : Text → Bool
  pub run_proxy : List Text → Environment → ProxyRun

-- The environment, what the log set-up changes, and the calls of proxy.py, each with the
-- environment that its processes inherit.
pub record World : Type 0 where
  pub environment : Environment
  pub logs : Logs
  pub launched : List (List Text × Environment)

-- `os.environ[...] = ...`, three times.
pub store : {F : Type 0} → CommandLine F → Environment → Environment
store c env = insert (codes "FLOW_PROXY_LOG_DIR") c.log_dir (
    insert (codes "FLOW_PROXY_LOG_LEVEL") c.log_level
      (insert (codes "FLOW_PROXY_SECRETS_FILE") c.secrets_file env))

unfoldable pub exit_of : ProxyRun → Outcome
exit_of over = returned
exit_of interrupted = returned
exit_of (failed e) = exits 1
exit_of (quit status) = exits status

module _ {F : Type 0} (h : Host F) where
  unfoldable pub read_defaults : Environment → Result (Defaults F)
  unfolding getenv
  read_defaults env = do
    port ← h.int (getenv (codes "FLOW_PROXY_PORT") (codes "8899") env)
    client_timeout ← h.float (getenv (codes "FLOW_PROXY_CLIENT_TIMEOUT") (codes "600") env)
    ok (record {
      port = port;
      host = getenv (codes "FLOW_PROXY_HOST") (codes "127.0.0.1") env;
      log_level = getenv (codes "FLOW_PROXY_LOG_LEVEL") (codes "INFO") env;
      secrets_file = getenv (codes "FLOW_PROXY_SECRETS_FILE") (codes "secrets.json") env;
      log_dir = getenv (codes "FLOW_PROXY_LOG_DIR") (codes "logs") env;
      client_timeout = client_timeout;
    })

  pub machine_of : Environment → Machine F
  machine_of env = record {
    workers_variable = lookup (codes "FLOW_PROXY_NUM_WORKERS") env;
    threaded_variable = lookup (codes "FLOW_PROXY_THREADED") env;
    cpu_count = h.cpu_count;
    int = h.int;
    int_of = h.int_of;
  }

  launch : CommandLine F → World → Result RuntimeConfig → Outcome × World
  unfolding store exit_of build_proxy_args
  launch c w (err e) = (raises e, w)
  launch c w (ok r) = (
    exit_of (h.run_proxy (build_proxy_args c.arguments r) (store c w.environment)),
    record w {
      environment = store c w.environment;
      launched = w.launched ++ (build_proxy_args c.arguments r, store c w.environment) ∷ [];
    },
  )

  -- After the log set-up.
  checked : CommandLine F → World → Done → Outcome × World
  unfolding launch machine_of resolve_runtime_config
  checked c w (some e, logs) = (raises e, record w { logs = logs })
  checked c w (none, logs) =
      if h.exists c.secrets_file
      then launch c (record w { logs = logs })
          (resolve_runtime_config (machine_of w.environment) c.arguments)
      else (exits 1, record w { logs = logs })

  parsed : World → Parsed F → Outcome × World
  unfolding checked setup_logging
  parsed w (leaves status) = (exits status, w)
  parsed w (accepted c) =
      checked c w (setup_logging h.python h.files w.environment c.log_level c.log_dir w.logs)

  with_defaults : World → Result (Defaults F) → Outcome × World
  unfolding parsed
  with_defaults w (err e) = (raises e, w)
  with_defaults w (ok d) = parsed w (h.parse_args d)

  unfoldable pub main : World → Outcome × World
  unfolding with_defaults read_defaults
  main w = with_defaults w (read_defaults w.environment)
