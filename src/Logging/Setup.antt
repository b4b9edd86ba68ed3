-- ===== src/Logging/Setup.antt =====
-- flow_proxy_plugin/utils/logging.py, `LogSetup` and `setup_logging`: the log set-up of the process
-- that starts the others, with the cleaning that `LogCleaner.start` begins with. It is called once,
-- when there is no cleaner yet, so `init_log_cleaner` has no thread to join. What opening the log
-- file does to its directory, and which directories cannot be made, are parameters.
pub mod Outcome
use flow_proxy.Base.{
  ℕ, ℤ, pos, negsuc, ℕ, Bool, true, false, Option, none, some, List, [], Text, text_eq, lookup,
  insert, Exc, Result, ok, err, if◌then◌else◌,
}
use flow_proxy.Logging.{CleanupConfig}
use flow_proxy.Logging.Settings.{
  Python, Environment, LogConfig, log_config_from_env, log_file_path, or_else,
}
use flow_proxy.Logging.Output.{RootLogger, configure_root_logger}
use flow_proxy.LogCleaner.{LogFile, Disk, Settings, cleanup_logs}
use flow_proxy.LogCleaner.Threads.Shared.{State, SharedEvent, shared_step}

pub record Files : Type 0 where
  pub disk : Disk
  pub now : ℕ
  -- The error of `mkdir`.
  pub mkdir_error : Text → Option Exc
  -- The files of the directory after the log file of that path was opened in it.
  pub open_log : Text → List LogFile → Result (List LogFile)

-- The root logger, the module's cleaner, and the directories that there are.
pub record Logs : Type 0 where
  pub root : RootLogger
  pub cleaner : State
  pub directories : List (Text × List LogFile)

-- An error, or none, and what the code has changed until then.
abbrev pub Done : Type 0
Done = Option Exc × Logs

-- One statement after the other.
pub and_then : Done → (Logs → Done) → Done
and_then (none, logs) rest = rest logs
and_then (some e, logs) rest = (some e, logs)

-- A size limit is only asked whether it is positive, and used where it is.
abbrev pub not_negative : ℤ → ℕ
not_negative (pos n) = n
not_negative (negsuc n) = 0

abbrev pub settings_of : CleanupConfig → Settings
settings_of c = record {
  retention_days = c.retention_days;
  max_size_mb = not_negative c.max_size_mb;
}

module _ (py : Python) (files : Files) where
  made : Text → Option Exc → Logs → Done
  made dir none logs = (
    none,
    record logs {
      directories = insert dir (or_else (lookup dir logs.directories) []) logs.directories;
    },
  )
  made dir (some e) logs = (some e, logs)

  -- `mkdir(parents=True, exist_ok=True)`
  pub mkdir : Text → Logs → Done
  unfolding made
  mkdir dir logs = made dir (files.mkdir_error dir) logs

  opened : LogConfig → Result (List LogFile) → Logs → Done
  opened config (ok fs) logs = (
    none,
    record logs {
      root = configure_root_logger py config;
      directories = insert config.log_dir fs logs.directories;
    },
  )
  opened config (err e) logs = (some e, logs)

  -- `configure_root_logger`, whose file handler opens the log file.
  pub configure_root : LogConfig → Logs → Done
  unfolding opened
  configure_root config logs =
      opened config
        (files.open_log (log_file_path py config)
          (or_else (lookup config.log_dir logs.directories) []))
        logs

  -- The cleaning that `start` does before it makes its thread.
  first_cleaning : LogConfig → Logs → Logs
  first_cleaning config logs = record logs {
    directories =
        insert config.log_dir
          (cleanup_logs files.disk files.now (settings_of config.cleanup)
            (or_else (lookup config.log_dir logs.directories) [])).left
          logs.directories;
  }

  begun : LogConfig → Logs → Done
  unfolding first_cleaning
  begun config logs = (
    none,
    record (first_cleaning config logs) {
      cleaner = shared_step logs.cleaner (SharedEvent.inits true);
    },
  )

  -- `initialize_cleaner`; a cleaner that is not enabled is made, and does nothing. The directory was
  -- made before, so that the `mkdir` of `start` does not raise here.
  pub initialize_cleaner : LogConfig → Logs → Done
  unfolding begun mkdir and_then
  initialize_cleaner config logs =
      if config.cleanup.enabled
      then and_then (mkdir config.log_dir logs) (begun config)
      else (none, record logs { cleaner = shared_step logs.cleaner (SharedEvent.inits false) })

  set_up : Result LogConfig → Logs → Done
  unfolding mkdir configure_root initialize_cleaner and_then
  set_up (err e) logs = (some e, logs)
  set_up (ok config) logs =
      and_then (and_then (mkdir config.log_dir logs) (configure_root config))
        (initialize_cleaner config)

  unfoldable pub setup_logging : Environment → Text → Text → Logs → Done
  unfolding set_up log_config_from_env
  setup_logging env level log_dir logs = set_up (log_config_from_env py env level log_dir) logs
