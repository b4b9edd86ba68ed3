-- ===== src/ProcessServices/Initialize.antt =====
-- `_initialize` from its first line on: the process's logger, the filters of proxy.py's loggers,
-- and then the services, with what the environment names. A call that raises leaves what was
-- changed until then. The level that a text names, and which directories, log files and httpx
-- clients cannot be made, are parameters, and so is what the secrets files hold.
use flow_proxy.Base.{
  ℕ, ◌+◌, ◌≡◌, refl, ◌∙◌, Bool, true, false, ◌&&◌, Option, none, some, [], ◌∷◌, Text, List, ◌⊎◌,
  inl, inr, if◌then◌else◌, codes, text_eq, Exc, Result, ok, err,
}
use flow_proxy.Json.{Json}
use flow_proxy.Failover.{Services}
use flow_proxy.Logging.{
  Handler, LogLevel, LogRecord, console, rotating_file, Logger, is_file, setup_colored_logger,
  setup_file_handler_for_child_process, broken_pipe_filter, proxy_noise_filter,
}
use flow_proxy.Logging.Handlers.{swept, setup_file_handler_for_child_process-swept}
use flow_proxy.Logging.Settings.{
  Python, Environment, LogConfig, log_config, log_config_from_env, log_file_path, getenv,
}
use flow_proxy.Logging.Filters.{
  Filters, setup_proxy_log_filters, passes, setup_proxy_log_filters-passes,
}
use flow_proxy.ProcessServices.{initialize}

pub record System : Type 0 where
  pub python : Python
  -- `getattr(logging, level.upper(), logging.INFO)`
  pub level : Text → LogLevel
  pub mkdir_error : Text → Option Exc
  pub open_error : Text → Option Exc
  -- `_resolve_config_path` of SecretsManager, and `exists()`
  pub exists : Text → Result Bool
  pub read : Text → Result Json
  -- `httpx.Client(...)`
  pub client_error : Option Exc

-- The logger "flow_proxy", the one of `SecretsManager`, the filters of proxy.py's loggers, and how many handlers were made.
pub record ProcessLogs : Type 0 where
  pub logger : Logger
  pub secrets_logger : Logger
  pub filters : Filters
  pub handlers_made : ℕ

unfoldable pub secrets_file_of : Environment → Text
unfolding getenv
secrets_file_of = getenv (codes "FLOW_PROXY_SECRETS_FILE") (codes "secrets.json")

unfoldable pub log_level_of : Environment → Text
unfolding getenv
log_level_of = getenv (codes "FLOW_PROXY_LOG_LEVEL") (codes "INFO")

unfoldable pub log_dir_of : Environment → Text
unfolding getenv
log_dir_of = getenv (codes "FLOW_PROXY_LOG_DIR") (codes "logs")

module _ (sys : System) where
  -- `setup_colored_logger(self.logger, log_level, propagate=False)`, whose LogConfig reads the
  -- cleanup from the environment after the handlers and filters were cleared.
  color_logger : Text → Result LogConfig → ProcessLogs → Option Exc × ProcessLogs
  unfolding setup_colored_logger
  color_logger level (err e) logs = (
    some e,
    record logs {
      logger = record {
        handlers = [];
        context_filters = 1;
        level = sys.level level;
        propagate = logs.logger.propagate;
      };
    },
  )
  color_logger level (ok config) logs = (
    none,
    record logs {
      logger =
          setup_colored_logger (record { number = logs.handlers_made; kind = console })
            (sys.level level) false logs.logger;
      handlers_made = logs.handlers_made + 1;
    },
  )

  add_file : Option Exc → Option Exc → ProcessLogs → Option Exc × ProcessLogs
  unfolding setup_file_handler_for_child_process
  add_file (some e) opening logs = (some e, logs)
  add_file none (some e) logs = (some e, logs)
  add_file none none logs = (
    none,
    record logs {
      logger =
          setup_file_handler_for_child_process
            (record { number = logs.handlers_made; kind = rotating_file }) logs.logger;
      handlers_made = logs.handlers_made + 1;
    },
  )

  -- `setup_file_handler_for_child_process(self.logger, log_level, log_dir)`
  file_logger : Result LogConfig → ProcessLogs → Option Exc × ProcessLogs
  unfolding add_file
  file_logger (err e) logs = (some e, logs)
  file_logger (ok config) logs =
      add_file (sys.mkdir_error config.log_dir) (sys.open_error (log_file_path sys.python config))
        logs

  with_client : Option Exc → Result Services → Result Services
  with_client (some e) (ok s) = err e
  with_client raised r = r

  needs_handler : Text → List Handler → Bool
  needs_handler (c ∷ cs) [] = true
  needs_handler level handlers = false

  -- `SecretsManager()` sets up its own logger, where that has no handlers and the level is not
  -- empty. Its LogConfig is that of `color_logger`, which did not raise.
  secrets_log : Text → ProcessLogs → ProcessLogs
  unfolding needs_handler setup_colored_logger
  secrets_log level logs = record logs {
    secrets_logger =
        if needs_handler level logs.secrets_logger.handlers
        then setup_colored_logger (record { number = logs.handlers_made; kind = console })
            (sys.level level) true logs.secrets_logger
        else logs.secrets_logger;
    handlers_made =
        if needs_handler level logs.secrets_logger.handlers
        then logs.handlers_made + 1
        else logs.handlers_made;
  }

  serving : Environment → Option Exc × ProcessLogs → Result Services × ProcessLogs
  unfolding setup_proxy_log_filters initialize with_client secrets_log
  serving env (some e, logs) = (err e, logs)
  serving env (none, logs) = (
    with_client sys.client_error
        (initialize (sys.exists (secrets_file_of env)) (sys.read (secrets_file_of env))),
    secrets_log (log_level_of env)
        (record logs { filters = setup_proxy_log_filters true true logs.filters }),
  )

  filed : Environment → Option Exc × ProcessLogs → Result Services × ProcessLogs
  unfolding serving file_logger
  filed env (some e, logs) = (err e, logs)
  filed env (none, logs) =
      serving env
        (file_logger (log_config_from_env sys.python env (log_level_of env) (log_dir_of env)) logs)

  unfoldable pub process_initialize : Environment → ProcessLogs → Result Services × ProcessLogs
  unfolding filed color_logger log_config
  process_initialize env logs = filed env (
      color_logger (log_level_of env)
        (log_config sys.python env (log_level_of env) (codes "logs") none none none) logs)

  -- There is a handler, unless the level is empty.
  abbrev IsHandled : Text → List Handler → Type 0
  IsHandled level handlers =
      (level ≡ []) ⊎ ((h : Handler) × (hs : List Handler) × (handlers ≡ h ∷ hs))

  -- The services come from the file that the environment names; the logger has one console handler
  -- and one file handler, one context filter, and hands nothing on; what proxy.py's loggers let
  -- pass is less by the two filters.
  pub record IsInitialized (env : Environment) (before : ProcessLogs) (s : Services)
      (after : ProcessLogs) : Type 0 where
    pub loaded :
        initialize (sys.exists (secrets_file_of env)) (sys.read (secrets_file_of env)) ≡ ok s
    pub client_made : sys.client_error ≡ none
    pub handlers :
        after.logger.handlers
        ≡ record { number = before.handlers_made; kind = console }
          ∷ record { number = before.handlers_made + 1; kind = rotating_file }
          ∷ []
    pub filtered : after.logger.context_filters ≡ 1
    pub kept_here : after.logger.propagate ≡ false
    pub secrets_handled : IsHandled (log_level_of env) after.secrets_logger.handlers
    pub passing :
        (r : LogRecord)
        → passes after.filters r
          ≡ (passes before.filters r && broken_pipe_filter r && proxy_noise_filter r)

  -- The logger as `setup_colored_logger` leaves it.
  console_logger : ProcessLogs → Text → ProcessLogs
  unfolding setup_colored_logger
  console_logger logs level = record logs {
    logger =
        setup_colored_logger (record { number = logs.handlers_made; kind = console })
          (sys.level level) false logs.logger;
    handlers_made = logs.handlers_made + 1;
  }

  with_client_ok :
      (o : Option Exc) (r : Result Services) (s : Services)
      → with_client o r ≡ ok s
      → (r ≡ ok s) × (o ≡ none)
  unfolding with_client
  with_client_ok (some e) (ok s') s h = cc
  with_client_ok (some e) (err x) s h = cc
  with_client_ok none (ok s') s h = (h, refl)
  with_client_ok none (err x) s h = cc

  handled_lem :
      (level : Text) (logger : Logger) (n : ℕ) (l : LogLevel)
      → IsHandled level
          (if needs_handler level logger.handlers
            then setup_colored_logger (record { number = n; kind = console }) l true logger
            else logger).handlers
  unfolding needs_handler setup_colored_logger
  handled_lem level logger n l = cases level logger.handlers refl
    where
      Goal : Text → Bool → Type 0
      Goal t b =
          IsHandled t
            (if b
              then setup_colored_logger (record { number = n; kind = console }) l true logger
              else logger).handlers

      cases : (t : Text) (hs : List Handler) → logger.handlers ≡ hs → Goal t (needs_handler t hs)
      cases [] hs e = inl refl
      cases (c ∷ cs) [] e = inr (_, [], refl)
      cases (c ∷ cs) (h ∷ hs) e = inr (h, hs, e)

  add_file-IsInitialized :
      (env : Environment) (logs : ProcessLogs) (s : Services) (making opening : Option Exc)
      → (serving env (add_file making opening (console_logger logs (log_level_of env)))).0 ≡ ok s
      → IsInitialized env logs s
          (serving env (add_file making opening (console_logger logs (log_level_of env)))).1
  unfolding serving add_file console_logger
  add_file-IsInitialized env logs s (some e) opening h = cc
  add_file-IsInitialized env logs s none (some e) h = cc
  add_file-IsInitialized env logs s none none h =
      let made = with_client_ok sys.client_error _ s h in
      record {
        loaded = made.0;
        client_made = made.1;
        handlers =
            setup_file_handler_for_child_process-swept
              (record { number = logs.handlers_made + 1; kind = rotating_file })
              (console_logger logs (log_level_of env)).logger (tt, tt)
            ∙ unfold swept is_file in refl;
        filtered = unfold setup_file_handler_for_child_process in refl;
        kept_here = unfold setup_file_handler_for_child_process in refl;
        secrets_handled =
            handled_lem (log_level_of env) logs.secrets_logger (logs.handlers_made + 1 + 1)
              (sys.level (log_level_of env));
        passing = setup_proxy_log_filters-passes true true logs.filters;
      }

  file_logger-IsInitialized :
      (env : Environment) (logs : ProcessLogs) (s : Services) (r : Result LogConfig)
      → (serving env (file_logger r (console_logger logs (log_level_of env)))).0 ≡ ok s
      → IsInitialized env logs s
          (serving env (file_logger r (console_logger logs (log_level_of env)))).1
  unfolding serving file_logger
  file_logger-IsInitialized env logs s (err e) h = cc
  file_logger-IsInitialized env logs s (ok config) h =
      add_file-IsInitialized env logs s (sys.mkdir_error config.log_dir)
        (sys.open_error (log_file_path sys.python config)) h

  color_logger-IsInitialized :
      (env : Environment) (logs : ProcessLogs) (s : Services) (r : Result LogConfig)
      → (filed env (color_logger (log_level_of env) r logs)).0 ≡ ok s
      → IsInitialized env logs s (filed env (color_logger (log_level_of env) r logs)).1
  unfolding filed color_logger console_logger
  color_logger-IsInitialized env logs s (err e) h = cc
  color_logger-IsInitialized env logs s (ok config) h =
      file_logger-IsInitialized env logs s
        (log_config_from_env sys.python env (log_level_of env) (log_dir_of env)) h

  -- Whatever handlers, filters and level there were before: when the set-up of a process's services
  -- raises nothing, they come from the secrets file that the environment names; the logger has one
  -- console handler and behind it one file handler, one context filter, and hands nothing on; the
  -- logger of SecretsManager has a handler, unless the level is empty; and every logger lets pass what it did before, less what the two filters for proxy.py suppress.
  pub process_initialize-IsInitialized :
      (env : Environment) (logs : ProcessLogs) (s : Services)
      → (process_initialize env logs).0 ≡ ok s
      → IsInitialized env logs s (process_initialize env logs).1
  unfolding process_initialize
  process_initialize-IsInitialized env logs s h =
      color_logger-IsInitialized env logs s
        (log_config sys.python env (log_level_of env) (codes "logs") none none none) h
