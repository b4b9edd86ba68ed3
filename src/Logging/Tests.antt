-- ===== src/Logging/Tests.antt =====
-- A logger with two file handlers next to each other.
use flow_proxy.Base.{
  pos, ◌≡◌, refl, true, false, not, ◌&&◌, ◌||◌, codes, text_eq, nat_eq, [], ◌∷◌, ◌++◌, Text, ok,
  none, some, lookup, insert, get_elem?,
}
use flow_proxy.Logging.{
  Handler, is_file, console, rotating_file, Logger, info, setup_file_handler_for_child_process,
  LogRecord, warning, broken_pipe_filter, proxy_noise_filter, component_context,
  request_context_filter, get_request_prefix, LogContext,
}
use flow_proxy.Logging.Handlers.{swept, setup_file_handler_for_child_process-swept}
use flow_proxy.Logging.Settings.{
  Python, LogConfig, log_config, log_config_from_env, default_format, default_rotation,
}
use flow_proxy.Logging.Output.{
  Entry, colored, format, create_console_handler, create_file_handler, configure_root_logger,
  call_handlers,
}
use flow_proxy.Logging.Output.Colors.{colorings, colored_times, call_handlers-colorings}
use flow_proxy.Logging.Filters.{
  Filters, broken_pipe, setup_proxy_log_filters, passes, setup_proxy_log_filters-passes,
}
use flow_proxy.Logging.Setup.{Files, Logs, setup_logging}
use flow_proxy.Logging.Setup.Outcome.{IsSetUp, setup_logging-IsSetUp}
use flow_proxy.LogCleaner.Tests.{disk, files, day}
use flow_proxy.LogCleaner.Threads.Shared.{no_cleaner}

abbrev pub inherited : Logger
inherited = record {
  handlers =
      record { number = 0; kind = console }
      ∷ record { number = 1; kind = rotating_file }
      ∷ record { number = 2; kind = rotating_file }
      ∷ [];
  context_filters = 1;
  level = info;
  propagate = true;
}

abbrev added : Handler
added = record { number = 3; kind = rotating_file }

setup_file_handler_for_child_process-swept_example :
    (setup_file_handler_for_child_process added inherited).handlers
    ≡ record { number = 0; kind = console }
      ∷ record { number = 2; kind = rotating_file }
      ∷ added
      ∷ []
unfolding swept is_file
setup_file_handler_for_child_process-swept_example =
    setup_file_handler_for_child_process-swept added inherited
      ((refl, (refl, tt)), ((refl, tt), (tt, tt)))

abbrev outside : LogContext
outside = record { req_id = codes "a1"; component = codes "WS" }

-- A line inside `component_context`, and the context after it.
nested_prefix :
    component_context (codes "LB") (λ c. (ok (request_context_filter c (codes "x")), c)) outside
    ≡ (ok (codes "[a1][LB] x"), outside)
unfolding component_context request_context_filter get_request_prefix
nested_prefix = refl

-- Every number in the environment is read as 7.
abbrev pub python : Python
python = record {
  lower = λ t. t;
  upper = λ t. t;
  int = λ t. ok (pos 7);
  attribute = λ t. none;
  join_path = λ a b. a ++ (codes "/" ++ b);
}

abbrev pub host_files : Files
host_files = record {
  disk = disk;
  now = day 20;
  mkdir_error = λ d. none;
  open_log = λ path fs. ok files;
}

abbrev pub no_logs : Logs
no_logs = record {
  root = record { level = 30; handlers = [] };
  cleaner = no_cleaner;
  directories = [];
}

pub sets_up : (setup_logging python host_files [] (codes "INFO") (codes "logs") no_logs).0 ≡ none
unfolding setup_logging log_config_from_env log_config lookup insert
sets_up = refl

setup_logging-IsSetUp_example :
    IsSetUp python host_files []
      (codes "INFO")
      (codes "logs")
      no_logs
      (setup_logging python host_files [] (codes "INFO") (codes "logs") no_logs).1
setup_logging-IsSetUp_example =
    setup_logging-IsSetUp python host_files [] (codes "INFO") (codes "logs") no_logs _ refl (λ i.
      (sets_up i, (setup_logging python host_files [] (codes "INFO") (codes "logs") no_logs).1))

-- A format of the names only.
abbrev names_line : Text → Text → Entry → Text
names_line fmt dates e = e.levelname ++ e.name

abbrev entry : Entry
entry = record {
  name = codes "flow_proxy";
  levelname = codes "INFO";
  levelno = 20;
  message = codes "started";
}

abbrev config : LogConfig
config = record {
  level = codes "INFO";
  log_dir = codes "logs";
  log_filename = codes "a.log";
  format = default_format;
  rotation = default_rotation;
  cleanup = record {
    enabled = true;
    retention_days = pos 7;
    cleanup_interval_hours = pos 24;
    max_size_mb = pos 100;
  };
}

-- The line in the file begins with the escape code of INFO.
file_escape : get_elem? (names_line [] [] (colored entry)) 0 ≡ some 27
unfolding colored lookup
file_escape = refl

call_handlers-colorings_example :
    get_elem? (call_handlers names_line (configure_root_logger python config).handlers entry) 1
    ≡ some (
        some
          (format names_line
            (create_file_handler python config).formatter
            (colored_times (colorings 20 (create_console_handler config ∷ [])) entry)).0)
unfolding configure_root_logger create_file_handler
call_handlers-colorings_example =
    call_handlers-colorings names_line (create_console_handler config ∷ [])
      (create_file_handler python config) [] entry refl

abbrev broken : LogRecord
broken = record {
  name = codes "proxy.http.handler";
  level = warning;
  message = codes "BrokenPipeError while flushing";
}

abbrev some_filters : Filters
some_filters = (codes "proxy.http.handler", broken_pipe ∷ []) ∷ []

setup_proxy_log_filters-passes_example :
    passes (setup_proxy_log_filters true false some_filters) broken ≡ (
      passes some_filters broken
      && (not true || broken_pipe_filter broken)
      && (not false || proxy_noise_filter broken))
setup_proxy_log_filters-passes_example =
    setup_proxy_log_filters-passes true false some_filters broken
