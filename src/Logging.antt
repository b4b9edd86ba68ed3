-- ===== src/Logging.antt =====
-- flow_proxy_plugin/utils/logging.py, log_context.py and log_filter.py in the same directory: the
-- context of a thread's log lines, which lines are suppressed, and the handlers of a logger. Here
-- a handler is a number with its kind; its formatter and its file are in Logging/Output.antt.
pub mod Handlers
pub mod Settings
pub mod Output
pub mod Filters
pub mod Setup
pub mod Tests
use flow_proxy.Base.{
  ℤ, ℕ, zero, suc, ◌+◌, ◌==◌, nat_eq, Bool, true, false, ◌&&◌, Option, none, some, List, [], ◌∷◌,
  ◌++◌, Text, codes, text_eq, text_beq, length, get_elem?, has_text, if◌then◌else◌, Result, ok,
  ◌>>=◌,
}

-- `_local` of one thread; a missing attribute counts as the empty text.
pub record LogContext : Type 0 where
  pub req_id : Text
  pub component : Text

unfoldable pub set_request_context : Text → Text → LogContext → LogContext
set_request_context req_id component c = record { req_id = req_id; component = component }

unfoldable pub clear_request_context : LogContext → LogContext
clear_request_context c = record { req_id = []; component = [] }

bracketed : Text → Text
bracketed t = codes "[" ++ (t ++ codes "]")

prefix_of : Text → Text → Text
unfolding bracketed
prefix_of [] component = []
prefix_of (r ∷ rs) [] = bracketed (r ∷ rs) ++ codes " "
prefix_of (r ∷ rs) (c ∷ cs) = bracketed (r ∷ rs) ++ (bracketed (c ∷ cs) ++ codes " ")

unfoldable pub get_request_prefix : LogContext → Text
unfolding prefix_of
get_request_prefix c = prefix_of c.req_id c.component

-- `with component_context(name): body`, where the body returns or raises.
unfoldable pub component_context {ℓ} :
    {A : Type ℓ} → Text → (LogContext → Result A × LogContext) → LogContext → Result A × LogContext
component_context name body c =
    let done = body (record c { component = name }) in
    (done.0, record done.1 { component = c.component })

-- `RequestContextFilter.filter` on the message; no line is suppressed.
unfoldable pub request_context_filter : LogContext → Text → Text
unfolding get_request_prefix
request_context_filter c msg = get_request_prefix c ++ msg

pub data LogLevel : Type 0 where
  debug info warning error critical : LogLevel

pub record LogRecord : Type 0 where
  pub name : Text
  pub level : LogLevel
  pub message : Text

is_warning : LogLevel → Bool
is_warning warning = true
is_warning level = false

is_info : LogLevel → Bool
is_info info = true
is_info level = false

-- `BrokenPipeFilter.filter`
unfoldable pub broken_pipe_filter : LogRecord → Bool
unfolding is_warning
broken_pipe_filter r =
    if (r.name == codes "proxy.http.handler")
      && is_warning r.level
      && has_text r.message (codes "BrokenPipeError")
    then false
    else if (r.name == codes "proxy.http.handler")
        && is_warning r.level
        && has_text r.message (codes "ConnectionResetError")
    then false
    else true

-- `ProxyNoiseFilter.filter`
unfoldable pub proxy_noise_filter : LogRecord → Bool
unfolding is_info
proxy_noise_filter r =
    if (r.name == codes "proxy.http.server.web") && is_info r.level then false else true

pub data HandlerKind : Type 0 where
  console rotating_file : HandlerKind

pub record Handler : Type 0 where
  pub number : ℕ
  pub kind : HandlerKind

-- The handlers and how many context filters a logger has.
pub record Logger : Type 0 where
  pub handlers : List Handler
  pub context_filters : ℕ
  pub level : LogLevel
  pub propagate : Bool

unfoldable pub setup_colored_logger : Handler → LogLevel → Bool → Logger → Logger
setup_colored_logger console_handler level propagate logger = record {
  handlers = console_handler ∷ [];
  context_filters = 1;
  level = level;
  propagate = propagate;
}

unfoldable pub is_file : Handler → Bool
is_file h = file h.kind
  where
    file : HandlerKind → Bool
    file console = false
    file rotating_file = true

-- `logger.removeHandler`: the first that is this object.
pub remove_handler : Handler → List Handler → List Handler
remove_handler h [] = []
remove_handler h (k ∷ ks) =
    let rest = remove_handler h ks in if k.number == h.number then ks else k ∷ rest

visit : List Handler → Option Handler → List Handler
unfolding remove_handler is_file
visit handlers none = handlers
visit handlers (some h) = if is_file h then remove_handler h handlers else handlers

-- `for handler in logger.handlers` over the list that the body changes: the loop goes on with the
-- next index of the list as it then is, and ends where the index is past its end. The fuel is the
-- number of handlers at the start, which are never more.
pub remove_files : ℕ → ℕ → List Handler → List Handler
unfolding visit
remove_files zero i handlers = handlers
remove_files (suc fuel) i handlers =
    remove_files fuel (i + 1) (visit handlers (get_elem? handlers i))

unfoldable pub setup_file_handler_for_child_process : Handler → Logger → Logger
unfolding remove_files
setup_file_handler_for_child_process file_handler logger = record logger {
  handlers = remove_files (length logger.handlers) 0 logger.handlers ++ file_handler ∷ [];
}

pub record CleanupConfig : Type 0 where
  pub enabled : Bool
  pub retention_days : ℤ
  pub cleanup_interval_hours : ℤ
  pub max_size_mb : ℤ

or_text : Option Text → Text → Text
or_text none default = default
or_text (some t) default = t

-- `CleanupConfig.from_env` on the four variables; `int` is a parameter.
unfoldable pub cleanup_config_from_env :
    (Text → Text)
    → (Text → Result ℤ)
    → Option Text
    → Option Text
    → Option Text
    → Option Text
    → Result CleanupConfig
unfolding or_text
cleanup_config_from_env lower int enabled retention interval max_size = do
  retention_days ← int (or_text retention (codes "7"))
  cleanup_interval_hours ← int (or_text interval (codes "24"))
  max_size_mb ← int (or_text max_size (codes "100"))
  ok (record {
    enabled = lower (or_text enabled (codes "true")) == codes "true";
    retention_days = retention_days;
    cleanup_interval_hours = cleanup_interval_hours;
    max_size_mb = max_size_mb;
  })
