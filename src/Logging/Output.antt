-- ===== src/Logging/Output.antt =====
-- flow_proxy_plugin/utils/logging.py: the two kinds of handlers, their formatters, and the root
-- logger. The line that `logging.Formatter` makes of a record is a parameter. A logger hands one
-- record object to its handlers in order, each of which takes it at its level or above.
pub mod Colors
use flow_proxy.Base.{
  ℕ, zero, suc, ◌-◌, ◌==◌, nat_eq, Bool, true, false, Option, none, some, List, [], ◌∷◌, ◌++◌, Text,
  codes, lookup, length, leb, if◌then◌else◌,
}
use flow_proxy.Logging.Settings.{
  Python, FormatConfig, RotationConfig, LogConfig, log_level, log_file_path, or_else,
}

-- `logging.LogRecord`, as far as the formats and the colours go.
pub record Entry : Type 0 where
  pub name : Text
  pub levelname : Text
  pub levelno : ℕ
  pub message : Text

-- The escape character, and what comes after it.
ansi : Text → Text
ansi t = 27 ∷ t

abbrev pub reset_color : Text
unfolding ansi
reset_color = ansi (codes "[0m")

abbrev pub bright_black : Text
unfolding ansi
bright_black = ansi (codes "[90m")

-- `LEVEL_COLORS`
pub level_colors : List (ℕ × Text)
unfolding ansi
level_colors =
    (10, bright_black)
    ∷ (20, ansi (codes "[96m"))
    ∷ (30, ansi (codes "[93m"))
    ∷ (40, ansi (codes "[91m"))
    ∷ (50, ansi (codes "[31m") ++ ansi (codes "[1m"))
    ∷ []

spaces : ℕ → Text
spaces zero = []
spaces (suc n) = 32 ∷ spaces n

-- `{text:8s}`
pub padded : Text → Text
unfolding spaces
padded t = t ++ spaces (8 - length t)

-- What `ColoredFormatter.format` assigns to the record.
unfoldable pub colored : Entry → Entry
unfolding level_colors padded or_else
colored e = record e {
  levelname = or_else (lookup e.levelno level_colors) [] ++ (padded e.levelname ++ reset_color);
  name = bright_black ++ (e.name ++ reset_color);
}

-- A format and a format of dates.
pub data Formatter : Type 0 where
  colored_formatter : Text → Text → Formatter
  plain_formatter : Text → Text → Formatter

-- The line, and the record as the formatter leaves it.
pub format : (Text → Text → Entry → Text) → Formatter → Entry → Text × Entry
unfolding colored
format line (colored_formatter fmt dates) e = (line fmt dates (colored e), colored e)
format line (plain_formatter fmt dates) e = (line fmt dates e, e)

-- What TimedRotatingFileHandler is made with.
pub record RotatingFile : Type 0 where
  pub filename : Text
  pub rotation : RotationConfig

-- A console handler writes to no file.
pub record Sink : Type 0 where
  pub formatter : Formatter
  pub level : ℕ
  pub file : Option RotatingFile

unfoldable pub create_console_handler : LogConfig → Sink
create_console_handler config = record {
  formatter = colored_formatter config.format.console_format config.format.console_date_format;
  level = 0;
  file = none;
}

unfoldable pub create_file_handler : Python → LogConfig → Sink
unfolding log_file_path
create_file_handler py config = record {
  formatter = plain_formatter config.format.file_format config.format.file_date_format;
  level = 0;
  file = some (record { filename = log_file_path py config; rotation = config.rotation });
}

pub record RootLogger : Type 0 where
  pub level : ℕ
  pub handlers : List Sink

-- `logging.basicConfig` with `force=True` puts these handlers in place of the ones that are there.
unfoldable pub configure_root_logger : Python → LogConfig → RootLogger
unfolding log_level create_console_handler create_file_handler
configure_root_logger py config = record {
  level = log_level py config;
  handlers = create_console_handler config ∷ create_file_handler py config ∷ [];
}

module _ (line : Text → Text → Entry → Text) where
  -- One handler: its line, if it takes the record, and the record for the next one.
  handle : Sink → Entry → Option Text × Entry
  unfolding format
  handle h e =
      if leb h.level e.levelno
      then (some (format line h.formatter e).0, (format line h.formatter e).1)
      else (none, e)

  -- `callHandlers`: what each handler writes of one record.
  unfoldable pub call_handlers : List Sink → Entry → List (Option Text)
  unfolding handle
  call_handlers [] e = []
  call_handlers (h ∷ hs) e = (handle h e).0 ∷ call_handlers hs (handle h e).1
