-- ===== src/Logging/Settings.antt =====
-- flow_proxy_plugin/utils/logging.py: the settings of the log output, with their defaults. A path
-- is a text, and how pathlib joins two is a parameter; so are `str.upper`, the attributes of the
-- module `logging`, and the `lower` and `int` of CleanupConfig. A level is its number.
use flow_proxy.Base.{
  ℤ, ℕ, Option, none, some, List, Text, codes, text_eq, ◌==◌, false, refl, lookup, insert,
  lookup-insert, lookup-insert_self, Result, ok, err, ok_inj, ◌>>=◌, ◌≡◌, sym, ap,
}
use flow_proxy.Logging.{CleanupConfig, cleanup_config_from_env}

pub record FormatConfig : Type 0 where
  pub console_format : Text
  pub console_date_format : Text
  pub file_format : Text
  pub file_date_format : Text

abbrev pub default_format : FormatConfig
default_format = record {
  console_format = codes "%(levelname)s %(name)s - %(message)s";
  console_date_format = codes "%H:%M:%S";
  file_format = codes "%(asctime)s - %(name)s - %(levelname)s - %(message)s";
  file_date_format = codes "%Y-%m-%d %H:%M:%S";
}

pub record RotationConfig : Type 0 where
  pub when : Text
  pub interval : ℕ
  pub backup_count : ℕ
  pub suffix : Text
  pub encoding : Text

abbrev pub default_rotation : RotationConfig
default_rotation = record {
  when = codes "midnight";
  interval = 1;
  backup_count = 7;
  suffix = codes "%Y-%m-%d";
  encoding = codes "utf-8";
}

pub record LogConfig : Type 0 where
  pub level : Text
  pub log_dir : Text
  pub log_filename : Text
  pub format : FormatConfig
  pub rotation : RotationConfig
  pub cleanup : CleanupConfig

-- `os.environ`
abbrev pub Environment : Type 0
Environment = List (Text × Text)

pub record Python : Type 0 where
  pub lower : Text → Text
  pub upper : Text → Text
  pub int : Text → Result ℤ
  -- `getattr(logging, name)`
  pub attribute : Text → Option ℕ
  pub join_path : Text → Text → Text

abbrev pub log_filename : Text
log_filename = codes "flow_proxy_plugin.log"

abbrev pub info_level : ℕ
info_level = 20

unfoldable pub or_else {ℓ} : {A : Type ℓ} → Option A → A → A
or_else none default = default
or_else (some a) default = a

-- `os.getenv(name, default)`
unfoldable pub getenv : Text → Text → Environment → Text
unfolding or_else
getenv name default env = or_else (lookup name env) default

pub getenv-insert :
    (name value default : Text) (env : Environment)
    → getenv name default (insert name value env) ≡ value
unfolding getenv or_else
getenv-insert name value default env = rw (lookup-insert_self name value env) refl

pub getenv-insert_other :
    (name other value default : Text) (env : Environment)
    → (other == name) ≡ false
    → getenv name default (insert other value env) ≡ getenv name default env
unfolding getenv
getenv-insert_other name other value default env apart =
    rw (lookup-insert other name value env, apart) refl

-- `__post_init__`, for a cleanup that was given or not.
cleanup_or_env : Result CleanupConfig → Option CleanupConfig → Result CleanupConfig
cleanup_or_env from_env none = from_env
cleanup_or_env from_env (some c) = ok c

module _ (py : Python) where
  -- `CleanupConfig.from_env`
  pub cleanup_from_env : Environment → Result CleanupConfig
  unfolding cleanup_config_from_env
  cleanup_from_env env =
      cleanup_config_from_env py.lower py.int (lookup (codes "FLOW_PROXY_LOG_CLEANUP_ENABLED") env)
        (lookup (codes "FLOW_PROXY_LOG_RETENTION_DAYS") env)
        (lookup (codes "FLOW_PROXY_LOG_CLEANUP_INTERVAL_HOURS") env)
        (lookup (codes "FLOW_PROXY_LOG_MAX_SIZE_MB") env)

  -- `LogConfig(level, log_dir, format=…, rotation=…, cleanup=…)` with its `__post_init__`.
  unfoldable pub log_config :
      Environment
      → Text
      → Text
      → Option FormatConfig
      → Option RotationConfig
      → Option CleanupConfig
      → Result LogConfig
  unfolding or_else cleanup_or_env cleanup_from_env
  log_config env level log_dir format rotation cleanup = do
    cleanup ← cleanup_or_env (cleanup_from_env env) cleanup
    ok (record {
      level = level;
      log_dir = log_dir;
      log_filename = log_filename;
      format = or_else format default_format;
      rotation = or_else rotation default_rotation;
      cleanup = cleanup;
    })

  -- `LogConfig.from_env`
  unfoldable pub log_config_from_env : Environment → Text → Text → Result LogConfig
  unfolding cleanup_from_env log_config
  log_config_from_env env level log_dir = do
    cleanup ← cleanup_from_env env
    log_config env level log_dir (some default_format) (some default_rotation) (some cleanup)

  unfoldable pub log_level : LogConfig → ℕ
  unfolding or_else
  log_level config = or_else (py.attribute (py.upper config.level)) info_level

  unfoldable pub log_file_path : LogConfig → Text
  log_file_path config = py.join_path config.log_dir config.log_filename

  config_cases :
      (from_env cleanup : Result CleanupConfig) (level log_dir : Text) (config : LogConfig)
      → (cleanup >>= (λ c. cleanup_or_env from_env (some c) >>= (λ d. ok (record {
        level = level;
        log_dir = log_dir;
        log_filename = log_filename;
        format = default_format;
        rotation = default_rotation;
        cleanup = d;
      }))))
        ≡ ok config
      → (cleanup ≡ ok config.cleanup) × (config.level ≡ level) × (config.log_dir ≡ log_dir)
  unfolding cleanup_or_env
  config_cases from_env (ok c) level log_dir config h =
      let e = sym (ok_inj h) in
      (
        ap ok (sym (ap (λ (x : LogConfig). x.cleanup) e)),
        ap (λ (x : LogConfig). x.level) e,
        ap (λ (x : LogConfig). x.log_dir) e,
      )
  config_cases from_env (err e) level log_dir config h = cc

  -- The settings have the level, the directory and the cleanup that they were made with.
  pub log_config_from_env_cases :
      (env : Environment) (level log_dir : Text) (config : LogConfig)
      → log_config_from_env env level log_dir ≡ ok config
      → (cleanup_from_env env ≡ ok config.cleanup)
        × (config.level ≡ level)
        × (config.log_dir ≡ log_dir)
  unfolding log_config_from_env log_config
  log_config_from_env_cases env level log_dir config h =
      config_cases (cleanup_from_env env) (cleanup_from_env env) level log_dir config h
