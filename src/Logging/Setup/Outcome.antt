-- ===== src/Logging/Setup/Outcome.antt =====
-- What the log set-up leaves.
use flow_proxy.Base.{
  ◌≡◌, refl, sym, ap, subst, ◌∙◌, ◌⊎◌, inl, inr, Bool, true, false, Bool-cases, Option, none, some,
  List, [], Text, text_eq, lookup, lookup-insert_self, Exc, Result, ok, err, Result-cases,
  if◌then◌else◌,
}
use flow_proxy.Logging.Settings.{
  Python, Environment, LogConfig, log_config_from_env, log_config_from_env_cases, log_file_path,
  or_else,
}
use flow_proxy.Logging.Output.{configure_root_logger}
use flow_proxy.LogCleaner.{LogFile, Sweep, cleanup_logs}
use flow_proxy.LogCleaner.Cleaning.{IsCleaned, cleanup_logs-IsCleaned}
use flow_proxy.LogCleaner.Threads.{Loop, testing, not_started}
use flow_proxy.LogCleaner.Threads.Shared.{
  State, no_cleaner, SharedEvent, shared_step, get_log_cleaner,
}
use flow_proxy.Logging.Setup.{
  Files, Logs, Done, and_then, made, mkdir, opened, configure_root, settings_of, first_cleaning,
  begun, initialize_cleaner, set_up, setup_logging,
}

module _ (py : Python) (files : Files) where
  abbrev thread_of : Logs → Loop
  thread_of logs = (logs.cleaner.cleaners 0).threads 0

  -- With cleanup, what a cleaning leaves of the files in the directory, and a thread for the next
  -- ones; without, all the files and no thread.
  pub record IsSetUp (env : Environment) (level log_dir : Text) (first logs : Logs) : Type 0 where
    pub config : LogConfig
    pub configured : log_config_from_env py env level log_dir ≡ ok config
    pub level_kept : config.level ≡ level
    pub root : logs.root ≡ configure_root_logger py config
    pub held : List LogFile
    pub were : held ≡ or_else (lookup log_dir first.directories) []
    pub before : List LogFile
    pub opened_log : files.open_log (log_file_path py config) held ≡ ok before
    pub swept : Sweep
    pub cleaned : IsCleaned files.disk files.now (settings_of config.cleanup) before swept
    pub started : get_log_cleaner logs.cleaner ≡ some 0
    pub outcome :
        ((config.cleanup.enabled ≡ true)
          × (lookup log_dir logs.directories ≡ some swept.left)
          × (thread_of logs ≡ testing))
        ⊎ ((config.cleanup.enabled ≡ false)
            × (lookup log_dir logs.directories ≡ some before)
            × (thread_of logs ≡ not_started))

  or_else-some : {A : Type 0} → (a b : A) → or_else (some a) b ≡ a
  unfolding or_else
  or_else-some a b = refl

  and_then_cases :
      (d : Done) (rest : Logs → Done) (after : Logs)
      → and_then d rest ≡ (none, after)
      → (middle : Logs) × (d ≡ (none, middle)) × (rest middle ≡ (none, after))
  unfolding and_then
  and_then_cases (none, middle) rest after h = (middle, refl, h)
  and_then_cases (some e, middle) rest after h = cc (ap (λ (d : Done). d.0) h)

  abbrev IsMade : Text → Logs → Logs → Type 0
  IsMade dir logs after =
      (after.cleaner ≡ logs.cleaner)
      × (after.root ≡ logs.root)
      × (lookup dir after.directories ≡ some (or_else (lookup dir logs.directories) []))

  made_cases :
      (dir : Text) (e : Option Exc) (logs after : Logs)
      → made py files dir e logs ≡ (none, after)
      → IsMade dir logs after
  unfolding made
  made_cases dir none logs after h = subst (IsMade dir logs) (ap (λ (d : Done). d.1) h) (
    refl,
    refl,
    lookup-insert_self dir (or_else (lookup dir logs.directories) []) logs.directories,
  )
  made_cases dir (some e) logs after h = cc (ap (λ (d : Done). d.0) h)

  mkdir_cases :
      (dir : Text) (logs after : Logs)
      → mkdir py files dir logs ≡ (none, after)
      → IsMade dir logs after
  unfolding mkdir
  mkdir_cases dir logs after h = made_cases dir (files.mkdir_error dir) logs after h

  abbrev IsOpened : LogConfig → Result (List LogFile) → Logs → Logs → Type 0
  IsOpened config r logs after =
      (before : List LogFile) × (r ≡ ok before)
      × (after.root ≡ configure_root_logger py config)
      × (after.cleaner ≡ logs.cleaner)
      × (lookup config.log_dir after.directories ≡ some before)

  opened_cases :
      (config : LogConfig) (r : Result (List LogFile)) (logs after : Logs)
      → opened py files config r logs ≡ (none, after)
      → IsOpened config r logs after
  unfolding opened
  opened_cases config (ok fs) logs after h =
      subst (IsOpened config (ok fs) logs) (ap (λ (d : Done). d.1) h)
        (fs, refl, refl, refl, lookup-insert_self config.log_dir fs logs.directories)
  opened_cases config (err e) logs after h = cc (ap (λ (d : Done). d.0) h)

  abbrev IsBegun : LogConfig → List LogFile → Logs → Logs → Type 0
  IsBegun config fs logs after =
      (after.root ≡ logs.root)
      × (after.cleaner ≡ shared_step logs.cleaner (SharedEvent.inits true))
      × (lookup config.log_dir after.directories
          ≡ some (cleanup_logs files.disk files.now (settings_of config.cleanup) fs).left)

  begun_cases :
      (config : LogConfig) (fs : List LogFile) (logs after : Logs)
      → lookup config.log_dir logs.directories ≡ some fs
      → begun py files config logs ≡ (none, after)
      → IsBegun config fs logs after
  unfolding begun first_cleaning or_else
  begun_cases config fs logs after l h =
      subst (IsBegun config fs logs) (ap (λ (d : Done). d.1) h)
        (refl, refl, rw l (lookup-insert_self config.log_dir _ logs.directories))

  abbrev IsInitialized : LogConfig → List LogFile → Logs → Logs → Type 0
  IsInitialized config fs logs after =
      (after.root ≡ logs.root)
      × (((config.cleanup.enabled ≡ true)
            × (after.cleaner ≡ shared_step logs.cleaner (SharedEvent.inits true))
            × (lookup config.log_dir after.directories
                ≡ some (cleanup_logs files.disk files.now (settings_of config.cleanup) fs).left))
          ⊎ ((config.cleanup.enabled ≡ false)
              × (after.cleaner ≡ shared_step logs.cleaner (SharedEvent.inits false))
              × (lookup config.log_dir after.directories ≡ some fs)))

  initialize_cleaner_cases :
      (config : LogConfig) (fs : List LogFile) (logs after : Logs)
      → lookup config.log_dir logs.directories ≡ some fs
      → initialize_cleaner py files config logs ≡ (none, after)
      → IsInitialized config fs logs after
  unfolding initialize_cleaner or_else
  initialize_cleaner_cases config fs logs after l h = elim (Bool-cases config.cleanup.enabled) [
    | inl on ↦
        let (middle, m, b) = and_then_cases _ (begun py files config) after (rw on at h) in
        let (kc, kr, kl) = mkdir_cases config.log_dir logs middle m in
        let (r, c, d) =
          begun_cases config fs middle after (kl ∙ ap (λ o. some (or_else o [])) l) b in
        (r ∙ kr, inl (on, c ∙ ap (λ s. shared_step s (SharedEvent.inits true)) kc, d))
    | inr off ↦
        subst (IsInitialized config fs logs) (ap (λ (d : Done). d.1) (rw off at h))
          (refl, inr (off, refl, l))
  ]

  first_started :
      (enabled : Bool) (s : State)
      → s ≡ no_cleaner
      → {t : State} → t ≡ shared_step s (SharedEvent.inits enabled)
      → (get_log_cleaner t ≡ some 0)
        × ((t.cleaners 0).threads 0 ≡ (if enabled then testing else not_started))
  unfolding shared_step get_log_cleaner
  first_started true s e {t} q =
      subst (λ (u : State). (get_log_cleaner u ≡ some 0) × ((u.cleaners 0).threads 0 ≡ testing))
        (sym (q ∙ ap (λ u. shared_step u (SharedEvent.inits true)) e)) (refl, refl)
  first_started false s e {t} q =
      subst (λ (u : State). (get_log_cleaner u ≡ some 0) × ((u.cleaners 0).threads 0 ≡ not_started))
        (sym (q ∙ ap (λ u. shared_step u (SharedEvent.inits false)) e)) (refl, refl)

  set_up-IsSetUp :
      (env : Environment) (level log_dir : Text) (config : LogConfig) (logs after : Logs)
      → log_config_from_env py env level log_dir ≡ ok config
      → logs.cleaner ≡ no_cleaner
      → set_up py files (ok config) logs ≡ (none, after)
      → IsSetUp env level log_dir logs after
  unfolding set_up configure_root
  set_up-IsSetUp env level log_dir config logs after made c h =
      let (rooted, first, last) = and_then_cases _ (initialize_cleaner py files config) after h in
      let (dired, m, r) = and_then_cases _ (configure_root py files config) rooted first in
      let (mc, mr, ml) = mkdir_cases config.log_dir logs dired m in
      let held = or_else (lookup config.log_dir dired.directories) [] in
      let (before, o, oroot, ocleaner, ol) =
        opened_cases config (files.open_log (log_file_path py config) held) dired rooted r in
      let (iroot, ends) = initialize_cleaner_cases config before rooted after ol last in
      let (cleanup, kept, same) = log_config_from_env_cases py env level log_dir config made in
      let none_yet : rooted.cleaner ≡ no_cleaner = ocleaner ∙ mc ∙ c in
      let at : ◌≡◌ {A = Option (List LogFile)} (lookup config.log_dir after.directories)
          (lookup log_dir after.directories) =
        ap (λ d. lookup d after.directories) same in
      record {
        config = config;
        configured = made;
        level_kept = kept;
        root = iroot ∙ oroot;
        held = held;
        were =
            ap (λ o. or_else o [])
              (ml ∙ ap (λ d. some (or_else (lookup d logs.directories) [])) same)
            ∙ or_else-some (or_else (lookup log_dir logs.directories) []) [];
        before = before;
        opened_log = o;
        swept = cleanup_logs files.disk files.now (settings_of config.cleanup) before;
        cleaned = cleanup_logs-IsCleaned files.disk files.now (settings_of config.cleanup) before;
        started = elim ends [
          | inl (on, s, d) ↦ (first_started true rooted.cleaner none_yet s).0
          | inr (off, s, d) ↦ (first_started false rooted.cleaner none_yet s).0
        ];
        outcome = elim ends [
          | inl (on, s, d) ↦ inl (on, sym at ∙ d, (first_started true rooted.cleaner none_yet s).1)
          | inr (off, s, d) ↦
              inr (off, sym at ∙ d, (first_started false rooted.cleaner none_yet s).1)
        ];
      }

  -- When the log set-up of a process without a cleaner raises nothing, the root logger has the
  -- handlers of the settings, and there is a cleaner. Where cleanup is enabled, the log directory
  -- holds what a cleaning leaves of the files that are there once the log file is open with the ones
  -- that the directory held before, and the cleaner has a thread; else it holds all of them, and
  -- there is no thread.
  pub setup_logging-IsSetUp :
      (env : Environment) (level log_dir : Text) (logs after : Logs)
      → logs.cleaner ≡ no_cleaner
      → setup_logging py files env level log_dir logs ≡ (none, after)
      → IsSetUp env level log_dir logs after
  unfolding setup_logging set_up
  setup_logging-IsSetUp env level log_dir logs after c h =
      elim (Result-cases (log_config_from_env py env level log_dir)) [
        | inl (config, made) ↦
            set_up-IsSetUp env level log_dir config logs after made c (rw made at h)
        | inr (e, failed) ↦ cc (ap (λ (d : Done). d.0) (rw failed at h))
      ]
