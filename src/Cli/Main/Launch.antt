-- ===== src/Cli/Main/Launch.antt =====
-- When `main` calls proxy.py, and with what.
use flow_proxy.Base.{
  ◌≡◌, ◌≢◌, refl, sym, ap, subst, ◌∙◌, ◌⊎◌, inl, inr, true, Bool-cases, none, some, [], ◌∷◌, ◌++◌,
  codes, text_eq, Result, ok, err, ok_inj, if_true, if_false,
}
use flow_proxy.Failover.{Services}
use flow_proxy.Cli.{RuntimeConfig, resolve_runtime_config, build_proxy_args}
use flow_proxy.Cli.Main.{
  CommandLine, Parsed, accepted, leaves, Outcome, returned, Defaults, Host, World, store, exit_of,
  read_defaults, machine_of, launch, checked, parsed, with_defaults, main,
}
use flow_proxy.Logging.Settings.{Environment, getenv-insert, getenv-insert_other}
use flow_proxy.Logging.Setup.{Done, Logs, setup_logging}
use flow_proxy.ProcessServices.{initialize}
use flow_proxy.ProcessServices.Initialize.{
  System, ProcessLogs, secrets_file_of, log_level_of, log_dir_of, process_initialize,
  process_initialize-IsInitialized,
}

-- The names of the three variables are different.
store-secrets_file :
    {F : Type 0} (c : CommandLine F) (env : Environment)
    → secrets_file_of (store c env) ≡ c.secrets_file
unfolding store secrets_file_of
store-secrets_file c env =
    getenv-insert_other _ (codes "FLOW_PROXY_LOG_DIR") c.log_dir _ _ refl
    ∙ getenv-insert_other _ (codes "FLOW_PROXY_LOG_LEVEL") c.log_level _ _ refl
    ∙ getenv-insert (codes "FLOW_PROXY_SECRETS_FILE") c.secrets_file _ env

store-log_level :
    {F : Type 0} (c : CommandLine F) (env : Environment) → log_level_of (store c env) ≡ c.log_level
unfolding store log_level_of
store-log_level c env =
    getenv-insert_other _ (codes "FLOW_PROXY_LOG_DIR") c.log_dir _ _ refl
    ∙ getenv-insert (codes "FLOW_PROXY_LOG_LEVEL") c.log_level _ _

store-log_dir :
    {F : Type 0} (c : CommandLine F) (env : Environment) → log_dir_of (store c env) ≡ c.log_dir
unfolding store log_dir_of
store-log_dir c env = getenv-insert (codes "FLOW_PROXY_LOG_DIR") c.log_dir _ _

accepted_inj : {F : Type 0} {c d : CommandLine F} → accepted c ≡ accepted d → c ≡ d
accepted_inj h = cc

module _ {F : Type 0} (h : Host F) where
  -- The one call of proxy.py that was made, and where its settings come from.
  pub record IsLaunch (w after : World) (outcome : Outcome) : Type 0 where
    pub defaults : Defaults F
    pub read : read_defaults h w.environment ≡ ok defaults
    pub line : CommandLine F
    pub given : h.parse_args defaults ≡ accepted line
    pub secrets : h.exists line.secrets_file ≡ true
    pub set_up :
        setup_logging h.python h.files w.environment line.log_level line.log_dir w.logs
        ≡ (none, after.logs)
    pub config : RuntimeConfig
    pub resolved : resolve_runtime_config (machine_of h w.environment) line.arguments ≡ ok config
    pub call :
        after.launched
        ≡ w.launched ++ (build_proxy_args line.arguments config, after.environment) ∷ []
    pub secrets_named : secrets_file_of after.environment ≡ line.secrets_file
    pub level_named : log_level_of after.environment ≡ line.log_level
    pub dir_named : log_dir_of after.environment ≡ line.log_dir
    pub ending :
        outcome ≡ exit_of (h.run_proxy (build_proxy_args line.arguments config) after.environment)

  -- proxy.py was not called, and main did not return normally.
  pub record IsRefused (w after : World) (outcome : Outcome) : Type 0 where
    pub not_called : after.launched ≡ w.launched
    pub same_environment : after.environment ≡ w.environment
    pub not_returned : outcome ≢ returned

  abbrev IsDecided : World → Outcome × World → Type 0
  IsDecided w done = IsLaunch w done.1 done.0 ⊎ IsRefused w done.1 done.0

  launch_cases :
      (w : World) (d : Defaults F) (c : CommandLine F) (logs : Logs) (r : Result RuntimeConfig)
      → read_defaults h w.environment ≡ ok d
      → h.parse_args d ≡ accepted c
      → setup_logging h.python h.files w.environment c.log_level c.log_dir w.logs ≡ (none, logs)
      → h.exists c.secrets_file ≡ true
      → resolve_runtime_config (machine_of h w.environment) c.arguments ≡ r
      → IsDecided w (launch h c (record w { logs = logs }) r)
  unfolding launch
  launch_cases w d c logs (err e) read given up there resolved =
      inr (record { not_called = refl; same_environment = refl; not_returned = λ q. cc })
  launch_cases w d c logs (ok config) read given up there resolved = inl (record {
    defaults = d;
    read = read;
    line = c;
    given = given;
    secrets = there;
    set_up = up;
    config = config;
    resolved = resolved;
    call = refl;
    secrets_named = store-secrets_file c w.environment;
    level_named = store-log_level c w.environment;
    dir_named = store-log_dir c w.environment;
    ending = refl;
  })

  checked_cases :
      (w : World) (d : Defaults F) (c : CommandLine F) (done : Done)
      → read_defaults h w.environment ≡ ok d
      → h.parse_args d ≡ accepted c
      → setup_logging h.python h.files w.environment c.log_level c.log_dir w.logs ≡ done
      → IsDecided w (checked h c w done)
  unfolding checked
  checked_cases w d c (some e, logs) read given up =
      inr (record { not_called = refl; same_environment = refl; not_returned = λ q. cc })
  checked_cases w d c (none, logs) read given up = elim (Bool-cases (h.exists c.secrets_file)) [
    | inl there ↦
        if_true (IsDecided w) (h.exists c.secrets_file) _ _ there
          (launch_cases w d c logs _ read given up there refl)
    | inr missing ↦
        subst (IsDecided w) (sym (if_false (h.exists c.secrets_file) _ _ missing))
          (inr (record { not_called = refl; same_environment = refl; not_returned = λ q. cc }))
  ]

  parsed_cases :
      (w : World) (d : Defaults F) (p : Parsed F)
      → read_defaults h w.environment ≡ ok d
      → h.parse_args d ≡ p
      → IsDecided w (parsed h w p)
  unfolding parsed
  parsed_cases w d (leaves status) read given =
      inr (record { not_called = refl; same_environment = refl; not_returned = λ q. cc })
  parsed_cases w d (accepted c) read given = checked_cases w d c _ read given refl

  defaults_cases :
      (w : World) (r : Result (Defaults F))
      → read_defaults h w.environment ≡ r
      → IsDecided w (with_defaults h w r)
  unfolding with_defaults
  defaults_cases w (err e) read =
      inr (record { not_called = refl; same_environment = refl; not_returned = λ q. cc })
  defaults_cases w (ok d) read = parsed_cases w d (h.parse_args d) read refl

  -- `main` either calls proxy.py once, with the secrets file there, the log set-up done, and the
  -- environment naming the secrets file, the log level and the log directory of the command line;
  -- or it does not call it, leaves the environment as it is, and does not return normally.
  pub main_cases :
      (w : World) → IsLaunch w (main h w).1 (main h w).0 ⊎ IsRefused w (main h w).1 (main h w).0
  unfolding main
  main_cases w = defaults_cases w (read_defaults h w.environment) refl

  -- A process that proxy.py starts from `main` with the command line's settings in its environment,
  -- whose services could be set up, has them from the secrets file of the command line, which was
  -- there when `main` looked.
  pub launched_services :
      (w : World) (c : CommandLine F) (d : Defaults F) (sys : System) (logs : ProcessLogs)
      (s : Services)
      → read_defaults h w.environment ≡ ok d
      → h.parse_args d ≡ accepted c
      → (main h w).1.launched ≢ w.launched
      → (process_initialize sys (main h w).1.environment logs).0 ≡ ok s
      → (h.exists c.secrets_file ≡ true)
        × (initialize (sys.exists c.secrets_file) (sys.read c.secrets_file) ≡ ok s)
  launched_services w c d sys logs s read given called made = elim (main_cases w) [
    | inl l ↦
        let same : l.defaults ≡ d = ok_inj (sym l.read ∙ read) in
        let line : l.line ≡ c = accepted_inj (sym l.given ∙ ap h.parse_args same ∙ given) in
        let i = process_initialize-IsInitialized sys (main h w).1.environment logs s made in
        (
          subst (λ (x : CommandLine F). h.exists x.secrets_file ≡ true) line l.secrets,
          subst (λ f. initialize (sys.exists f) (sys.read f) ≡ ok s)
              (l.secrets_named ∙ ap (λ (x : CommandLine F). x.secrets_file) line) i.loaded,
        )
    | inr r ↦ absurd (called r.not_called)
  ]
