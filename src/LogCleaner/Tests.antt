-- ===== src/LogCleaner/Tests.antt =====
-- A directory of three files at concrete settings.
use flow_proxy.Base.{
  pos, ℕ, ◌*◌, ◌-◌, ◌≤◌, arith, ◌≡◌, refl, true, false, some, List, [], ◌∷◌, codes, keep_if, map,
}
use flow_proxy.LogCleaner.{
  LogFile, Disk, Settings, microseconds_per_day, max_size_bytes, cleanup_by_size, cleanup_logs,
  get_log_stats,
}
use flow_proxy.LogCleaner.Limits.{IsWithin, cleanup_by_size-IsWithin}
use flow_proxy.LogCleaner.Cleaning.{IsCleaned, cleanup_logs-IsCleaned}
use flow_proxy.LogCleaner.Threads.{
  CleanerEvent, starts, stops, runs, joins, testing, waiting, cleaning, is_alive, new_cleaner, run,
}
use flow_proxy.LogCleaner.Threads.Shared.{
  SharedEvent, inits, rejoins, turns, no_cleaner, shared_run, get_log_cleaner,
}
use flow_proxy.LogCleaner.Threads.Shared.WindingDown.{
  steps_left, turns_of, one_goes_on, shared_run_left,
}

abbrev pub day : ℕ → ℕ
day n = n * microseconds_per_day

abbrev pub disk : Disk
disk = record { stat_fails = λ f. false; unlink_fails = λ f. false }

abbrev settings : Settings
settings = record { retention_days = pos 7; max_size_mb = 1 }

abbrev pub files : List LogFile
files =
    record { name = codes "new.log"; size = 600000; mtime = day 19 }
    ∷ record { name = codes "ancient.log.1"; size = 5; mtime = day 3 }
    ∷ record { name = codes "old.log.2"; size = 700000; mtime = day 15 }
    ∷ []

-- One file is too old; of the others the older one goes for the limit of one megabyte.
cleans :
    map (λ (f : LogFile). f.name) (cleanup_logs disk (day 20) settings files).left
    ≡ codes "new.log" ∷ []
unfolding cleanup_logs cleanup_by_size keep_if
cleans = refl

counts : (cleanup_logs disk (day 20) settings files).freed_space ≡ 700005
unfolding cleanup_logs cleanup_by_size keep_if
counts = refl

spans : (get_log_stats disk (some files)).oldest ≡ some (day 3)
unfolding get_log_stats
spans = refl

cleanup_by_size-IsWithin_example :
    IsWithin disk (max_size_bytes settings) files (cleanup_by_size disk settings files)
cleanup_by_size-IsWithin_example = cleanup_by_size-IsWithin disk settings files

cleanup_logs-IsCleaned_example :
    IsCleaned disk (day 20) settings files (cleanup_logs disk (day 20) settings files)
cleanup_logs-IsCleaned_example = cleanup_logs-IsCleaned disk (day 20) settings files

-- The first thread is cleaning when the join comes back early, and goes on after the next start.
abbrev hasty : List CleanerEvent
hasty =
    starts
    ∷ runs 0 false
    ∷ runs 0 true
    ∷ stops
    ∷ joins true
    ∷ starts
    ∷ runs 0 false
    ∷ runs 0 false
    ∷ []

both_wait :
    ((run (new_cleaner true) hasty).threads 0 ≡ waiting)
    × ((run (new_cleaner true) hasty).threads 1 ≡ testing)
unfolding run
both_wait = (refl, refl)

-- The first cleaner's thread is in a cleaning when the join of the second call runs out of time.
abbrev replaced : List SharedEvent
replaced =
    inits true ∷ turns 0 0 false ∷ turns 0 0 true ∷ inits true ∷ rejoins true ∷ turns 1 0 false ∷ []

both_run :
    (((shared_run no_cleaner replaced).cleaners 0).threads 0 ≡ cleaning)
    × (((shared_run no_cleaner replaced).cleaners 1).threads 0 ≡ waiting)
unfolding shared_run
both_run = (refl, refl)

one_goes_on_example : (◌≡◌ {A = ℕ} 1 1) × (◌≡◌ {A = ℕ} 0 0)
unfolding shared_run is_alive
one_goes_on_example = one_goes_on replaced 1 1 0 0 refl refl refl refl

shared_run_left_example :
    steps_left (
      ((shared_run
            (shared_run no_cleaner replaced)
            (turns 0 0 false ∷ inits true ∷ turns 0 0 true ∷ [])).cleaners
          0).threads
        0)
    ≤ 2 - turns_of 0 0 (turns 0 0 false ∷ inits true ∷ turns 0 0 true ∷ [])
unfolding shared_run get_log_cleaner
shared_run_left_example =
    shared_run_left replaced (turns 0 0 false ∷ inits true ∷ turns 0 0 true ∷ []) 0 0 (omega arith)
      (λ e. cc)
