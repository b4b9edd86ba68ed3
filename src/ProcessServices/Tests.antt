-- ===== src/ProcessServices/Tests.antt =====
-- Two threads that ask for the services at once, and a process with one configuration.
use flow_proxy.Base.{
  ℕ, ◌+◌, ◌==◌, nat_eq, ◌≤◌, ◌<◌, ◌⊎◌, ◌≡◌, refl, Bool, true, false, some, none, List, [], ◌∷◌,
  text_eq, lookup, is_blank, ok,
}
use flow_proxy.Json.{arr, cons, nil}
use flow_proxy.Config.{load_secrets, validate_secrets}
use flow_proxy.Config.Tests.{usable}
use flow_proxy.LoadBalancer.{init}
use flow_proxy.Failover.Tests.{services}
use flow_proxy.ProcessServices.{initialize}
use flow_proxy.Logging.{info}
use flow_proxy.Logging.Settings.{log_config, log_config_from_env}
use flow_proxy.Logging.Tests.{python, inherited}
use flow_proxy.ProcessServices.Initialize.{
  System, ProcessLogs, process_initialize, IsInitialized, process_initialize-IsInitialized,
}
use flow_proxy.ProcessServices.HttpClient.Threads.{answered, first_places, client_run}
use flow_proxy.ProcessServices.HttpClient.Threads.Rebuilt.{client_run_answers}
use flow_proxy.ProcessServices.Singleton.{start, step, run, got}
use flow_proxy.ProcessServices.Singleton.Unique.{IsHeld, get_unique}
use flow_proxy.ProcessServices.Singleton.Progress.{rank, IsDone, get_not_stuck}

pub starts : initialize (ok true) (ok (arr (cons usable nil))) ≡ ok services
unfolding initialize load_secrets validate_secrets lookup is_blank init
starts = refl

abbrev turn_of : ℕ → ℕ × Bool
turn_of i = (i, false)

-- Both see no instance; the second waits for the lock, and finds the one of the first.
abbrev race : List (ℕ × Bool)
race =
    turn_of 0
    ∷ turn_of 1
    ∷ turn_of 0
    ∷ turn_of 1
    ∷ turn_of 0
    ∷ turn_of 0
    ∷ turn_of 0
    ∷ turn_of 1
    ∷ turn_of 1
    ∷ turn_of 1
    ∷ turn_of 1
    ∷ turn_of 1
    ∷ turn_of 0
    ∷ []

first_got : (run start race).pc 0 ≡ got (some 0)
unfolding run
first_got = refl

second_got : (run start race).pc 1 ≡ got (some 0)
unfolding run
second_got = refl

get_unique_example :
    ((run start race).shared.assigned ≤ 1) × ((k : ℕ) × (some 0 ≡ some k) × (some 0 ≡ some k))
get_unique_example = get_unique race 0 1 (some 0) (some 0) first_got second_got

-- The second thread waits while the first has the lock.
abbrev contended : List (ℕ × Bool)
contended = turn_of 0 ∷ turn_of 1 ∷ turn_of 0 ∷ turn_of 1 ∷ []

get_not_stuck_example :
    IsDone ((run start contended).pc 1)
    ⊎ ((rank ((step (run start contended) (1, true)).pc 1) < rank ((run start contended).pc 1))
        ⊎ ((j : ℕ) × IsHeld (run start contended).shared j
            × (rank ((step (run start contended) (j, true)).pc j)
                < rank ((run start contended).pc j))))
get_not_stuck_example = get_not_stuck contended 1 true

-- A process with one usable configuration, whose logger had a file handler before.
abbrev pub system : System
system = record {
  python = python;
  level = λ t. info;
  mkdir_error = λ d. none;
  open_error = λ f. none;
  exists = λ f. ok true;
  read = λ f. ok (arr (cons usable nil));
  client_error = none;
}

abbrev pub process_logs : ProcessLogs
process_logs = record {
  logger = inherited;
  secrets_logger = record inherited { handlers = [] };
  filters = [];
  handlers_made = 4;
}

pub process_starts : (process_initialize system [] process_logs).0 ≡ ok services
unfolding process_initialize initialize load_secrets validate_secrets lookup is_blank init
    log_config log_config_from_env
process_starts = refl

process_initialize-IsInitialized_example :
    IsInitialized system [] process_logs services (process_initialize system [] process_logs).1
process_initialize-IsInitialized_example =
    process_initialize-IsInitialized system [] process_logs services process_starts

-- Thread 0 has seen a client when thread 1 sets it to None, and returns None.
abbrev lost : List ℕ
lost = 0 ∷ 1 ∷ 1 ∷ 1 ∷ 0 ∷ []

abbrev marks_of : ℕ → Bool
marks_of i = i == 1

lost_client : (client_run (first_places marks_of) lost).place 0 ≡ answered none
unfolding client_run
lost_client = refl

client_run_answers_example :
    ((client_run (first_places marks_of) lost).shared.made
      ≤ 1 + (client_run (first_places marks_of) lost).shared.marks)
    × (((c : ℕ) × (none ≡ some c) × (c < (client_run (first_places marks_of) lost).shared.made))
        ⊎ (1 ≤ (client_run (first_places marks_of) lost).shared.marks))
client_run_answers_example = client_run_answers marks_of lost 0 none lost_client
