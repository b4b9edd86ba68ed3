-- ===== src/LogCleaner/Threads.antt =====
-- `start`, `stop` and `_cleanup_loop` of one LogCleaner: the thread that cleans every so many hours.
-- One caller starts and stops, a thread's step is one look at the event, one wait or one cleaning,
-- whose files are those of `cleanup_logs`. The cleaning that `start` does itself is in
-- Logging/Setup.antt, with the directory.
pub mod Places
pub mod Single
pub mod Shared
use flow_proxy.Base.{
  ℕ, ◌+◌, ◌==◌, nat_eq, Bool, true, false, Option, none, some, List, [], ◌∷◌, if◌then◌else◌,
}

-- Where a thread stands: before the test of the loop, in `wait`, or in `cleanup_logs`.
pub data Loop : Type 0 where
  not_started testing waiting cleaning ended : Loop

unfoldable pub is_alive : Loop → Bool
is_alive not_started = false
is_alive testing = true
is_alive waiting = true
is_alive cleaning = true
is_alive ended = false

pub record Cleaner : Type 0 where
  pub enabled : Bool
  pub stop_event : Bool
  -- `_thread`
  pub thread : Option ℕ
  -- The caller is in the `join` of `stop`.
  pub joining : Bool
  pub threads : ℕ → Loop
  pub started : ℕ

abbrev pub new_cleaner : Bool → Cleaner
new_cleaner enabled = record {
  enabled = enabled;
  stop_event = false;
  thread = none;
  joining = false;
  threads = λ i. not_started;
  started = 0;
}

abbrev pub set_loop : (ℕ → Loop) → ℕ → Loop → ℕ → Loop
set_loop threads i l j = if i == j then l else threads j

-- `expired` says whether `wait` has come to its timeout.
pub loop_step : Bool → Bool → Loop → Loop
loop_step stop_event expired not_started = not_started
loop_step true expired testing = ended
loop_step false expired testing = waiting
loop_step true expired waiting = ended
loop_step false true waiting = cleaning
loop_step false false waiting = waiting
loop_step stop_event expired cleaning = testing
loop_step stop_event expired ended = ended

pub thread_alive : Cleaner → Option ℕ → Bool
unfolding is_alive
thread_alive c none = false
thread_alive c (some t) = is_alive (c.threads t)

begin_thread : Cleaner → Cleaner
begin_thread c = record c {
  stop_event = false;
  thread = some c.started;
  threads = set_loop c.threads c.started testing;
  started = c.started + 1;
}

unfoldable pub start : Cleaner → Cleaner
unfolding begin_thread thread_alive
start c = if c.enabled then (if thread_alive c c.thread then c else begin_thread c) else c

-- `stop` up to the join.
unfoldable pub stop : Cleaner → Cleaner
unfolding thread_alive
stop c = if thread_alive c c.thread then record c { stop_event = true; joining = true } else c

-- The join comes back when the thread has ended, or after five seconds.
unfoldable pub join : Bool → Cleaner → Cleaner
unfolding thread_alive
join timed_out c =
    if timed_out
    then record c { thread = none; joining = false }
    else if thread_alive c c.thread
    then c
    else record c { thread = none; joining = false }

pub data CleanerEvent : Type 0 where
  runs : ℕ → Bool → CleanerEvent
  starts : CleanerEvent
  stops : CleanerEvent
  joins : Bool → CleanerEvent

-- The caller does nothing else while it is in the join.
unfoldable pub step : Cleaner → CleanerEvent → Cleaner
unfolding loop_step start stop join
step c (runs i expired) = record c {
  threads = set_loop c.threads i (loop_step c.stop_event expired (c.threads i));
}
step c starts = if c.joining then c else start c
step c stops = if c.joining then c else stop c
step c (joins timed_out) = if c.joining then join timed_out c else c

unfoldable pub run : Cleaner → List CleanerEvent → Cleaner
unfolding step
run c [] = c
run c (e ∷ es) = run (step c e) es
