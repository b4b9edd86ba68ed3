-- ===== src/LogCleaner/Threads/Shared.antt =====
-- The one cleaner of a process, `_state`: `init_log_cleaner`, `get_log_cleaner` and
-- `stop_log_cleaner`, called by one thread, beside the threads of all the cleaners that were made.
-- A thread's step is one of its cleaner; a call is one step up to the join of `stop`, another one
-- each time the join is tried, and goes on when the join is over.
pub mod Told
pub mod Kept
pub mod WindingDown
use flow_proxy.Base.{
  ℕ, ◌+◌, ◌==◌, nat_eq, Bool, true, false, Option, none, some, List, [], ◌∷◌, if◌then◌else◌,
}
use flow_proxy.LogCleaner.Threads.{Cleaner, new_cleaner, start, stop, join, CleanerEvent}
use flow_proxy.LogCleaner.Threads

-- What a call does after the old cleaner is stopped: `stop_log_cleaner` forgets it, and
-- `init_log_cleaner` makes another one, which is enabled or not.
pub data Afterwards : Type 0 where
  forgets : Afterwards
  replaces : Bool → Afterwards

pub data Caller : Type 0 where
  idle : Caller
  in_join : ℕ → Afterwards → Caller

-- The cleaners by their number, of which `made` were made; `current` is `_state.cleaner`.
pub record State : Type 0 where
  pub cleaners : ℕ → Cleaner
  pub made : ℕ
  pub current : Option ℕ
  pub caller : Caller

abbrev pub no_cleaner : State
no_cleaner = record { cleaners = λ k. new_cleaner false; made = 0; current = none; caller = idle }

abbrev pub set_cleaner : (ℕ → Cleaner) → ℕ → Cleaner → ℕ → Cleaner
set_cleaner cleaners k c j = if k == j then c else cleaners j

finish : State → Afterwards → State
unfolding start
finish s forgets = record s { current = none; caller = idle }
finish s (replaces enabled) = record s {
  cleaners = set_cleaner s.cleaners s.made (start (new_cleaner enabled));
  made = s.made + 1;
  current = some s.made;
  caller = idle;
}

-- The call goes on when its cleaner is not being joined any more.
go_on : State → ℕ → Afterwards → Cleaner → State
unfolding finish
go_on s k after c =
    if c.joining
    then record s { cleaners = set_cleaner s.cleaners k c; caller = in_join k after }
    else finish (record s { cleaners = set_cleaner s.cleaners k c }) after

begin_call : State → Afterwards → Option ℕ → State
unfolding go_on stop
begin_call s after none = finish s after
begin_call s after (some k) = go_on s k after (stop (s.cleaners k))

-- The caller does nothing else while it is in the join.
call : State → Afterwards → Caller → State
unfolding begin_call
call s after idle = begin_call s after s.current
call s after (in_join k other) = s

try_join : State → Bool → Caller → State
unfolding go_on join
try_join s timed_out idle = s
try_join s timed_out (in_join k after) = go_on s k after (join timed_out (s.cleaners k))

pub data SharedEvent : Type 0 where
  -- `init_log_cleaner`, with its `enabled`
  inits : Bool → SharedEvent
  -- `stop_log_cleaner`
  quits : SharedEvent
  rejoins : Bool → SharedEvent
  -- One step of a thread of a cleaner.
  turns : ℕ → ℕ → Bool → SharedEvent

unfoldable pub shared_step : State → SharedEvent → State
unfolding call try_join Threads.step
shared_step s (inits enabled) = call s (replaces enabled) s.caller
shared_step s quits = call s forgets s.caller
shared_step s (rejoins timed_out) = try_join s timed_out s.caller
shared_step s (turns k i expired) = record s {
  cleaners = set_cleaner s.cleaners k (Threads.step (s.cleaners k) (CleanerEvent.runs i expired));
}

unfoldable pub shared_run : State → List SharedEvent → State
unfolding shared_step
shared_run s [] = s
shared_run s (e ∷ es) = shared_run (shared_step s e) es

unfoldable pub get_log_cleaner : State → Option ℕ
get_log_cleaner s = s.current
