-- ===== src/ProcessServices/Singleton.antt =====
-- `ProcessServices.get` on any number of threads: double-checked locking, a shared access at a
-- time. An instance is a number. `reset`, which is for tests, is not called.
pub mod Unique
pub mod Progress
use flow_proxy.Base.{
  ℕ, ◌+◌, ◌==◌, nat_eq, Bool, true, false, Option, none, some, List, [], ◌∷◌, if◌then◌else◌,
}

pub record Shared : Type 0 where
  pub instance' : Option ℕ
  -- The thread that holds `_lock`.
  pub lock : Option ℕ
  -- How many instances were begun, and how many were assigned to `_instance`.
  pub begun : ℕ
  pub assigned : ℕ

-- Where a thread stands in `get`.
pub data Pc : Type 0 where
  calling : Pc  -- before the first test
  waiting : Pc  -- before the lock
  entered : Pc  -- with the lock, before the second test
  building : ℕ → Pc  -- in `_initialize` of its instance
  leaving : Pc  -- before the release of the lock
  returning : Pc  -- before the read of the result
  got : Option ℕ → Pc
  raised : Pc

abbrev pub start_shared : Shared
start_shared = record { instance' = none; lock = none; begun = 0; assigned = 0 }

first_test : Option ℕ → Pc
first_test none = waiting
first_test (some k) = returning

take_lock : ℕ → Shared → Option ℕ → Shared × Pc
take_lock i s none = (record s { lock = some i }, entered)
take_lock i s (some j) = (s, waiting)

second_test : Shared → Option ℕ → Shared × Pc
second_test s none = (record s { begun = s.begun + 1 }, building s.begun)
second_test s (some k) = (s, leaving)

-- A step of thread `i`; `raises` says whether `_initialize` raises, which releases the lock.
move : ℕ → Bool → Shared → Pc → Shared × Pc
unfolding first_test take_lock second_test
move i raises s calling = (s, first_test s.instance')
move i raises s waiting = take_lock i s s.lock
move i raises s entered = second_test s s.instance'
move i true s (building k) = (record s { lock = none }, raised)
move i false s (building k) = (record s { instance' = some k; assigned = s.assigned + 1 }, leaving)
move i raises s leaving = (record s { lock = none }, returning)
move i raises s returning = (s, got s.instance')
move i raises s pc = (s, pc)

pub record System : Type 0 where
  pub shared : Shared
  pub pc : ℕ → Pc

abbrev pub start : System
start = record { shared = start_shared; pc = λ i. calling }

abbrev pub update : (ℕ → Pc) → ℕ → Pc → ℕ → Pc
update pc i p j = if i == j then p else pc j

unfoldable pub step : System → ℕ × Bool → System
unfolding move
step s (i, raises) =
    let after = move i raises s.shared (s.pc i) in
    record { shared = after.0; pc = update s.pc i after.1 }

-- Any threads in any order.
unfoldable pub run : System → List (ℕ × Bool) → System
unfolding step
run s [] = s
run s (e ∷ es) = run (step s e) es
