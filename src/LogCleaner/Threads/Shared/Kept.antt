-- ===== src/LogCleaner/Threads/Shared/Kept.antt =====
-- What every call and every turn of a thread keeps of the shared state.
use flow_proxy.Base.{
  ℕ, ◌<◌, ◌≡◌, ◌≢◌, refl, sym, ap, subst, ◌∙◌, inl, inr, Bool, true, false, Bool-cases, some, none,
  Option, some_inj, List, [], ◌∷◌, if_true, if_false, arith,
}
use flow_proxy.LogCleaner.Threads.{Cleaner, new_cleaner, start, stop, join, is_alive, CleanerEvent}
use flow_proxy.LogCleaner.Threads
use flow_proxy.LogCleaner.Threads.Shared.{
  Afterwards, forgets, replaces, Caller, idle, in_join, State, no_cleaner, set_cleaner, finish,
  go_on, begin_call, call, try_join, SharedEvent, inits, quits, rejoins, turns, shared_step,
  shared_run,
}
use flow_proxy.LogCleaner.Threads.Shared.Told.{
  IsLed, IsTold, set_cleaner_intro, set_cleaner_other, new_cleaner-IsLed, start-IsLed, stop-IsLed,
  stop-IsTold, join-IsLed, join-IsTold, turn-IsLed, turn-IsTold,
}

-- The thread that calls is in a join only of the current cleaner.
abbrev pub IsAtCurrent : State → Caller → Type 0
IsAtCurrent s idle = Unit
IsAtCurrent s (in_join k after) = (s.current ≡ some k) × ((s.cleaners k).joining ≡ true)

-- Of the cleaners that were made, all but the current one have told their threads to stop, and a
-- cleaner that was not made has no thread.
pub record IsOrderly (s : State) : Type 0 where
  pub led : (k : ℕ) → IsLed (s.cleaners k)
  pub told : (k : ℕ) → s.current ≢ some k → IsTold (s.cleaners k)
  pub made : (k : ℕ) → s.current ≡ some k → k < s.made
  pub joined : IsAtCurrent s s.caller

pub no_cleaner-IsOrderly : IsOrderly no_cleaner
unfolding is_alive
no_cleaner-IsOrderly = record {
  led = λ k. new_cleaner-IsLed false;
  told = λ k n i a. cc;
  made = λ k e. cc;
  joined = tt;
}

finish-IsOrderly :
    (s : State) (after : Afterwards)
    → ((k : ℕ) → IsLed (s.cleaners k))
    → ((k : ℕ) → IsTold (s.cleaners k))
    → IsOrderly (finish s after)
unfolding finish
finish-IsOrderly s forgets led told = record {
  led = led;
  told = λ k n. told k;
  made = λ k e. cc;
  joined = tt;
}
finish-IsOrderly s (replaces enabled) led told = record {
  led = λ k.
      set_cleaner_intro IsLed s.cleaners s.made (start (new_cleaner enabled)) k
        (λ m. start-IsLed enabled) (λ n. led k);
  told = λ k n.
      subst IsTold (sym (set_cleaner_other s.cleaners s.made _ k (λ e. n (ap some e)))) (told k);
  made = λ k e. let same = some_inj e in omega (arith, same);
  joined = tt;
}

go_on-IsOrderly :
    (s : State) (k : ℕ) (after : Afterwards) (c : Cleaner)
    → IsOrderly s
    → s.current ≡ some k
    → IsLed c
    → (c.joining ≡ false → IsTold c)
    → IsOrderly (go_on s k after c)
unfolding go_on
go_on-IsOrderly s k after c o e l over = elim (Bool-cases c.joining) [
  | inl waits ↦ if_true IsOrderly c.joining _ _ waits (record {
    led = led;
    told = λ j n. subst IsTold (sym (set_cleaner_other s.cleaners k c j (apart j n))) (o.told j n);
    made = o.made;
    joined = (
      e,
      set_cleaner_intro (λ d. d.joining ≡ true) s.cleaners k c k (λ m. waits)
          (λ n. absurd (n refl)),
    );
  })
  | inr done ↦ subst IsOrderly (sym (if_false c.joining _ _ done)) (
      finish-IsOrderly (record s { cleaners = set_cleaner s.cleaners k c }) after led
        (λ j.
          set_cleaner_intro IsTold s.cleaners k c j (λ m. over done)
            (λ n. o.told j (λ f. n (some_inj (sym e ∙ f))))))
]
  where
    led : (j : ℕ) → IsLed (set_cleaner s.cleaners k c j)
    led j = set_cleaner_intro IsLed s.cleaners k c j (λ m. l) (λ n. o.led j)

    apart : (j : ℕ) → s.current ≢ some j → k ≢ j
    apart j n q = n (e ∙ ap some q)

begin_call-IsOrderly :
    (s : State) (after : Afterwards) (current : Option ℕ)
    → s.current ≡ current
    → IsOrderly s
    → IsOrderly (begin_call s after current)
unfolding begin_call
begin_call-IsOrderly s after none e o =
    finish-IsOrderly s after o.led (λ k. o.told k (λ q. let r = sym e ∙ q in cc))
begin_call-IsOrderly s after (some k) e o =
    go_on-IsOrderly s k after (stop (s.cleaners k)) o e (stop-IsLed (s.cleaners k) (o.led k))
      (stop-IsTold (s.cleaners k) (o.led k))

call-IsOrderly :
    (s : State) (after : Afterwards) (caller : Caller)
    → IsOrderly s
    → IsOrderly (call s after caller)
unfolding call
call-IsOrderly s after idle o = begin_call-IsOrderly s after s.current refl o
call-IsOrderly s after (in_join k other) o = o

try_join-IsOrderly :
    (s : State) (timed_out : Bool) (caller : Caller)
    → IsAtCurrent s caller
    → IsOrderly s
    → IsOrderly (try_join s timed_out caller)
unfolding try_join
try_join-IsOrderly s timed_out idle a o = o
try_join-IsOrderly s timed_out (in_join k after) (e, j) o =
    go_on-IsOrderly s k after (join timed_out (s.cleaners k)) o e
      (join-IsLed timed_out (s.cleaners k) (o.led k) j)
      (λ done. join-IsTold timed_out (s.cleaners k) (o.led k) j)

turned : State → ℕ → ℕ → Bool → ℕ → Cleaner
turned s k i expired =
    set_cleaner s.cleaners k (Threads.step (s.cleaners k) (CleanerEvent.runs i expired))

turn-IsAtCurrent :
    (s : State) (k i : ℕ) (expired : Bool) (caller : Caller)
    → IsAtCurrent s caller
    → IsAtCurrent (record s { cleaners = turned s k i expired }) caller
unfolding turned Threads.step
turn-IsAtCurrent s k i expired idle a = tt
turn-IsAtCurrent s k i expired (in_join j after) (e, w) = (
  e,
  set_cleaner_intro (λ d. d.joining ≡ true) s.cleaners k _ j
      (λ m. subst (λ n. (s.cleaners n).joining ≡ true) (sym m) w) (λ n. w),
)

pub shared_step-IsOrderly :
    (s : State) (e : SharedEvent) → IsOrderly s → IsOrderly (shared_step s e)
unfolding shared_step
shared_step-IsOrderly s (inits enabled) o = call-IsOrderly s (replaces enabled) s.caller o
shared_step-IsOrderly s quits o = call-IsOrderly s forgets s.caller o
shared_step-IsOrderly s (rejoins timed_out) o = try_join-IsOrderly s timed_out s.caller o.joined o
shared_step-IsOrderly s (turns k i expired) o = record {
  led = λ j.
      set_cleaner_intro IsLed s.cleaners k _ j (λ m. turn-IsLed (s.cleaners k) i expired (o.led k))
        (λ n. o.led j);
  told = λ j n.
      set_cleaner_intro IsTold s.cleaners k _ j
        (λ m. turn-IsTold (s.cleaners k) i expired (o.told k (λ e. n (e ∙ ap some m))))
        (λ m. o.told j n);
  made = o.made;
  joined = unfold turned in turn-IsAtCurrent s k i expired s.caller o.joined;
}

pub shared_run-IsOrderly :
    (es : List SharedEvent) (s : State) → IsOrderly s → IsOrderly (shared_run s es)
unfolding shared_run
shared_run-IsOrderly [] s o = o
shared_run-IsOrderly (e ∷ es) s o =
    shared_run-IsOrderly es (shared_step s e) (shared_step-IsOrderly s e o)
