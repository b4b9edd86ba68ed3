-- ===== src/LogCleaner/Threads/Shared/WindingDown.antt =====
-- What becomes of the threads of a cleaner that was replaced or forgotten, and how many threads are
-- there to go on cleaning.
use flow_proxy.Base.{
  ℕ, ◌+◌, ◌-◌, ◌<◌, ◌≤◌, ◌==◌, nat_eq, ◌≡◌, ◌≢◌, refl, sym, ap, subst, ◌∙◌, ◌⊎◌, inl, inr, Bool,
  true, false, ◌&&◌, Bool-cases, some, none, Option, some_inj, List, [], ◌∷◌, if_intro,
  if◌then◌else◌, arith,
}
use flow_proxy.LogCleaner.Threads.{
  Loop, not_started, testing, waiting, cleaning, ended, is_alive, Cleaner, loop_step,
}
use flow_proxy.LogCleaner.Threads.Shared.{
  Afterwards, forgets, replaces, Caller, idle, in_join, State, no_cleaner, set_cleaner, finish,
  go_on, begin_call, call, try_join, SharedEvent, inits, quits, rejoins, turns, shared_step,
  shared_run, get_log_cleaner,
}
use flow_proxy.LogCleaner.Threads.Shared.Told.{IsTold, set_cleaner_other}
use flow_proxy.LogCleaner.Threads.Shared.Kept.{
  IsOrderly, IsAtCurrent, no_cleaner-IsOrderly, shared_step-IsOrderly, shared_run-IsOrderly,
}

-- A thread that runs, of a cleaner whose event is not set, is the one that the current cleaner
-- knows of.
goes_on_cases :
    (s : State) (k i : ℕ) (current : Option ℕ)
    → s.current ≡ current
    → IsOrderly s
    → is_alive ((s.cleaners k).threads i) ≡ true
    → (s.cleaners k).stop_event ≡ false
    → (current ≡ some k) × ((s.cleaners k).thread ≡ some i)
goes_on_cases s k i none e o p q =
    let t = o.told k (λ r. let z = sym e ∙ r in cc) i p in cc (sym q ∙ t)
goes_on_cases s k i (some c) e o p q = (here (Bool-cases (c == k)), knows (o.led k).known)
  where
    here : ((c == k) ≡ true) ⊎ ((c == k) ≡ false) → some c ≡ some k
    here (inl same) = ap some ((nat_eq.test_iff c k).0 same)
    here (inr other) =
        let t = o.told k (λ r. let z = (nat_eq.test_iff c k).1 (some_inj (sym e ∙ r)) in cc) i p in
        cc (sym q ∙ t)

    knows :
        ((n : ℕ)
          → is_alive ((s.cleaners k).threads n) ≡ true
          → ((s.cleaners k).thread ≡ some n) ⊎ ((s.cleaners k).stop_event ≡ true))
        → (s.cleaners k).thread ≡ some i
    knows f = elim (f i p) [ inl t ↦ t | inr t ↦ cc (sym q ∙ t) ]

-- At any time, whichever joins ran into their timeout, there is at most one thread, of all the
-- cleaners that were ever made, that runs and whose cleaner's event is not set.
pub one_goes_on :
    (es : List SharedEvent) (j k a b : ℕ)
    → is_alive (((shared_run no_cleaner es).cleaners j).threads a) ≡ true
    → ((shared_run no_cleaner es).cleaners j).stop_event ≡ false
    → is_alive (((shared_run no_cleaner es).cleaners k).threads b) ≡ true
    → ((shared_run no_cleaner es).cleaners k).stop_event ≡ false
    → (j ≡ k) × (a ≡ b)
one_goes_on es j k a b p q r u =
    let s : State = shared_run no_cleaner es in
    let o : IsOrderly s = shared_run-IsOrderly es no_cleaner no_cleaner-IsOrderly in
    let (first, ta) = goes_on_cases s j a s.current refl o p q in
    let (second, tb) = goes_on_cases s k b s.current refl o r u in
    let same : j ≡ k = some_inj (sym first ∙ second) in
    (same, some_inj (sym ta ∙ ap (λ n. (s.cleaners n).thread) same ∙ tb))

-- How many more steps a thread takes after its event was set.
unfoldable pub steps_left : Loop → ℕ
steps_left not_started = 0
steps_left testing = 1
steps_left waiting = 1
steps_left cleaning = 2
steps_left ended = 0

-- Whether it is the turn of that thread, as a number.
turns_in : ℕ → ℕ → SharedEvent → ℕ
turns_in k i (turns j n expired) = if (j == k) && (n == i) then 1 else 0
turns_in k i (inits enabled) = 0
turns_in k i quits = 0
turns_in k i (rejoins timed_out) = 0

-- How often it is the turn of that thread.
unfoldable pub turns_of : ℕ → ℕ → List SharedEvent → ℕ
unfolding turns_in
turns_of k i [] = 0
turns_of k i (e ∷ es) = turns_in k i e + turns_of k i es

-- A cleaner that was made and is not the current one.
record IsPast (s : State) (k : ℕ) : Type 0 where
  replaced : s.current ≢ some k
  made : k < s.made

-- The step leaves the cleaner as it is, and a past one.
abbrev IsKept : State → ℕ → State → Type 0
IsKept s k t = (t.cleaners k ≡ s.cleaners k) × IsPast t k

finish-IsKept : (s : State) (after : Afterwards) (k : ℕ) → k < s.made → IsKept s k (finish s after)
unfolding finish
finish-IsKept s forgets k m = (refl, record { replaced = λ e. cc; made = m })
finish-IsKept s (replaces enabled) k m = (
  set_cleaner_other s.cleaners s.made _ k (λ e. absurd (omega (arith, m, e))),
  record {
    replaced = λ e. let same = some_inj e in absurd (omega (arith, m, same));
    made = omega (arith, m);
  },
)

go_on-IsKept :
    (s : State) (j : ℕ) (after : Afterwards) (c : Cleaner) (k : ℕ)
    → s.current ≡ some j
    → IsPast s k
    → IsKept s k (go_on s j after c)
unfolding go_on
go_on-IsKept s j after c k e p =
    if_intro (IsKept s k) c.joining _ _ (same, record { replaced = p.replaced; made = p.made })
      (let (kept, past) =
          finish-IsKept (record s { cleaners = set_cleaner s.cleaners j c }) after k p.made in
        (kept ∙ same, past))
  where
    same : set_cleaner s.cleaners j c k ≡ s.cleaners k
    same = set_cleaner_other s.cleaners j c k (λ q. p.replaced (e ∙ ap some q))

begin_call-IsKept :
    (s : State) (after : Afterwards) (current : Option ℕ) (k : ℕ)
    → s.current ≡ current
    → IsPast s k
    → IsKept s k (begin_call s after current)
unfolding begin_call
begin_call-IsKept s after none k e p = finish-IsKept s after k p.made
begin_call-IsKept s after (some j) k e p = go_on-IsKept s j after _ k e p

call-IsKept :
    (s : State) (after : Afterwards) (caller : Caller) (k : ℕ)
    → IsPast s k
    → IsKept s k (call s after caller)
unfolding call
call-IsKept s after idle k p = begin_call-IsKept s after s.current k refl p
call-IsKept s after (in_join j other) k p = (refl, p)

try_join-IsKept :
    (s : State) (timed_out : Bool) (caller : Caller) (k : ℕ)
    → IsAtCurrent s caller
    → IsPast s k
    → IsKept s k (try_join s timed_out caller)
unfolding try_join
try_join-IsKept s timed_out idle k a p = (refl, p)
try_join-IsKept s timed_out (in_join j after) k a p = go_on-IsKept s j after _ k a.0 p

-- With its event set, a thread's turn brings it nearer to its end.
loop_step_left :
    (expired : Bool) (l : Loop) → steps_left (loop_step true expired l) ≤ steps_left l - 1
unfolding loop_step steps_left
loop_step_left expired not_started = omega arith
loop_step_left expired testing = omega arith
loop_step_left expired waiting = omega arith
loop_step_left expired cleaning = omega arith
loop_step_left expired ended = omega arith

not_alive_left :
    (expired stop_event : Bool) (l : Loop)
    → is_alive l ≡ false
    → steps_left (loop_step stop_event expired l) ≤ steps_left l - 1
unfolding loop_step steps_left is_alive
not_alive_left expired stop_event not_started h = omega arith
not_alive_left expired stop_event testing h = cc
not_alive_left expired stop_event waiting h = cc
not_alive_left expired stop_event cleaning h = cc
not_alive_left expired stop_event ended h = omega arith

told_left :
    (c : Cleaner) (i : ℕ) (expired : Bool)
    → IsTold c
    → steps_left (loop_step c.stop_event expired (c.threads i)) ≤ steps_left (c.threads i) - 1
told_left c i expired t = elim (Bool-cases (is_alive (c.threads i))) [
  | inl alive ↦ rw (t i alive) (loop_step_left expired (c.threads i))
  | inr over ↦ not_alive_left expired c.stop_event (c.threads i) over
]

abbrev left_of : State → ℕ → ℕ → ℕ
left_of s k i = steps_left ((s.cleaners k).threads i)

turn_left_self :
    (s : State) (k n : ℕ) (expired : Bool) (i : ℕ)
    → IsTold (s.cleaners k)
    → left_of (shared_step s (turns k n expired)) k i
      ≤ left_of s k i - turns_in k i (turns k n expired)
unfolding shared_step turns_in
turn_left_self s k n expired i t = rw ((nat_eq.test_iff k k).1 refl) (elim (Bool-cases (n == i)) [
  | inl here ↦
      let same : n ≡ i = (nat_eq.test_iff n i).0 here in
      rw here (
        subst
          (λ m.
            steps_left (loop_step (s.cleaners k).stop_event expired ((s.cleaners k).threads n))
            ≤ steps_left ((s.cleaners k).threads m) - 1)
          same (told_left (s.cleaners k) n expired t))
  | inr elsewhere ↦ rw elsewhere (omega arith)
])

turn_left :
    (s : State) (j n : ℕ) (expired : Bool) (k i : ℕ)
    → IsTold (s.cleaners k)
    → left_of (shared_step s (turns j n expired)) k i
      ≤ left_of s k i - turns_in k i (turns j n expired)
unfolding shared_step turns_in
turn_left s j n expired k i t = elim (Bool-cases (j == k)) [
  | inl same ↦
      subst
        (λ m.
          IsTold (s.cleaners m)
          → left_of (shared_step s (turns j n expired)) m i
            ≤ left_of s m i - turns_in m i (turns j n expired))
        ((nat_eq.test_iff j k).0 same) (turn_left_self s j n expired i) t
  | inr other ↦ rw other (omega arith)
]

kept_left :
    (s t : State) (k i : ℕ) → IsKept s k t → IsPast t k × (left_of t k i ≤ left_of s k i - 0)
kept_left s t k i (same, past) =
    let e : left_of t k i ≡ left_of s k i = ap (λ (c : Cleaner). steps_left (c.threads i)) same in
    (past, omega (arith, e))

step_left :
    (s : State) (e : SharedEvent) (k i : ℕ)
    → IsOrderly s
    → IsPast s k
    → IsPast (shared_step s e) k × (left_of (shared_step s e) k i ≤ left_of s k i - turns_in k i e)
unfolding shared_step turns_in
step_left s (inits enabled) k i o p =
    kept_left s _ k i (call-IsKept s (replaces enabled) s.caller k p)
step_left s quits k i o p = kept_left s _ k i (call-IsKept s forgets s.caller k p)
step_left s (rejoins timed_out) k i o p =
    kept_left s _ k i (try_join-IsKept s timed_out s.caller k o.joined p)
step_left s (turns j n expired) k i o p = (
  record { replaced = p.replaced; made = p.made },
  turn_left s j n expired k i (o.told k p.replaced),
)

run_left :
    (es : List SharedEvent) (s : State) (k i : ℕ)
    → IsOrderly s
    → IsPast s k
    → left_of (shared_run s es) k i ≤ left_of s k i - turns_of k i es
unfolding shared_run turns_of
run_left [] s k i o p = omega arith
run_left (e ∷ es) s k i o p =
    let (past, less) = step_left s e k i o p in
    omega (arith, less, run_left es (shared_step s e) k i (shared_step-IsOrderly s e o) past)

left_bound : (l : Loop) → steps_left l ≤ 2
unfolding steps_left
left_bound not_started = omega arith
left_bound testing = omega arith
left_bound waiting = omega arith
left_bound cleaning = omega arith
left_bound ended = omega arith

-- Once a cleaner is not the module's current one any more, each of its threads has at most 2 - n
-- steps left when it has had n more turns, whatever else happens: after the first it is in no
-- cleaning, and after the second it has ended.
pub shared_run_left :
    (before after : List SharedEvent) (k i : ℕ)
    → k < (shared_run no_cleaner before).made
    → get_log_cleaner (shared_run no_cleaner before) ≢ some k
    → steps_left (((shared_run (shared_run no_cleaner before) after).cleaners k).threads i)
      ≤ 2 - turns_of k i after
unfolding get_log_cleaner
shared_run_left before after k i m n =
    let s : State = shared_run no_cleaner before in
    omega (
      arith,
      run_left after s k i (shared_run-IsOrderly before no_cleaner no_cleaner-IsOrderly)
          (record { replaced = n; made = m }),
      left_bound ((s.cleaners k).threads i),
    )
