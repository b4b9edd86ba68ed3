-- ===== src/LogCleaner/Threads/Single.antt =====
-- How many threads clean at a time.
use flow_proxy.Base.{
  ℕ, ◌≡◌, ap, sym, subst, ◌∙◌, inl, inr, Bool, true, false, Bool-cases, nat_eq, some, some_inj,
  List, [], ◌∷◌, All, if_intro, if_true, if_false,
}
use flow_proxy.LogCleaner.Threads.Places.{set_loop_cases, loop_step_alive}
use flow_proxy.LogCleaner.Threads.{
  Loop, testing, is_alive, Cleaner, new_cleaner, loop_step, thread_alive, begin_thread, start, stop,
  join, CleanerEvent, runs, starts, stops, joins, step, run,
}

-- A join that does not come back before its thread has ended.
unfoldable pub IsPatient : CleanerEvent → Type 0
IsPatient (joins true) = ⊥
IsPatient event = Unit

-- A thread that runs is the one that the cleaner knows of.
abbrev IsKnown : Cleaner → Type 0
IsKnown c = (i : ℕ) → is_alive (c.threads i) ≡ true → c.thread ≡ some i

abbrev IsAliveAt : (ℕ → Loop) → ℕ → Type 0
IsAliveAt threads i = is_alive (threads i) ≡ true

-- When the known thread does not run, none does.
none_alive :
    (c : Cleaner)
    → IsKnown c
    → thread_alive c c.thread ≡ false
    → (i : ℕ) → ¬ (is_alive (c.threads i) ≡ true)
unfolding thread_alive
none_alive c k h i a = let gone = rw (k i a) at h in cc

begin_thread-IsKnown :
    (c : Cleaner) → IsKnown c → thread_alive c c.thread ≡ false → IsKnown (begin_thread c)
unfolding begin_thread
begin_thread-IsKnown c k h i a = elim (set_loop_cases c.threads c.started testing i a) [
  | inl (same, now) ↦ ap some same
  | inr before ↦ absurd (none_alive c k h i before)
]

start-IsKnown : (c : Cleaner) → IsKnown c → IsKnown (start c)
unfolding start
start-IsKnown c k = elim (Bool-cases (thread_alive c c.thread)) [
  | inl running ↦
      if_intro IsKnown c.enabled _ _ (if_true IsKnown (thread_alive c c.thread) _ _ running k) k
  | inr over ↦
      if_intro IsKnown c.enabled _ _
        (subst IsKnown (sym (if_false (thread_alive c c.thread) _ _ over))
          (begin_thread-IsKnown c k over))
        k
]

stop-IsKnown : (c : Cleaner) → IsKnown c → IsKnown (stop c)
unfolding stop
stop-IsKnown c k = if_intro IsKnown (thread_alive c c.thread) _ _ k k

join-IsKnown : (c : Cleaner) → IsKnown c → IsKnown (join false c)
unfolding join
join-IsKnown c k = elim (Bool-cases (thread_alive c c.thread)) [
  | inl running ↦ if_true IsKnown (thread_alive c c.thread) _ _ running k
  | inr over ↦
      subst IsKnown (sym (if_false (thread_alive c c.thread) _ _ over))
        (λ i a. absurd (none_alive c k over i a))
]

step-IsKnown : (c : Cleaner) (e : CleanerEvent) → IsPatient e → IsKnown c → IsKnown (step c e)
unfolding step IsPatient
step-IsKnown c (runs i expired) p k = λ j a.
    elim (set_loop_cases c.threads i (loop_step c.stop_event expired (c.threads i)) j a) [
      | inl (same, now) ↦ k j (
          subst (IsAliveAt c.threads) same (loop_step_alive c.stop_event expired (c.threads i) now))
      | inr before ↦ k j before
    ]
step-IsKnown c starts p k = if_intro IsKnown c.joining _ _ k (start-IsKnown c k)
step-IsKnown c stops p k = if_intro IsKnown c.joining _ _ k (stop-IsKnown c k)
step-IsKnown c (joins false) p k = if_intro IsKnown c.joining _ _ (join-IsKnown c k) k
step-IsKnown c (joins true) p k = elim p [ ]

run-IsKnown :
    (es : List CleanerEvent) (c : Cleaner) → All IsPatient es → IsKnown c → IsKnown (run c es)
unfolding run
run-IsKnown [] c p k = k
run-IsKnown (e ∷ es) c p k = run-IsKnown es (step c e) p.1 (step-IsKnown c e p.0 k)

new_cleaner-IsKnown : (enabled : Bool) → IsKnown (new_cleaner enabled)
unfolding is_alive
new_cleaner-IsKnown enabled i a = cc

-- As long as no join of `stop` runs into its timeout, there is at most one cleaning thread,
-- whatever the order of the starts, the stops and the threads' steps.
pub run_single :
    (enabled : Bool) (es : List CleanerEvent) (i j : ℕ)
    → All IsPatient es
    → is_alive ((run (new_cleaner enabled) es).threads i) ≡ true
    → is_alive ((run (new_cleaner enabled) es).threads j) ≡ true
    → i ≡ j
run_single enabled es i j p a b =
    let k = run-IsKnown es (new_cleaner enabled) p (new_cleaner-IsKnown enabled) in
    some_inj (sym (k i a) ∙ k j b)
