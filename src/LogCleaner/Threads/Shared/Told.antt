-- ===== src/LogCleaner/Threads/Shared/Told.antt =====
-- One cleaner among the shared ones: which of its threads have been told to stop.
use flow_proxy.Base.{
  ℕ, ◌==◌, nat_eq, ◌≡◌, ◌≢◌, refl, sym, ap, subst, ◌∙◌, ◌⊎◌, inl, inr, Bool, true, false,
  Bool-cases, some, if_intro, if_true, if_false,
}
use flow_proxy.LogCleaner.Threads.{
  Cleaner, new_cleaner, start, begin_thread, stop, join, thread_alive, is_alive, CleanerEvent,
}
use flow_proxy.LogCleaner.Threads
use flow_proxy.LogCleaner.Threads.Places.{set_loop_cases, loop_step_alive}
use flow_proxy.LogCleaner.Threads.Shared.{set_cleaner}

-- A thread that runs is the one that the cleaner knows of, or its event is set.
pub record IsLed (c : Cleaner) : Type 0 where
  pub known : (i : ℕ) → is_alive (c.threads i) ≡ true → (c.thread ≡ some i) ⊎ (c.stop_event ≡ true)
  pub told : c.joining ≡ true → c.stop_event ≡ true

abbrev pub IsTold : Cleaner → Type 0
IsTold c = (i : ℕ) → is_alive (c.threads i) ≡ true → c.stop_event ≡ true

pub set_cleaner_intro :
    (P : Cleaner → Type 0) (cleaners : ℕ → Cleaner) (k : ℕ) (c : Cleaner) (j : ℕ)
    → (k ≡ j → P c)
    → (k ≢ j → P (cleaners j))
    → P (set_cleaner cleaners k c j)
set_cleaner_intro P cleaners k c j p q = elim (Bool-cases (k == j)) [
  | inl same ↦ if_true P (k == j) _ _ same (p ((nat_eq.test_iff k j).0 same))
  | inr other ↦
      subst P (sym (if_false (k == j) _ _ other))
        (q (λ e. let same = (nat_eq.test_iff k j).1 e in cc))
]

pub set_cleaner_other :
    (cleaners : ℕ → Cleaner) (k : ℕ) (c : Cleaner) (j : ℕ)
    → k ≢ j
    → set_cleaner cleaners k c j ≡ cleaners j
set_cleaner_other cleaners k c j n = elim (Bool-cases (k == j)) [
  | inl same ↦ absurd (n ((nat_eq.test_iff k j).0 same))
  | inr other ↦ if_false (k == j) _ _ other
]

pub new_cleaner-IsLed : (enabled : Bool) → IsLed (new_cleaner enabled)
unfolding is_alive
new_cleaner-IsLed enabled = record { known = λ i a. cc; told = λ j. cc }

pub start-IsLed : (enabled : Bool) → IsLed (start (new_cleaner enabled))
unfolding start thread_alive begin_thread is_alive
start-IsLed false = new_cleaner-IsLed false
start-IsLed true = record {
  known = λ i a. elim (set_loop_cases (new_cleaner true).threads 0 _ i a) [
    | inl (same, now) ↦ inl (ap some same)
    | inr before ↦ cc
  ];
  told = λ j. cc;
}

-- When the known thread does not run, those that do have been told.
pub over-IsTold : (c : Cleaner) → IsLed c → thread_alive c c.thread ≡ false → IsTold c
unfolding thread_alive
over-IsTold c l over i a = elim (l.known i a) [ inl k ↦ let gone = rw k at over in cc | inr t ↦ t ]

pub stop-IsLed : (c : Cleaner) → IsLed c → IsLed (stop c)
unfolding stop
stop-IsLed c l =
    if_intro IsLed (thread_alive c c.thread) _ _
      (record { known = λ i a. inr refl; told = λ j. refl }) l

pub stop-IsTold : (c : Cleaner) → IsLed c → (stop c).joining ≡ false → IsTold (stop c)
unfolding stop
stop-IsTold c l = elim (Bool-cases (thread_alive c c.thread)) [
  | inl running ↦
      if_true (λ (d : Cleaner). d.joining ≡ false → IsTold d) (thread_alive c c.thread) _ _ running
        (λ j. cc)
  | inr over ↦
      subst (λ (d : Cleaner). d.joining ≡ false → IsTold d)
        (sym (if_false (thread_alive c c.thread) _ _ over)) (λ j. over-IsTold c l over)
]

join_event : (timed_out : Bool) (c : Cleaner) → (join timed_out c).stop_event ≡ c.stop_event
unfolding join
join_event true c = refl
join_event false c =
    if_intro (λ (d : Cleaner). d.stop_event ≡ c.stop_event) (thread_alive c c.thread) _ _ refl refl

pub join-IsTold :
    (timed_out : Bool) (c : Cleaner) → IsLed c → c.joining ≡ true → IsTold (join timed_out c)
join-IsTold timed_out c l j i a = join_event timed_out c ∙ l.told j

pub join-IsLed :
    (timed_out : Bool) (c : Cleaner) → IsLed c → c.joining ≡ true → IsLed (join timed_out c)
join-IsLed timed_out c l j = record {
  known = λ i a. inr (join-IsTold timed_out c l j i a);
  told = λ k. join_event timed_out c ∙ l.told j;
}

pub turn-IsLed :
    (c : Cleaner) (i : ℕ) (expired : Bool)
    → IsLed c
    → IsLed (Threads.step c (CleanerEvent.runs i expired))
unfolding Threads.step
turn-IsLed c i expired l = record { known = λ j a. l.known j (before j a); told = l.told }
  where
    before :
        (j : ℕ)
        → is_alive
            (Threads.set_loop c.threads i (Threads.loop_step c.stop_event expired (c.threads i)) j)
          ≡ true
        → is_alive (c.threads j) ≡ true
    before j a = elim (set_loop_cases c.threads i _ j a) [
      | inl (same, now) ↦
          subst (λ n. is_alive (c.threads n) ≡ true) same
            (loop_step_alive c.stop_event expired (c.threads i) now)
      | inr b ↦ b
    ]

pub turn-IsTold :
    (c : Cleaner) (i : ℕ) (expired : Bool)
    → IsTold c
    → IsTold (Threads.step c (CleanerEvent.runs i expired))
unfolding Threads.step
turn-IsTold c i expired t = λ j a. elim (set_loop_cases c.threads i _ j a) [
  | inl (same, now) ↦ t i (loop_step_alive c.stop_event expired (c.threads i) now)
  | inr b ↦ t j b
]
