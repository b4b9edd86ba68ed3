-- ===== src/LogCleaner/Threads/Places.antt =====
-- The places of a cleaner's threads after a step of one of them.
use flow_proxy.Base.{ℕ, ◌==◌, nat_eq, ◌≡◌, refl, ◌⊎◌, inl, inr, Bool, true, false, Bool-cases}
use flow_proxy.LogCleaner.Threads.{
  Loop, not_started, testing, waiting, cleaning, ended, is_alive, set_loop, loop_step,
}

-- What a change of one thread's place says of a thread that runs after it.
pub set_loop_cases :
    (threads : ℕ → Loop) (i : ℕ) (l : Loop) (j : ℕ)
    → is_alive (set_loop threads i l j) ≡ true
    → ((i ≡ j) × (is_alive l ≡ true)) ⊎ (is_alive (threads j) ≡ true)
set_loop_cases threads i l j h = elim (Bool-cases (i == j)) [
  | inl same ↦ inl ((nat_eq.test_iff i j).0 same, rw same at h)
  | inr other ↦ inr (rw other at h)
]

pub loop_step_alive :
    (stop_event expired : Bool) (l : Loop)
    → is_alive (loop_step stop_event expired l) ≡ true
    → is_alive l ≡ true
unfolding loop_step is_alive
loop_step_alive stop_event expired not_started h = h
loop_step_alive true expired testing h = refl
loop_step_alive false expired testing h = refl
loop_step_alive true expired waiting h = refl
loop_step_alive false true waiting h = refl
loop_step_alive false false waiting h = refl
loop_step_alive stop_event expired cleaning h = refl
loop_step_alive stop_event expired ended h = h
