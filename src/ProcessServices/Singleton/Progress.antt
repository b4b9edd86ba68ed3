-- ===== src/ProcessServices/Singleton/Progress.antt =====
-- How far a thread in `get` is from the end of its call.
use flow_proxy.Base.{
  ℕ, ◌<◌, ◌≡◌, refl, sym, subst, ◌∙◌, ◌⊎◌, inl, inr, Bool, true, false, Bool-cases, nat_eq, ◌==◌,
  Option, none, some, some_inj, List, [], ◌∷◌, if_true, if_false, arith,
}
use flow_proxy.ProcessServices.Singleton.{
  Shared, Pc, calling, waiting, entered, building, leaving, returning, got, raised, first_test,
  take_lock, second_test, move, System, start, step, run,
}
use flow_proxy.ProcessServices.Singleton.Unique.{
  IsHeld, IsPlaced, IsAgreed, start-IsAgreed, step-IsAgreed,
}

-- How many steps a thread that is not kept waiting is from the end of its call, at most.
pub rank : Pc → ℕ
rank calling = 6
rank waiting = 5
rank entered = 4
rank (building k) = 3
rank leaving = 2
rank returning = 1
rank (got o) = 0
rank raised = 0

-- The call has returned or raised.
unfoldable pub IsDone : Pc → Type 0
IsDone (got o) = Unit
IsDone raised = Unit
IsDone pc = ⊥

is_inside : Pc → Bool
is_inside entered = true
is_inside (building k) = true
is_inside leaving = true
is_inside pc = false

first_test-rank : (o : Option ℕ) → rank (first_test o) < 6
unfolding rank first_test
first_test-rank none = omega arith
first_test-rank (some k) = omega arith

second_test-rank : (s : Shared) (o : Option ℕ) → rank (second_test s o).1 < 4
unfolding rank second_test
second_test-rank s none = omega arith
second_test-rank s (some k) = omega arith

inside-rank :
    (i : ℕ) (raises : Bool) (s : Shared) (pc : Pc)
    → is_inside pc ≡ true
    → rank (move i raises s pc).1 < rank pc
unfolding move is_inside rank
inside-rank i raises s calling h = cc
inside-rank i raises s waiting h = cc
inside-rank i raises s entered h = second_test-rank s s.instance'
inside-rank i true s (building k) h = omega arith
inside-rank i false s (building k) h = omega arith
inside-rank i raises s leaving h = omega arith
inside-rank i raises s returning h = cc
inside-rank i raises s (got o) h = cc
inside-rank i raises s raised h = cc

take_lock-rank :
    (i : ℕ) (s : Shared) (o : Option ℕ)
    → s.lock ≡ o
    → (rank (take_lock i s o).1 < 5) ⊎ ((j : ℕ) × IsHeld s j)
unfolding rank take_lock
take_lock-rank i s none h = inl (omega arith)
take_lock-rank i s (some j) h = inr (j, h)

move-rank :
    (i : ℕ) (raises : Bool) (s : Shared) (pc : Pc)
    → IsDone pc ⊎ ((rank (move i raises s pc).1 < rank pc) ⊎ ((j : ℕ) × IsHeld s j))
unfolding move rank IsDone is_inside
move-rank i raises s calling = inr (inl (first_test-rank s.instance'))
move-rank i raises s waiting = inr (take_lock-rank i s s.lock refl)
move-rank i raises s entered = inr (inl (inside-rank i raises s entered refl))
move-rank i true s (building k) = inr (inl (inside-rank i true s (building k) refl))
move-rank i false s (building k) = inr (inl (inside-rank i false s (building k) refl))
move-rank i raises s leaving = inr (inl (inside-rank i raises s leaving refl))
move-rank i raises s returning = inr (inl (omega arith))
move-rank i raises s (got o) = inl tt
move-rank i raises s raised = inl tt

-- Who holds the lock after a step: the thread, then inside, or the one that held it before.
abbrev Holder : ℕ → Shared → Pc → Shared × Pc → ℕ → Type 0
Holder i s pc after j =
    ((i ≡ j) × (is_inside after.1 ≡ true)) ⊎ (IsHeld s j × (is_inside pc ≡ false))

take_lock-Holder :
    (i j : ℕ) (s : Shared) (o : Option ℕ)
    → s.lock ≡ o
    → IsHeld (take_lock i s o).0 j
    → Holder i s waiting (take_lock i s o) j
unfolding take_lock is_inside
take_lock-Holder i j s none e h = inl (some_inj h, refl)
take_lock-Holder i j s (some k) e h = inr (h, refl)

second_test-Holder :
    (i j : ℕ) (s : Shared) (o : Option ℕ)
    → IsHeld s i
    → IsHeld (second_test s o).0 j
    → Holder i s entered (second_test s o) j
unfolding second_test is_inside
second_test-Holder i j s none held h = inl (some_inj (sym held ∙ h), refl)
second_test-Holder i j s (some k) held h = inl (some_inj (sym held ∙ h), refl)

move-Holder :
    (i j : ℕ) (raises : Bool) (s : Shared) (pc : Pc)
    → IsPlaced s i pc
    → IsHeld (move i raises s pc).0 j
    → Holder i s pc (move i raises s pc) j
unfolding move is_inside IsPlaced
move-Holder i j raises s calling p h = inr (h, refl)
move-Holder i j raises s waiting p h = take_lock-Holder i j s s.lock refl h
move-Holder i j raises s entered p h = second_test-Holder i j s s.instance' p h
move-Holder i j true s (building k) p h = cc
move-Holder i j false s (building k) p h = inl (some_inj (sym p.0 ∙ h), refl)
move-Holder i j raises s leaving p h = cc
move-Holder i j raises s returning p h = inr (h, refl)
move-Holder i j raises s (got o) p h = inr (h, refl)
move-Holder i j raises s raised p h = inr (h, refl)

-- The holder of the lock is between taking it and giving it back.
abbrev IsGuarded : System → Type 0
IsGuarded w = (j : ℕ) → IsHeld w.shared j → is_inside (w.pc j) ≡ true

step-IsGuarded :
    (w : System) (i : ℕ) (raises : Bool) → IsAgreed w → IsGuarded w → IsGuarded (step w (i, raises))
unfolding step
step-IsGuarded w i raises a g j h = elim (move-Holder i j raises w.shared (w.pc i) (a.placed i) h) [
  | inl (same, inside) ↦
      if_true (λ pc. is_inside pc ≡ true) (i == j) _ _ ((nat_eq.test_iff i j).1 same) inside
  | inr (held, outside) ↦ elim (Bool-cases (i == j)) [
    | inl same ↦
        let e : i ≡ j = (nat_eq.test_iff i j).0 same in
        let inside : is_inside (w.pc i) ≡ true =
          subst (λ x. is_inside (w.pc x) ≡ true) (sym e) (g j held) in
        cc
    | inr other ↦ subst (λ pc. is_inside pc ≡ true) (sym (if_false (i == j) _ _ other)) (g j held)
  ]
]

run-IsGuarded :
    (w : System) (es : List (ℕ × Bool)) → IsAgreed w → IsGuarded w → IsGuarded (run w es)
unfolding run
run-IsGuarded w [] a g = g
run-IsGuarded w ((i, raises) ∷ es) a g =
    run-IsGuarded (step w (i, raises)) es (step-IsAgreed w i raises a)
      (step-IsGuarded w i raises a g)

start-IsGuarded : IsGuarded start
start-IsGuarded j h = cc

stepped :
    (w : System) (i : ℕ) (raises : Bool)
    → rank (move i raises w.shared (w.pc i)).1 < rank (w.pc i)
    → rank ((step w (i, raises)).pc i) < rank (w.pc i)
unfolding step
stepped w i raises h =
    if_true (λ pc. rank pc < rank (w.pc i)) (i == i) _ _ ((nat_eq.test_iff i i).1 refl) h

-- In every reachable state, each thread's call is done, or the thread's next step brings it nearer
-- to its end, or the lock is held by a thread whose next step brings that one nearer.
pub get_not_stuck :
    (es : List (ℕ × Bool)) (i : ℕ) (raises : Bool)
    → IsDone ((run start es).pc i)
      ⊎ ((rank ((step (run start es) (i, raises)).pc i) < rank ((run start es).pc i))
          ⊎ ((j : ℕ) × IsHeld (run start es).shared j
              × (rank ((step (run start es) (j, raises)).pc j) < rank ((run start es).pc j))))
get_not_stuck es i raises =
    let w = run start es in
    elim (move-rank i raises w.shared (w.pc i)) [
      | inl done ↦ inl done
      | inr (inl nearer) ↦ inr (inl (stepped w i raises nearer))
      | inr (inr (j, held)) ↦
          let inside = run-IsGuarded start es start-IsAgreed start-IsGuarded j held in
          inr (inr (j, held, stepped w j raises (inside-rank j raises w.shared (w.pc j) inside)))
    ]
