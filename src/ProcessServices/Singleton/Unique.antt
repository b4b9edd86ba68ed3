-- ===== src/ProcessServices/Singleton/Unique.antt =====
-- What the threads of `get` have in common.
use flow_proxy.Base.{
  ℕ, ◌+◌, ◌≤◌, ◌≡◌, refl, sym, ap, subst, ◌∙◌, inl, inr, Bool, true, false, Bool-cases, nat_eq,
  ◌==◌, Option, none, some, some_inj, List, [], ◌∷◌, if_true, if_false, arith,
}
use flow_proxy.ProcessServices.Singleton.{
  Shared, Pc, calling, waiting, entered, building, leaving, returning, got, raised, first_test,
  take_lock, second_test, move, System, start, update, step, run,
}

abbrev pub IsHeld : Shared → ℕ → Type 0
IsHeld s i = s.lock ≡ some i

abbrev pub IsMade : Shared → Type 0
IsMade s = (k : ℕ) × (s.instance' ≡ some k)

-- What a thread can rely on where it stands.
unfoldable pub IsPlaced : Shared → ℕ → Pc → Type 0
IsPlaced s i entered = IsHeld s i
IsPlaced s i (building k) = IsHeld s i × (s.instance' ≡ none)
IsPlaced s i leaving = IsHeld s i × IsMade s
IsPlaced s i returning = IsMade s
IsPlaced s i (got o) = (o ≡ s.instance') × IsMade s
IsPlaced s i pc = Unit

pub assigned_for : Option ℕ → ℕ
assigned_for none = 0
assigned_for (some k) = 1

abbrev pub IsCounted : Shared → Type 0
IsCounted s = s.assigned ≡ assigned_for s.instance'

-- A step of thread `i` that leaves the others what they rely on.
record IsMove (i : ℕ) (s : Shared) (after : Shared × Pc) : Type 0 where
  own : IsPlaced after.0 i after.1
  counted : IsCounted after.0
  others : (j : ℕ) → ¬ (i ≡ j) → IsHeld s j → IsHeld after.0 j × (after.0.instance' ≡ s.instance')
  made : (k : ℕ) → s.instance' ≡ some k → after.0.instance' ≡ s.instance'

-- A step that changes neither the lock nor the instance.
quiet :
    (i : ℕ) (s s' : Shared) (pc : Pc)
    → s'.lock ≡ s.lock
    → s'.instance' ≡ s.instance'
    → IsPlaced s' i pc
    → IsCounted s'
    → IsMove i s (s', pc)
quiet i s s' pc l e p c = record {
  own = p;
  counted = c;
  others = λ j n h. (l ∙ h, e);
  made = λ k h. e;
}

-- A thread that holds the lock gives it back.
released :
    (i : ℕ) (s : Shared) (pc : Pc)
    → IsHeld s i
    → IsPlaced (record s { lock = none }) i pc
    → IsCounted s
    → IsMove i s (record s { lock = none }, pc)
released i s pc h p c = record {
  own = p;
  counted = c;
  others = λ j n o. absurd (n (some_inj (sym h ∙ o)));
  made = λ k e. refl;
}

first_test-IsPlaced :
    (i : ℕ) (s : Shared) (o : Option ℕ) → s.instance' ≡ o → IsPlaced s i (first_test o)
unfolding first_test IsPlaced
first_test-IsPlaced i s none h = tt
first_test-IsPlaced i s (some k) h = (k, h)

take_lock-IsMove :
    (i : ℕ) (s : Shared) (o : Option ℕ) → s.lock ≡ o → IsCounted s → IsMove i s (take_lock i s o)
unfolding take_lock IsPlaced
take_lock-IsMove i s none h c = record {
  own = refl;
  counted = c;
  others = λ j n held. cc;
  made = λ k e. refl;
}
take_lock-IsMove i s (some j) h c = quiet i s s waiting refl refl tt c

second_test-IsMove :
    (i : ℕ) (s : Shared) (o : Option ℕ)
    → s.instance' ≡ o
    → IsHeld s i
    → IsCounted s
    → IsMove i s (second_test s o)
unfolding second_test IsPlaced
second_test-IsMove i s none e h c =
    quiet i s (record s { begun = s.begun + 1 }) (building s.begun) refl refl (h, e) c
second_test-IsMove i s (some k) e h c = quiet i s s leaving refl refl (h, (k, e)) c

-- The instance is assigned by the thread that holds the lock, when there was none.
built-IsMove :
    (i k : ℕ) (s : Shared)
    → IsHeld s i
    → s.instance' ≡ none
    → IsCounted s
    → IsMove i s (record s { instance' = some k; assigned = s.assigned + 1 }, leaving)
unfolding IsPlaced assigned_for
built-IsMove i k s h e c = record {
  own = (h, (k, refl));
  counted = ap (λ n. n + 1) (c ∙ ap assigned_for e);
  others = λ j n o. absurd (n (some_inj (sym h ∙ o)));
  made = λ m o. cc;
}

move-IsMove :
    (i : ℕ) (raises : Bool) (s : Shared) (pc : Pc)
    → IsPlaced s i pc
    → IsCounted s
    → IsMove i s (move i raises s pc)
unfolding move IsPlaced
move-IsMove i raises s calling p c =
    quiet i s s (first_test s.instance') refl refl (first_test-IsPlaced i s s.instance' refl) c
move-IsMove i raises s waiting p c = take_lock-IsMove i s s.lock refl c
move-IsMove i raises s entered p c = second_test-IsMove i s s.instance' refl p c
move-IsMove i true s (building k) p c = released i s raised p.0 tt c
move-IsMove i false s (building k) p c = built-IsMove i k s p.0 p.1 c
move-IsMove i raises s leaving p c = released i s returning p.0 p.1 c
move-IsMove i raises s returning p c = quiet i s s (got s.instance') refl refl (refl, p) c
move-IsMove i raises s (got o) p c = quiet i s s (got o) refl refl p c
move-IsMove i raises s raised p c = quiet i s s raised refl refl p c

kept-IsPlaced :
    (i j : ℕ) (s : Shared) (after : Shared × Pc) (pc : Pc)
    → IsMove i s after
    → ¬ (i ≡ j)
    → IsPlaced s j pc
    → IsPlaced after.0 j pc
unfolding IsPlaced
kept-IsPlaced i j s after calling m n p = tt
kept-IsPlaced i j s after waiting m n p = tt
kept-IsPlaced i j s after entered m n p = (m.others j n p).0
kept-IsPlaced i j s after (building k) m n p =
    let (held, same) = m.others j n p.0 in (held, same ∙ p.1)
kept-IsPlaced i j s after leaving m n p =
    let (held, same) = m.others j n p.0 in (held, (p.1.0, same ∙ p.1.1))
kept-IsPlaced i j s after returning m n p = (p.0, m.made p.0 p.1 ∙ p.1)
kept-IsPlaced i j s after (got o) m n p =
    let same = m.made p.1.0 p.1.1 in (p.0 ∙ sym same, (p.1.0, same ∙ p.1.1))
kept-IsPlaced i j s after raised m n p = tt

pub record IsAgreed (w : System) : Type 0 where
  pub placed : (i : ℕ) → IsPlaced w.shared i (w.pc i)
  pub counted : IsCounted w.shared

pub start-IsAgreed : IsAgreed start
unfolding IsPlaced assigned_for
start-IsAgreed = record { placed = λ i. tt; counted = refl }

pub step-IsAgreed :
    (w : System) (i : ℕ) (raises : Bool) → IsAgreed w → IsAgreed (step w (i, raises))
unfolding step
step-IsAgreed w i raises a = record {
  placed = λ j. elim (Bool-cases (i == j)) [
    | inl same ↦
        let e : i ≡ j = (nat_eq.test_iff i j).0 same in
        subst (λ (x : ℕ). IsPlaced after.0 x (update w.pc i after.1 x)) e
          (if_true (λ pc. IsPlaced after.0 i pc) (i == i) _ _ ((nat_eq.test_iff i i).1 refl) m.own)
    | inr other ↦
        subst (λ pc. IsPlaced after.0 j pc) (sym (if_false (i == j) _ _ other))
          (kept-IsPlaced i j w.shared after (w.pc j) m (λ e. cc ((nat_eq.test_iff i j).1 e))
            (a.placed j))
  ];
  counted = m.counted;
}
  where
    after : Shared × Pc
    after = move i raises w.shared (w.pc i)

    m : IsMove i w.shared after
    m = move-IsMove i raises w.shared (w.pc i) (a.placed i) a.counted

run-IsAgreed : (w : System) (es : List (ℕ × Bool)) → IsAgreed w → IsAgreed (run w es)
unfolding run
run-IsAgreed w [] a = a
run-IsAgreed w ((i, raises) ∷ es) a =
    run-IsAgreed (step w (i, raises)) es (step-IsAgreed w i raises a)

got-IsPlaced :
    (w : System) (i : ℕ) (o : Option ℕ)
    → IsAgreed w
    → w.pc i ≡ got o
    → (o ≡ w.shared.instance') × IsMade w.shared
got-IsPlaced w i o a h = unfold IsPlaced in subst (IsPlaced w.shared i) h (a.placed i)

assigned_for-bounded : (o : Option ℕ) → assigned_for o ≤ 1
unfolding assigned_for
assigned_for-bounded none = omega arith
assigned_for-bounded (some k) = omega arith

-- Whatever the order of the threads' steps, and whichever set-ups raise: `_instance` is assigned
-- at most once, and any two threads to which `get` has returned have the same instance, which
-- is not None.
pub get_unique :
    (es : List (ℕ × Bool)) (i j : ℕ) (o p : Option ℕ)
    → (run start es).pc i ≡ got o
    → (run start es).pc j ≡ got p
    → ((run start es).shared.assigned ≤ 1) × ((k : ℕ) × (o ≡ some k) × (p ≡ some k))
get_unique es i j o p h g =
    let a = run-IsAgreed start es start-IsAgreed in
    let (here, (k, made)) = got-IsPlaced (run start es) i o a h in
    let (there, _) = got-IsPlaced (run start es) j p a g in
    let few : _ ≤ 1 = assigned_for-bounded (run start es).shared.instance' in
    (omega (arith, few, a.counted), (k, here ∙ made, there ∙ made))
