-- ===== src/ProcessServices/HttpClient/Threads/Rebuilt.antt =====
-- How many clients are made, and what is answered.
use flow_proxy.Base.{
  ℕ, ◌+◌, ◌≤◌, ◌<◌, ◌≡◌, ◌≢◌, refl, sym, ap, subst, ◌∙◌, ◌⊎◌, inl, inr, Bool, Bool-cases, nat_eq,
  ◌==◌, Option, none, some, some_inj, List, [], ◌∷◌, if_true, if_false, if_intro, arith,
}
use flow_proxy.ProcessServices.HttpClient.Threads.{
  Shared, Place, asking, locking, retesting, making, unlocking, answering, answered, marking,
  closing, clearing, cleared, one_client, tested, lock_client, retested, marked, close_client,
  client_move, ClientSystem, first_places, client_step, client_run,
}

absent : Option ℕ → ℕ
absent none = 1
absent (some c) = 0

-- One client and one more for each mark at most; the one that is kept was made.
record IsCounted (s : Shared) : Type 0 where
  counted : s.made + absent s.http_client ≤ 1 + s.marks
  some_made : 1 ≤ s.made
  below : (c : ℕ) → s.http_client ≡ some c → c < s.made

-- A client that was made, or a mark.
abbrev IsAnswer : Shared → Option ℕ → Type 0
IsAnswer s o = ((c : ℕ) × (o ≡ some c) × (c < s.made)) ⊎ (1 ≤ s.marks)

IsAt : Shared → ℕ → Place → Type 0
IsAt s i retesting = s.client_lock ≡ some i
IsAt s i making = (s.client_lock ≡ some i) × (s.http_client ≡ none)
IsAt s i unlocking = s.client_lock ≡ some i
IsAt s i (answered o) = IsAnswer s o
IsAt s i p = Unit

-- What a step of thread `i` leaves to the others.
record IsQuiet (i : ℕ) (s t : Shared) : Type 0 where
  locked : (j : ℕ) → i ≢ j → s.client_lock ≡ some j → t.client_lock ≡ some j
  gone : (j : ℕ) → i ≢ j → s.client_lock ≡ some j → s.http_client ≡ none → t.http_client ≡ none
  made : s.made ≤ t.made
  marks : s.marks ≤ t.marks

client-IsAnswer : (s : Shared) (o : Option ℕ) → s.http_client ≡ o → IsCounted s → IsAnswer s o
unfolding absent
client-IsAnswer s none e c =
    let one : absent s.http_client ≡ 1 = ap absent e in
    inr (omega (arith, one, c.counted, c.some_made))
client-IsAnswer s (some k) e c = inl (k, refl, c.below k e)

others-IsAt :
    (i : ℕ) (s t : Shared) (j : ℕ) (p : Place) → IsQuiet i s t → i ≢ j → IsAt s j p → IsAt t j p
unfolding IsAt
others-IsAt i s t j asking q n a = tt
others-IsAt i s t j locking q n a = tt
others-IsAt i s t j retesting q n a = q.locked j n a
others-IsAt i s t j making q n a = (q.locked j n a.0, q.gone j n a.0 a.1)
others-IsAt i s t j unlocking q n a = q.locked j n a
others-IsAt i s t j answering q n a = tt
others-IsAt i s t j (answered o) q n (inl (c, e, b)) = inl (c, e, omega (arith, b, q.made))
others-IsAt i s t j (answered o) q n (inr m) = inr (omega (arith, m, q.marks))
others-IsAt i s t j marking q n a = tt
others-IsAt i s t j closing q n a = tt
others-IsAt i s t j clearing q n a = tt
others-IsAt i s t j cleared q n a = tt

abbrev IsGood : ℕ → Shared → Shared × Place → Type 0
IsGood i s after = IsCounted after.0 × IsAt after.0 i after.1 × IsQuiet i s after.0

same-IsQuiet : (i : ℕ) (s : Shared) → IsQuiet i s s
same-IsQuiet i s = record {
  locked = λ j n l. l;
  gone = λ j n l g. g;
  made = omega arith;
  marks = omega arith;
}

lock_client-IsGood :
    (i : ℕ) (s : Shared) (o : Option ℕ)
    → s.client_lock ≡ o
    → IsCounted s
    → IsGood i s (lock_client i s o)
unfolding lock_client IsAt
lock_client-IsGood i s none e c = (
  record { counted = c.counted; some_made = c.some_made; below = c.below },
  refl,
  record {
    locked = λ j n l. let z = sym e ∙ l in cc;
    gone = λ j n l g. g;
    made = omega arith;
    marks = omega arith;
  },
)
lock_client-IsGood i s (some j) e c = (c, tt, same-IsQuiet i s)

retested-IsAt :
    (i : ℕ) (s : Shared) (o : Option ℕ)
    → s.http_client ≡ o
    → s.client_lock ≡ some i
    → IsAt s i (retested o)
unfolding retested IsAt
retested-IsAt i s none e l = (l, e)
retested-IsAt i s (some c) e l = l

tested-IsAt : (i : ℕ) (s : Shared) (o : Option ℕ) → IsAt s i (tested o)
unfolding tested IsAt
tested-IsAt i s none = tt
tested-IsAt i s (some c) = tt

marked-IsAt : (i : ℕ) (s : Shared) (o : Option ℕ) → IsAt s i (marked o)
unfolding marked IsAt
marked-IsAt i s none = tt
marked-IsAt i s (some c) = tt

close_client-IsGood :
    (i : ℕ) (s : Shared) (o : Option ℕ) → IsCounted s → IsGood i s (close_client s o, clearing)
unfolding close_client IsAt
close_client-IsGood i s none c = (c, tt, same-IsQuiet i s)
close_client-IsGood i s (some k) c = (
  record { counted = c.counted; some_made = c.some_made; below = c.below },
  tt,
  record { locked = λ j n l. l; gone = λ j n l g. g; made = omega arith; marks = omega arith },
)

-- The lock has one holder.
one_holder : (i j : ℕ) (s : Shared) → s.client_lock ≡ some i → s.client_lock ≡ some j → i ≡ j
one_holder i j s a b = some_inj (sym a ∙ b)

absent_bound : (o : Option ℕ) → absent o ≤ 1
unfolding absent
absent_bound none = omega arith
absent_bound (some c) = omega arith

move-IsGood :
    (i : ℕ) (s : Shared) (p : Place) → IsCounted s → IsAt s i p → IsGood i s (client_move i s p)
unfolding client_move IsAt absent
move-IsGood i s asking c a = (c, tested-IsAt i s s.http_client, same-IsQuiet i s)
move-IsGood i s locking c a = lock_client-IsGood i s s.client_lock refl c
move-IsGood i s retesting c a = (c, retested-IsAt i s s.http_client refl a, same-IsQuiet i s)
move-IsGood i s making c (l, g) =
    let one : absent s.http_client ≡ 1 = ap absent g in
    (
      record {
        counted = omega (arith, one, c.counted);
        some_made = omega arith;
        below = λ k e. let same = some_inj e in omega (arith, same);
      },
      l,
      record {
        locked = λ j n m. m;
        gone = λ j n m q. absurd (n (one_holder i j s l m));
        made = omega arith;
        marks = omega arith;
      },
    )
move-IsGood i s unlocking c a = (
  record { counted = c.counted; some_made = c.some_made; below = c.below },
  tt,
  record {
    locked = λ j n m. absurd (n (one_holder i j s a m));
    gone = λ j n m q. q;
    made = omega arith;
    marks = omega arith;
  },
)
move-IsGood i s answering c a = (c, client-IsAnswer s s.http_client refl c, same-IsQuiet i s)
move-IsGood i s (answered o) c a = (c, a, same-IsQuiet i s)
move-IsGood i s marking c a = (c, marked-IsAt i s s.http_client, same-IsQuiet i s)
move-IsGood i s closing c a = close_client-IsGood i s s.http_client c
move-IsGood i s clearing c a = (
  record { counted = omega (arith, c.counted); some_made = c.some_made; below = λ k e. cc },
  tt,
  record { locked = λ j n m. m; gone = λ j n m q. refl; made = omega arith; marks = omega arith },
)
move-IsGood i s cleared c a = (c, tt, same-IsQuiet i s)

record IsFine (s : ClientSystem) : Type 0 where
  counts : IsCounted s.shared
  places : (i : ℕ) → IsAt s.shared i (s.place i)

step-IsFine : (s : ClientSystem) (i : ℕ) → IsFine s → IsFine (client_step s i)
unfolding client_step
step-IsFine s i f =
    let (c, own, quiet) = move-IsGood i s.shared (s.place i) f.counts (f.places i) in
    record {
      counts = c;
      places = λ j. elim (Bool-cases (i == j)) [
        | inl same ↦
            let e : i ≡ j = (nat_eq.test_iff i j).0 same in
            if_true (IsAt (client_move i s.shared (s.place i)).0 j) (i == j) _ _ same (
              subst
                (λ n.
                  IsAt (client_move i s.shared (s.place i)).0 n
                    (client_move i s.shared (s.place i)).1)
                e own)
        | inr other ↦
            subst (IsAt (client_move i s.shared (s.place i)).0 j)
              (sym (if_false (i == j) _ _ other))
              (others-IsAt i s.shared _ j (s.place j) quiet
                (λ e. let z = (nat_eq.test_iff i j).1 e in cc) (f.places j))
      ];
    }

run-IsFine : (is : List ℕ) (s : ClientSystem) → IsFine s → IsFine (client_run s is)
unfolding client_run
run-IsFine [] s f = f
run-IsFine (i ∷ is) s f = run-IsFine is (client_step s i) (step-IsFine s i f)

first-IsFine : (marks : ℕ → Bool) → IsFine (first_places marks)
unfolding IsAt absent
first-IsFine marks = record {
  counts = record {
    counted = omega arith;
    some_made = omega arith;
    below = λ c e. let same = some_inj e in omega (arith, same);
  };
  places = λ i. if_intro (IsAt one_client i) (marks i) _ _ tt tt;
}

-- Whatever the order of the threads' steps, at most one client is made for each time that the
-- client was set to None, besides the first; and a thread that asked is answered with a client that
-- was made, unless the client was set to None before.
pub client_run_answers :
    (marks : ℕ → Bool) (is : List ℕ) (i : ℕ) (o : Option ℕ)
    → (client_run (first_places marks) is).place i ≡ answered o
    → ((client_run (first_places marks) is).shared.made
        ≤ 1 + (client_run (first_places marks) is).shared.marks)
      × (((c : ℕ) × (o ≡ some c) × (c < (client_run (first_places marks) is).shared.made))
          ⊎ (1 ≤ (client_run (first_places marks) is).shared.marks))
unfolding IsAt
client_run_answers marks is i o e =
    let f = run-IsFine is (first_places marks) (first-IsFine marks) in
    (
      omega (arith, f.counts.counted),
      subst (IsAt (client_run (first_places marks) is).shared i) e (f.places i),
    )
