-- ===== src/Streaming/Machine/Awake.antt =====
-- What the main thread waits for, and whether its pipe is or will be readable.
use flow_proxy.Base.{
  ℕ, ◌<◌, ◌≡◌, ◌≢◌, refl, ap, sym, subst, ◌∙◌, ◌⊎◌, inl, inr, Bool, true, false, ◌&&◌, Option, none,
  some, List, [], ◌∷◌, ◌++◌, Text, Bytes, ltb, Bool-cases, if_intro, if_true, if_false, Exc, ok,
  err, arith,
}
use flow_proxy.Streaming.Machine.{
  Item, response_headers, chunk, sentinel, World, Back, record_error, Worker, opening, told,
  reading, ending, last_write, finished, Phase, idle, draining, joining, Upstream, start, put,
  write, take_chunk, work, worker_step, finish, abandon, take_item, main_in, main_step,
  disconnect_in, disconnect, Event, worker_runs, main_runs, client_leaves, step, run,
}

unfoldable pub has_sentinel : List Item → Bool
has_sentinel [] = false
has_sentinel (sentinel ∷ rest) = true
has_sentinel (item ∷ rest) = has_sentinel rest

-- The worker has put an item whose byte it has yet to write; it has put the sentinel.
unfoldable pub said : Worker → Bool
said (told rest e) = true
said last_write = true
said worker = false

unfoldable pub quit : Worker → Bool
quit last_write = true
quit finished = true
quit worker = false

-- While the request is the current one, its pipe is open, a sentinel that was put is not lost, and
-- the event loop will find the pipe readable where it has something to deliver.
pub record IsAwake (w : World) : Type 0 where
  pub pipe : w.attached ≡ true → w.pipe_open ≡ true
  pub kept : w.attached ≡ true → quit w.worker ≡ true → has_sentinel w.chunk_queue ≡ true
  pub woken :
      w.attached ≡ true
      → w.phase ≡ idle
      → w.chunk_queue ≢ []
      → (said w.worker ≡ true) ⊎ (0 < w.notifications)

detached-IsAwake : (w : World) → (w.attached ≡ true → ⊥) → IsAwake w
detached-IsAwake w h = record {
  pipe = λ a. absurd (h a);
  kept = λ a q. absurd (h a);
  woken = λ a i n. absurd (h a);
}

has_sentinel-put : (q : List Item) → has_sentinel (q ++ sentinel ∷ []) ≡ true
unfolding has_sentinel
has_sentinel-put [] = refl
has_sentinel-put (sentinel ∷ q) = refl
has_sentinel-put (chunk c ∷ q) = has_sentinel-put q
has_sentinel-put (response_headers h ∷ q) = has_sentinel-put q

module _ (reused : Bool) (elapsed : ℕ) (w : World) (h : IsAwake w) where
  -- A byte to the pipe; nothing is promised on a closed one.
  write-IsAwake :
      (done raised : Worker)
      → (w.attached ≡ true → quit done ≡ true → has_sentinel w.chunk_queue ≡ true)
      → IsAwake (write reused w done raised)
  unfolding write
  write-IsAwake done raised k = elim (Bool-cases w.pipe_open) [
    | inl o ↦
        if_true IsAwake w.pipe_open _ _ o
          (record { pipe = h.pipe; kept = k; woken = λ a i n. inr (omega arith) })
    | inr c ↦ subst IsAwake (sym (if_false w.pipe_open _ _ c)) (
        if_intro IsAwake reused _ _ (detached-IsAwake _ (λ a. cc (h.pipe a)))
          (detached-IsAwake _ (λ a. cc (h.pipe a))))
  ]

  -- A step that tells nothing: not from a worker that has a byte to write.
  quiet-IsAwake :
      (b : Back) (k : Worker)
      → said w.worker ≡ false
      → quit k ≡ false
      → IsAwake (record w { back = b; worker = k })
  quiet-IsAwake b k s q = record {
    pipe = h.pipe;
    kept = λ a p. cc;
    woken = λ a i n. elim (h.woken a i n) [ inl t ↦ cc | inr p ↦ inr p ];
  }

  take_chunk-IsAwake :
      (c : Bytes) (rest : List Bytes) (x : Option Exc)
      → said w.worker ≡ false
      → IsAwake (take_chunk elapsed w c rest x)
  unfolding take_chunk put said quit
  take_chunk-IsAwake [] rest x s = quiet-IsAwake w.back (reading rest x) s refl
  take_chunk-IsAwake (b ∷ bs) rest x s = record {
    pipe = h.pipe;
    kept = λ a q. cc;
    woken = λ a i n. inl refl;
  }

  work-IsAwake : (k : Worker) → w.worker ≡ k → IsAwake (work reused elapsed w k)
  unfolding work put record_error said quit
  work-IsAwake (opening (ok r)) e = record {
    pipe = h.pipe;
    kept = λ a q. cc;
    woken = λ a i n. inl refl;
  }
  work-IsAwake (opening (err x)) e = quiet-IsAwake _ ending (rw e refl) refl
  work-IsAwake (told rest x) e = write-IsAwake (reading rest x) ending (λ a q. cc)
  work-IsAwake (reading [] none) e = quiet-IsAwake w.back ending (rw e refl) refl
  work-IsAwake (reading [] (some x)) e = quiet-IsAwake _ ending (rw e refl) refl
  work-IsAwake (reading (c ∷ rest) x) e =
      if_intro IsAwake w.cancel _ _ (quiet-IsAwake w.back ending (rw e refl) refl)
        (take_chunk-IsAwake c rest x (rw e refl))
  work-IsAwake ending e = record {
    pipe = h.pipe;
    kept = λ a q. has_sentinel-put w.chunk_queue;
    woken = λ a i n. inl refl;
  }
  work-IsAwake last_write e = write-IsAwake finished finished (λ a q. h.kept a (rw e refl))
  work-IsAwake finished e = h

module _ (lower : Text → Text) (w : World) (h : IsAwake w) where
  take_item-IsAwake :
      (q : List Item) → w.chunk_queue ≡ q → w.phase ≡ draining → IsAwake (take_item lower w q)
  unfolding take_item finish has_sentinel
  take_item-IsAwake [] e d = record {
    pipe = h.pipe;
    kept = λ a q. h.kept a q;
    woken = λ a i n. absurd (n e);
  }
  take_item-IsAwake (sentinel ∷ rest) e d = detached-IsAwake _ (λ a. cc)
  take_item-IsAwake (chunk c ∷ rest) e d = record {
    pipe = h.pipe;
    kept = λ a q. rw (← ap has_sentinel e) (h.kept a q);
    woken = λ a i n. cc (sym d ∙ i);
  }
  take_item-IsAwake (response_headers r ∷ rest) e d = record {
    pipe = h.pipe;
    kept = λ a q. rw (← ap has_sentinel e) (h.kept a q);
    woken = λ a i n. cc (sym d ∙ i);
  }

  main-IsAwake : (p : Phase) → w.phase ≡ p → IsAwake (main_in lower w p)
  unfolding main_in abandon
  main-IsAwake idle e =
      if_intro IsAwake (w.attached && ltb 0 w.notifications) _ _
        (record { pipe = h.pipe; kept = h.kept; woken = λ a i n. cc }) h
  main-IsAwake draining e = take_item-IsAwake w.chunk_queue refl e
  main-IsAwake joining e = detached-IsAwake _ (λ a. cc)

  leave-IsAwake : (p : Phase) → w.phase ≡ p → IsAwake (disconnect_in w p)
  unfolding disconnect_in
  leave-IsAwake idle e =
      if_intro IsAwake w.attached _ _ (record { pipe = h.pipe; kept = h.kept; woken = λ a i n. cc })
        h
  leave-IsAwake draining e = h
  leave-IsAwake joining e = h

  pub step-IsAwake : (x : Event) → IsAwake (step lower w x)
  unfolding step worker_step main_step disconnect
  step-IsAwake (worker_runs reused elapsed) = work-IsAwake reused elapsed w h w.worker refl
  step-IsAwake main_runs = main-IsAwake w.phase refl
  step-IsAwake client_leaves = leave-IsAwake w.phase refl

pub start-IsAwake : (u : Upstream) → IsAwake (start u)
unfolding quit
start-IsAwake u = record { pipe = λ a. refl; kept = λ a q. cc; woken = λ a i n. absurd (n refl) }

pub run-IsAwake :
    (lower : Text → Text) (w : World) (es : List Event) → IsAwake w → IsAwake (run lower w es)
unfolding run
run-IsAwake lower w [] h = h
run-IsAwake lower w (x ∷ es) h = run-IsAwake lower (step lower w x) es (step-IsAwake lower w h x)
