-- ===== src/Streaming/Machine/Progress.antt =====
-- Where a request that both threads go on with comes to.
use flow_proxy.Base.{
  ℕ, ◌<◌, ◌≡◌, refl, sym, subst, ◌∙◌, inl, inr, Bool, true, false, ◌&&◌, List, [], ◌∷◌, ◌++◌, Text,
  length, All, All-append, ltb, Bool-cases, if_intro, arith,
}
use flow_proxy.Streaming.Machine.{
  Item, response_headers, chunk, sentinel, World, AccessLine, Phase, idle, draining, joining,
  Upstream, start, worker_step, finish, abandon, take_item, main_in, main_step, Event, worker_runs,
  main_runs, client_leaves, step, run,
}
use flow_proxy.Streaming.Machine.Awake.{IsAwake, step-IsAwake, start-IsAwake, run-IsAwake}
use flow_proxy.Streaming.Machine.Measure.{
  left, main_attached, worker_cases, main_enabled, worker_rests, main_step_le,
}
use flow_proxy.Streaming.Machine.Delivery.{work_same}
use flow_proxy.Streaming.Machine.Client.{
  client_complete, expected_client, expected_bytes, expected_status,
}

-- Both threads in turn.
unfoldable pub fair : List (Bool × ℕ) → List Event
fair [] = []
fair ((reused, elapsed) ∷ ts) = worker_runs reused elapsed ∷ main_runs ∷ fair ts

-- The threads run; the client stays.
unfoldable pub IsThread : Event → Type 0
IsThread client_leaves = ⊥
IsThread event = Unit

module _ (lower : Text → Text) where
  -- One turn of each thread.
  turn : World → Bool × ℕ → World
  turn w (reused, elapsed) = main_step lower (worker_step reused elapsed w)

  left-turn : (w : World) (t : Bool × ℕ) → IsAwake w → w.attached ≡ true → left (turn w t) < left w
  unfolding turn
  left-turn w (reused, elapsed) h a = elim (worker_cases reused elapsed w) [
    | inr d ↦ omega (arith, d, main_step_le lower (worker_step reused elapsed w))
    | inl f ↦
        subst (λ (x : World). left (main_step lower x) < left w)
          (sym (worker_rests reused elapsed w f)) (main_enabled lower w h a f)
  ]

  turn_over : (w : World) (t : Bool × ℕ) → w.attached ≡ false → (turn w t).attached ≡ false
  unfolding turn main_step worker_step
  turn_over w (reused, elapsed) a =
      main_attached lower (worker_step reused elapsed w) (worker_step reused elapsed w).phase
        ((work_same reused elapsed w w.worker).attached ∙ a)

  turn-IsAwake : (w : World) (t : Bool × ℕ) → IsAwake w → IsAwake (turn w t)
  unfolding turn step
  turn-IsAwake w (reused, elapsed) h =
      step-IsAwake lower (worker_step reused elapsed w)
        (step-IsAwake lower w h (worker_runs reused elapsed)) main_runs

  over_stays :
      (ts : List (Bool × ℕ)) (w : World)
      → w.attached ≡ false
      → (run lower w (fair ts)).attached ≡ false
  unfolding run fair turn step
  over_stays [] w a = a
  over_stays (t ∷ ts) w a = over_stays ts (turn w t) (turn_over w t a)

  fair_ends :
      (ts : List (Bool × ℕ)) (w : World)
      → IsAwake w
      → left w < length ts
      → (run lower w (fair ts)).attached ≡ false
  unfolding run fair turn step
  fair_ends [] w h n = elim n [ ]
  fair_ends (t ∷ ts) w h n = elim (Bool-cases w.attached) [
    | inr a ↦ over_stays ts (turn w t) (turn_over w t a)
    | inl a ↦ fair_ends ts (turn w t) (turn-IsAwake w t h) (omega (arith, left-turn w t h a))
  ]

  run-append :
      (w : World) (xs ys : List Event) → run lower w (xs ++ ys) ≡ run lower (run lower w xs) ys
  unfolding run
  run-append w [] ys = refl
  run-append w (x ∷ xs) ys = run-append (step lower w x) xs ys

  -- Whatever has happened so far, also where the client left or a descriptor was reused, a request
  -- whose two threads go on in turn ends within a number of turns that is known beforehand: no
  -- wakeup is lost and the sentinel reaches the main thread.
  pub request_ends :
      (u : Upstream) (es : List Event) (ts : List (Bool × ℕ))
      → left (run lower (start u) es) < length ts
      → (run lower (start u) (es ++ fair ts)).attached ≡ false
  request_ends u es ts n =
      rw (run-append (start u) es (fair ts))
        (fair_ends ts (run lower (start u) es) (run-IsAwake lower (start u) es (start-IsAwake u)) n)

module _ (lower : Text → Text) where
  main_cancel : (w : World) (p : Phase) → (main_in lower w p).cancel ≡ w.cancel
  unfolding main_in abandon
  main_cancel w idle =
      if_intro (λ (x : World). x.cancel ≡ w.cancel) (w.attached && ltb 0 w.notifications) _ _ refl
        refl
  main_cancel w draining = items_cancel w.chunk_queue
    where
      items_cancel : (q : List Item) → (take_item lower w q).cancel ≡ w.cancel
      items_cancel [] = unfold take_item in refl
      items_cancel (sentinel ∷ rest) = unfold take_item finish in refl
      items_cancel (chunk c ∷ rest) = unfold take_item in refl
      items_cancel (response_headers r ∷ rest) = unfold take_item in refl
  main_cancel w joining = refl

  run_cancel :
      (es : List Event) (w : World)
      → All IsThread es
      → w.cancel ≡ false
      → (run lower w es).cancel ≡ false
  unfolding run step worker_step main_step IsThread
  run_cancel [] w a c = c
  run_cancel (worker_runs reused elapsed ∷ es) w (a, rest) c =
      run_cancel es (step lower w (worker_runs reused elapsed)) rest
        ((work_same reused elapsed w w.worker).cancel ∙ c)
  run_cancel (main_runs ∷ es) w (a, rest) c =
      run_cancel es (step lower w main_runs) rest (main_cancel w w.phase ∙ c)
  run_cancel (client_leaves ∷ es) w (a, rest) c = absurd a

  fair_threads : (ts : List (Bool × ℕ)) → All IsThread (fair ts)
  unfolding fair IsThread
  fair_threads [] = tt
  fair_threads ((reused, elapsed) ∷ ts) = (tt, (tt, fair_threads ts))

  -- While the client stays, and whatever the two threads have done so far: after so many further
  -- turns of both as `left` counts and one more, the client was queued the whole response, and the
  -- access log has one line, with the size of the body and the upstream's status.
  pub stream_completes :
      (u : Upstream) (es : List Event) (ts : List (Bool × ℕ))
      → All IsThread es
      → left (run lower (start u) es) < length ts
      → ((run lower (start u) (es ++ fair ts)).front.client ≡ expected_client lower u)
        × (line : AccessLine) × ((run lower (start u) (es ++ fair ts)).access_log ≡ line ∷ [])
        × (line.bytes ≡ expected_bytes lower u)
        × (line.status ≡ expected_status lower u)
  stream_completes u es ts a n =
      client_complete lower u (es ++ fair ts) (request_ends lower u es ts n) (
        run_cancel (es ++ fair ts) (start u) (All-append IsThread es (fair ts) a (fair_threads ts))
          refl)
