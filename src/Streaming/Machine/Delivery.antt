-- ===== src/Streaming/Machine/Delivery.antt =====
-- Whatever the schedule: what reaches the client, and in which order.
use flow_proxy.Base.{
  ℕ, ◌+◌, ◌≡◌, refl, ap, sym, subst, ◌∙◌, ◌⊎◌, inl, inr, Bool, false, ◌&&◌, Option, none, some,
  List, [], ◌∷◌, Text, Bytes, ltb, if_false, if_intro, Exc, ok, err,
}
use flow_proxy.Streaming.Machine.{
  Item, Front, Back, Upstream, Worker, opening, told, reading, ending, last_write, finished, idle,
  joining, World, start, put, write, take_chunk, work, worker_step, abandon, main_in, main_step,
  disconnect_in, disconnect, Event, worker_runs, main_runs, client_leaves, step, run,
}
use flow_proxy.Streaming.Machine.Stages.{
  IsCut, IsDone, Stage, start-Stage, live, cut, done, work-IsLive,
}
use flow_proxy.Streaming.Machine.MainThread.{main_live, leave_live}

-- What no step of the worker touches.
pub record SameFront (w w' : World) : Type 0 where
  pub front : w'.front ≡ w.front
  pub phase : w'.phase ≡ w.phase
  pub attached : w'.attached ≡ w.attached
  pub cancel : w'.cancel ≡ w.cancel
  pub access_log : w'.access_log ≡ w.access_log

same :
    (w : World) (b : Back) (q : List Item) (n s : ℕ) (k : Worker)
    → SameFront w (record w { back = b; chunk_queue = q; notifications = n; stray = s; worker = k })
same w b q n s k = record {
  front = refl;
  phase = refl;
  attached = refl;
  cancel = refl;
  access_log = refl;
}

write_same : (reused : Bool) (w : World) (good bad : Worker) → SameFront w (write reused w good bad)
unfolding write
write_same reused w good bad =
    if_intro (SameFront w) w.pipe_open _ _
      (same w w.back w.chunk_queue (w.notifications + 1) w.stray good)
      (if_intro (SameFront w) reused _ _
        (same w w.back w.chunk_queue w.notifications (w.stray + 1) good)
        (same w w.back w.chunk_queue w.notifications w.stray bad))

take_chunk_same :
    (elapsed : ℕ) (w : World) (c : Bytes) (rest : List Bytes) (e : Option Exc)
    → SameFront w (take_chunk elapsed w c rest e)
unfolding take_chunk put
take_chunk_same elapsed w [] rest e = same w _ _ _ _ _
take_chunk_same elapsed w (b ∷ bs) rest e = same w _ _ _ _ _

pub work_same :
    (reused : Bool) (elapsed : ℕ) (w : World) (k : Worker) → SameFront w (work reused elapsed w k)
unfolding work put
work_same reused elapsed w (opening (ok r)) = same w _ _ _ _ _
work_same reused elapsed w (opening (err e)) = same w _ _ _ _ _
work_same reused elapsed w (told rest e) = write_same reused w _ _
work_same reused elapsed w (reading [] none) = same w _ _ _ _ _
work_same reused elapsed w (reading [] (some e)) = same w _ _ _ _ _
work_same reused elapsed w (reading (c ∷ rest) e) =
    if_intro (SameFront w) w.cancel _ _ (same w w.back w.chunk_queue w.notifications w.stray ending)
      (take_chunk_same elapsed w c rest e)
work_same reused elapsed w ending = same w _ _ _ _ _
work_same reused elapsed w last_write = write_same reused w _ _
work_same reused elapsed w finished = same w _ _ _ _ _

module _ (lower : Text → Text) (u : Upstream) where
  work-IsCut : (w w' : World) → SameFront w w' → IsCut lower u w → IsCut lower u w'
  work-IsCut w w' s v = record {
    cancelled = s.cancel ∙ v.cancelled;
    away = away' v.away;
    taken = v.taken;
    more = v.more;
    shown = s.front ∙ v.shown;
    flow = v.flow;
  }
    where
      away' :
          (w.phase ≡ joining) ⊎ ((w.phase ≡ idle) × (w.attached ≡ false))
          → (w'.phase ≡ joining) ⊎ ((w'.phase ≡ idle) × (w'.attached ≡ false))
      away' (inl j) = inl (s.phase ∙ j)
      away' (inr (i, d)) = inr (s.phase ∙ i, s.attached ∙ d)

  work-IsDone : (w w' : World) → SameFront w w' → IsDone lower u w → IsDone lower u w'
  work-IsDone w w' s v = record {
    detached = s.attached ∙ v.detached;
    back_in_loop = s.phase ∙ v.back_in_loop;
    sent = ap (λ (f : Front). f.client) s.front ∙ v.sent;
    logged = (v.logged.0, s.access_log ∙ v.logged.1, v.logged.2, v.logged.3);
  }

  -- Away from the stream the main thread does nothing.
  idle_main : (w : World) → w.phase ≡ idle → w.attached ≡ false → main_in lower w w.phase ≡ w
  unfolding main_in
  idle_main w i d =
      ap (main_in lower w) i
      ∙ if_false (w.attached && ltb 0 w.notifications) _ w (ap (λ b. b && ltb 0 w.notifications) d)

  idle_leave : (w : World) → w.phase ≡ idle → w.attached ≡ false → disconnect_in w w.phase ≡ w
  unfolding disconnect_in
  idle_leave w i d = ap (disconnect_in w) i ∙ if_false w.attached _ w d

  abandon-IsCut : (w : World) → IsCut lower u w → IsCut lower u (abandon w)
  unfolding abandon
  abandon-IsCut w v = record {
    cancelled = v.cancelled;
    away = inr (refl, refl);
    taken = v.taken;
    more = v.more;
    shown = v.shown;
    flow = v.flow;
  }

  main-IsCut : (w : World) → IsCut lower u w → IsCut lower u (main_in lower w w.phase)
  main-IsCut w v = elim v.away [
    | inl j ↦
        subst (λ p. IsCut lower u (main_in lower w p)) (sym j) (unfold main_in in abandon-IsCut w v)
    | inr (i, d) ↦ subst (IsCut lower u) (sym (idle_main w i d)) v
  ]

  leave-IsCut : (w : World) → IsCut lower u w → IsCut lower u (disconnect_in w w.phase)
  leave-IsCut w v = elim v.away [
    | inl j ↦ subst (λ p. IsCut lower u (disconnect_in w p)) (sym j) (unfold disconnect_in in v)
    | inr (i, d) ↦ subst (IsCut lower u) (sym (idle_leave w i d)) v
  ]

  step_Stage : (w : World) (e : Event) → Stage lower u w → Stage lower u (step lower w e)
  unfolding step worker_step main_step disconnect
  step_Stage w (worker_runs reused t) (live v) =
      live (work-IsLive lower u reused t w w.worker refl v)
  step_Stage w (worker_runs reused t) (cut v) =
      cut (work-IsCut w _ (work_same reused t w w.worker) v)
  step_Stage w (worker_runs reused t) (done v) =
      done (work-IsDone w _ (work_same reused t w w.worker) v)
  step_Stage w main_runs (live v) = main_live lower u w w.phase refl v
  step_Stage w main_runs (cut v) = cut (main-IsCut w v)
  step_Stage w main_runs (done v) =
      done (subst (IsDone lower u) (sym (idle_main w v.back_in_loop v.detached)) v)
  step_Stage w client_leaves (live v) = leave_live lower u w w.phase refl v
  step_Stage w client_leaves (cut v) = cut (leave-IsCut w v)
  step_Stage w client_leaves (done v) =
      done (subst (IsDone lower u) (sym (idle_leave w v.back_in_loop v.detached)) v)

  run_Stage : (w : World) (es : List Event) → Stage lower u w → Stage lower u (run lower w es)
  unfolding run
  run_Stage w [] v = v
  run_Stage w (e ∷ es) v = run_Stage (step lower w e) es (step_Stage w e v)

  -- Every run from the start is in one of the three stages.
  pub run-Stage : (es : List Event) → Stage lower u (run lower (start u) es)
  run-Stage es = run_Stage (start u) es (start-Stage lower u)
