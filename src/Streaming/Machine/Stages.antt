-- ===== src/Streaming/Machine/Stages.antt =====
-- The three stages of a streamed request, and the worker's steps in the first.
use flow_proxy.Base.{
  ℕ, ◌+◌, ◌≡◌, ◌≢◌, refl, ap, sym, subst, ◌∙◌, ◌⊎◌, Bool, true, false, Option, none, some, List, [],
  ◌∷◌, ◌++◌, append_assoc, Text, Bytes, if_true, Exc, ok, err,
}
use flow_proxy.Streaming.Machine.{
  Item, response_headers, chunk, sentinel, Back, Upstream, headers_of, body_of, Worker, opening,
  told, reading, ending, last_write, finished, idle, joining, AccessLine, World, start,
  record_error, record_ttfb, put, write, take_chunk, work,
}
use flow_proxy.Streaming.Machine.Script.{
  first, chunk_items, script, outcome, remaining, Failing, deliver_all, final_front, final_client,
}

module _ (lower : Text → Text) (u : Upstream) where
  -- The request is being streamed.
  pub record IsLive (w : World) : Type 0 where
    pub attached : w.attached ≡ true
    pub open_pipe : w.pipe_open ≡ true
    pub not_cancelled : w.cancel ≡ false
    pub not_joining : w.phase ≢ joining
    pub taken : List Item
    pub shown : w.front ≡ deliver_all lower first taken
    pub flow : taken ++ (w.chunk_queue ++ remaining w.worker) ≡ script u
    pub failing : Failing (outcome u) w.worker w.back.error
    pub unlogged : w.access_log ≡ []

  -- The client went away: nothing more is sent.
  pub record IsCut (w : World) : Type 0 where
    pub cancelled : w.cancel ≡ true
    pub away : (w.phase ≡ joining) ⊎ ((w.phase ≡ idle) × (w.attached ≡ false))
    pub taken : List Item
    pub more : List Item
    pub shown : w.front ≡ deliver_all lower first taken
    pub flow : taken ++ more ≡ script u

  -- The sentinel was taken.
  pub record IsDone (w : World) : Type 0 where
    pub detached : w.attached ≡ false
    pub back_in_loop : w.phase ≡ idle
    pub sent : w.front.client ≡ final_client lower u
    pub logged :
        (l : AccessLine) × (w.access_log ≡ l ∷ [])
        × (l.bytes ≡ (final_front lower u).bytes_sent)
        × (l.status ≡ (final_front lower u).status_code)

  pub data Stage (w : World) : Type 0 where
    live : IsLive w → Stage w
    cut : IsCut w → Stage w
    done : IsDone w → Stage w

  pub start-Stage : Stage (start u)
  unfolding deliver_all remaining
  start-Stage = live (record {
    attached = refl;
    open_pipe = refl;
    not_cancelled = refl;
    not_joining = λ q. cc;
    taken = [];
    shown = refl;
    flow = refl;
    failing = (refl, refl);
    unlogged = refl;
  })

pub regroup :
    (taken q : List Item) (x : Item) (r : List Item)
    → taken ++ (q ++ x ∷ [] ++ r) ≡ taken ++ (q ++ x ∷ r)
regroup taken q x r = ap (◌++◌ taken) (append_assoc q (x ∷ []) r)

module _ (lower : Text → Text) (u : Upstream) where
  -- A step of the worker that keeps the stream alive changes only the queue and its own state.
  pub put-IsLive :
      (w : World) (x : Item) (b : Back) (k : Worker)
      → remaining w.worker ≡ x ∷ remaining k
      → Failing (outcome u) k b.error
      → IsLive lower u w
      → IsLive lower u (record (put w x) { back = b; worker = k })
  unfolding put
  put-IsLive w x b k r p v = record {
    attached = v.attached;
    open_pipe = v.open_pipe;
    not_cancelled = v.not_cancelled;
    not_joining = v.not_joining;
    taken = v.taken;
    shown = v.shown;
    flow =
        regroup v.taken w.chunk_queue x (remaining k)
        ∙ ap (λ z. v.taken ++ (w.chunk_queue ++ z)) (sym r)
        ∙ v.flow;
    failing = p;
    unlogged = v.unlogged;
  }

  -- One that puts nothing.
  pub move-IsLive :
      (w : World) (n : ℕ) (b : Back) (k : Worker)
      → remaining w.worker ≡ remaining k
      → Failing (outcome u) k b.error
      → IsLive lower u w
      → IsLive lower u (record w { back = b; notifications = n; worker = k })
  move-IsLive w n b k r p v = record {
    attached = v.attached;
    open_pipe = v.open_pipe;
    not_cancelled = v.not_cancelled;
    not_joining = v.not_joining;
    taken = v.taken;
    shown = v.shown;
    flow = ap (λ z. v.taken ++ (w.chunk_queue ++ z)) (sym r) ∙ v.flow;
    failing = p;
    unlogged = v.unlogged;
  }

  pub ttfb_error : (b : Back) (o : Option ℕ) (t : ℕ) → (record_ttfb b o t).error ≡ b.error
  unfolding record_ttfb
  ttfb_error b none t = refl
  ttfb_error b (some x) t = refl

  pub write-IsLive :
      (reused : Bool) (w : World) (good bad : Worker)
      → remaining w.worker ≡ remaining good
      → Failing (outcome u) good w.back.error
      → IsLive lower u w
      → IsLive lower u (write reused w good bad)
  unfolding write
  write-IsLive reused w good bad r p v =
      if_true (IsLive lower u) w.pipe_open _ _ v.open_pipe
        (move-IsLive w (w.notifications + 1) w.back good r p v)

  pub take_chunk-IsLive :
      (elapsed : ℕ) (w : World) (c : Bytes) (rest : List Bytes) (e : Option Exc)
      → remaining w.worker ≡ chunk_items (c ∷ rest)
      → (w.back.error ≡ none) × (e ≡ outcome u)
      → IsLive lower u w
      → IsLive lower u (take_chunk elapsed w c rest e)
  unfolding take_chunk remaining chunk_items
  take_chunk-IsLive elapsed w [] rest e q f v =
      move-IsLive w w.notifications w.back (reading rest e) q f v
  take_chunk-IsLive elapsed w (b ∷ bs) rest e q f v =
      put-IsLive w (chunk (b ∷ bs)) (record_ttfb w.back w.back.ttfb elapsed) (told rest e) q
        (ttfb_error w.back w.back.ttfb elapsed ∙ f.0, f.1) v

  pub Failing-at :
      (w : World) (k : Worker)
      → w.worker ≡ k
      → IsLive lower u w
      → Failing (outcome u) k w.back.error
  Failing-at w k q v = subst (λ z. Failing (outcome u) z w.back.error) q v.failing

  pub work-IsLive :
      (reused : Bool) (elapsed : ℕ) (w : World) (k : Worker)
      → w.worker ≡ k
      → IsLive lower u w
      → IsLive lower u (work reused elapsed w k)
  unfolding work remaining script chunk_items record_error
  work-IsLive reused elapsed w (opening (ok r)) q v =
      put-IsLive w (response_headers (headers_of r)) w.back (told (body_of r) r.ending)
        (ap remaining q) (Failing-at w _ q v) v
  work-IsLive reused elapsed w (opening (err e)) q v =
      move-IsLive w w.notifications (record_error w.back e) ending (ap remaining q)
        (Failing-at w _ q v).1 v
  work-IsLive reused elapsed w (told rest e) q v =
      write-IsLive reused w (reading rest e) ending (ap remaining q) (Failing-at w _ q v) v
  work-IsLive reused elapsed w (reading [] none) q v =
      let (clean, end) = Failing-at w (reading [] none) q v in
      move-IsLive w w.notifications w.back ending (ap remaining q) (clean ∙ end) v
  work-IsLive reused elapsed w (reading [] (some e)) q v =
      move-IsLive w w.notifications (record_error w.back e) ending (ap remaining q)
        (Failing-at w _ q v).1 v
  work-IsLive reused elapsed w (reading (c ∷ rest) e) q v =
      simp v.not_cancelled
        (take_chunk-IsLive elapsed w c rest e (ap remaining q) (Failing-at w _ q v) v)
  work-IsLive reused elapsed w ending q v =
      put-IsLive w sentinel w.back last_write (ap remaining q) (Failing-at w ending q v) v
  work-IsLive reused elapsed w last_write q v =
      write-IsLive reused w finished finished (ap remaining q) (Failing-at w last_write q v) v
  work-IsLive reused elapsed w finished q v = v
