-- ===== src/Streaming/Machine/MainThread.antt =====
-- The main thread's steps while the request is being streamed.
use flow_proxy.Base.{
  ℕ, ◌-◌, ◌≡◌, ◌≢◌, refl, ap, sym, subst, ◌∙◌, inl, ◌&&◌, List, [], ◌∷◌, ◌++◌, append_assoc, Text,
  ltb, if_true, if_intro,
}
use flow_proxy.Streaming.Machine.{
  Item, response_headers, chunk, sentinel, Front, Upstream, Phase, idle, draining, joining, World,
  deliver, error_output, close_line, finish, take_item, main_in, disconnect_in,
}
use flow_proxy.Streaming.Machine.Script.{
  first, append_nil_inv, script, outcome, remaining, SentinelLast, SentinelLast-script,
  behind_sentinel, done_worker, deliver_all, final_front, final_client, deliver_all-snoc,
}
use flow_proxy.Streaming.Machine.Stages.{IsLive, IsDone, Stage, live, cut, done}

module _ (lower : Text → Text) (u : Upstream) where
  -- Taking an item that is no sentinel.
  pub deliver-IsLive :
      (w : World) (x : Item) (rest : List Item)
      → w.chunk_queue ≡ x ∷ rest
      → IsLive lower u w
      → IsLive lower u (record w { chunk_queue = rest; front = deliver lower w.front x })
  deliver-IsLive w x rest q v = record {
    attached = v.attached;
    open_pipe = v.open_pipe;
    not_cancelled = v.not_cancelled;
    not_joining = v.not_joining;
    taken = v.taken ++ x ∷ [];
    shown = ap (λ f. deliver lower f x) v.shown ∙ sym (deliver_all-snoc lower first v.taken x);
    flow =
        append_assoc v.taken (x ∷ []) (rest ++ remaining w.worker)
        ∙ ap (λ z. v.taken ++ (z ++ remaining w.worker)) (sym q)
        ∙ v.flow;
    failing = v.failing;
    unlogged = v.unlogged;
  }

  -- What `_finish_stream` finds: everything was taken, and the worker's error is the last one.
  pub at_sentinel :
      (w : World) (rest : List Item)
      → w.chunk_queue ≡ sentinel ∷ rest
      → IsLive lower u w
      → (w.front ≡ final_front lower u) × (w.back.error ≡ outcome u)
  unfolding final_front
  at_sentinel w rest q v = (
    v.shown ∙ shown_all,
    done_worker (outcome u) w.worker w.back.error (nothing_left.1) v.failing,
  )
    where
      flow' : v.taken ++ (sentinel ∷ (rest ++ remaining w.worker)) ≡ script u
      flow' = ap (λ z. v.taken ++ (z ++ remaining w.worker)) (sym q) ∙ v.flow

      behind : rest ++ remaining w.worker ≡ []
      behind = behind_sentinel v.taken _ (subst SentinelLast (sym flow') (SentinelLast-script u))

      nothing_left : (rest ≡ []) × (remaining w.worker ≡ [])
      nothing_left = append_nil_inv rest (remaining w.worker) behind

      shown_all : deliver_all lower first v.taken ≡ deliver_all lower first (script u)
      shown_all =
          sym (deliver_all-snoc lower first v.taken sentinel ∙ (unfold deliver in refl))
          ∙ ap (λ z. deliver_all lower first (v.taken ++ sentinel ∷ z)) (sym behind)
          ∙ ap (deliver_all lower first) flow'

  pub finish_live :
      (w : World) (rest : List Item)
      → w.chunk_queue ≡ sentinel ∷ rest
      → IsLive lower u w
      → IsDone lower u (finish (record w { chunk_queue = rest }))
  unfolding finish close_line final_client
  finish_live w rest q v =
      let (f, e) = at_sentinel w rest q v in
      record {
        detached = refl;
        back_in_loop = refl;
        sent = λ i. (f i).client ++ error_output (f i) (e i);
        logged = (
          close_line w.front w.back,
          ap (λ l. l ++ close_line w.front w.back ∷ []) v.unlogged,
          ap (λ (x : Front). x.bytes_sent) f,
          ap (λ (x : Front). x.status_code) f,
        );
      }

  pub phase-IsLive :
      (w : World) (n : ℕ) (p : Phase)
      → p ≢ joining
      → IsLive lower u w
      → IsLive lower u (record w { notifications = n; phase = p })
  phase-IsLive w n p ne v = record {
    attached = v.attached;
    open_pipe = v.open_pipe;
    not_cancelled = v.not_cancelled;
    not_joining = ne;
    taken = v.taken;
    shown = v.shown;
    flow = v.flow;
    failing = v.failing;
    unlogged = v.unlogged;
  }

  pub take_live :
      (w : World) (items : List Item)
      → w.chunk_queue ≡ items
      → IsLive lower u w
      → Stage lower u (take_item lower w items)
  unfolding take_item
  take_live w [] q v = live (phase-IsLive w w.notifications idle (λ z. cc) v)
  take_live w (sentinel ∷ rest) q v = done (finish_live w rest q v)
  take_live w (response_headers h ∷ rest) q v =
      live (deliver-IsLive w (response_headers h) rest q v)
  take_live w (chunk c ∷ rest) q v = live (deliver-IsLive w (chunk c) rest q v)

  pub main_live :
      (w : World) (p : Phase) → w.phase ≡ p → IsLive lower u w → Stage lower u (main_in lower w p)
  unfolding main_in
  main_live w idle q v =
      if_intro (Stage lower u) (w.attached && ltb 0 w.notifications) _ _
        (live (phase-IsLive w (w.notifications - 256) draining (λ z. cc) v)) (live v)
  main_live w draining q v = take_live w w.chunk_queue refl v
  main_live w joining q v = absurd (v.not_joining q)

  pub leave_live :
      (w : World) (p : Phase) → w.phase ≡ p → IsLive lower u w → Stage lower u (disconnect_in w p)
  unfolding disconnect_in
  leave_live w idle q v = if_true (Stage lower u) w.attached _ _ v.attached (
      cut (record {
        cancelled = refl;
        away = inl refl;
        taken = v.taken;
        more = w.chunk_queue ++ remaining w.worker;
        shown = v.shown;
        flow = v.flow;
      }))
  leave_live w draining q v = live v
  leave_live w joining q v = live v
